-- ===== src/Config/Defaults.antt =====
-- The default settings of product_config.c, and the board table that picks the default address.
use mqtt_field_bridge_app.Base.{
  ◌-◌, Option, none, some, List, [], ◌∷◌, Bytes, ltb, if◌then◌else◌, codes, length, drop, equal,
  strncpy,
}
use mqtt_field_bridge_app.Config.Data.{
  Settings, zero_settings, name_max, host_max, site_max, topic_max, mode_auto,
}

pub record KnownBoard : Type 0 where
  pub id_tail : Bytes
  pub ip : Bytes

abbrev pub known_boards : List KnownBoard
known_boards =
    record { id_tail = 0x60 ∷ 0x37 ∷ 0x28 ∷ []; ip = codes "192.168.127.10" }
    ∷ record { id_tail = 0x0c ∷ 0x5d ∷ 0xd8 ∷ []; ip = codes "192.168.127.11" }
    ∷ record { id_tail = 0x60 ∷ 0x39 ∷ 0xe8 ∷ []; ip = codes "192.168.127.12" }
    ∷ record { id_tail = 0x0c ∷ 0x20 ∷ 0x90 ∷ []; ip = codes "192.168.127.13" }
    ∷ record { id_tail = 0x09 ∷ 0xc4 ∷ 0x04 ∷ []; ip = codes "192.168.127.14" }
    ∷ record { id_tail = 0x5a ∷ 0xb4 ∷ 0x1c ∷ []; ip = codes "192.168.127.15" }
    ∷ []

-- The loop over the table: the address of the first board whose tail matches.
unfoldable pub known_ip : Bytes → List KnownBoard → Option Bytes
unfolding equal
known_ip tail [] = none
known_ip tail (board ∷ boards) =
    let rest = known_ip tail boards in if equal tail board.id_tail then some board.ip else rest

unfoldable pub set_default_ip : Option Bytes → Settings → Settings
unfolding strncpy
set_default_ip none s = s
set_default_ip (some ip) s = record s {
  network = record s.network { device_ip = strncpy s.network.device_ip ip (host_max - 1) };
  broker = record s.broker { broker_ip = strncpy s.broker.broker_ip ip (host_max - 1) };
}

-- The device id is what hwinfo_get_device_id reports, at most 8 bytes; empty where it fails, or
-- where the build has no HWINFO and the function body is empty.
unfoldable pub apply_known_esp32_default_ip : Bytes → Settings → Settings
unfolding known_ip set_default_ip
apply_known_esp32_default_ip device_id s =
    let len = length device_id in
    if ltb len 3 then s else set_default_ip (known_ip (drop (len - 3) device_id) known_boards) s

-- settings_defaults up to the call of apply_known_esp32_default_ip
unfoldable pub static_defaults : Settings
unfolding strncpy
static_defaults =
    let z = zero_settings in
    record {
      system = record {
        device_name = strncpy z.system.device_name (codes "esp32-min-broker") (name_max - 1);
      };
      network = record {
        device_ip = strncpy z.network.device_ip (codes "192.168.127.10") (host_max - 1);
        gateway = strncpy z.network.gateway (codes "192.168.127.5") (host_max - 1);
        netmask = strncpy z.network.netmask (codes "255.255.0.0") (host_max - 1);
        dns = strncpy z.network.dns (codes "192.168.127.5") (host_max - 1);
        dhcp_enabled = 0;
        mode = z.network.mode;
      };
      broker = record z.broker {
        broker_ip = strncpy z.broker.broker_ip (codes "192.168.127.10") (host_max - 1);
      };
    }

-- settings_defaults behind that call
unfoldable pub finish_defaults : Settings → Settings
unfolding strncpy
finish_defaults s = record s {
  network = record s.network { mode = mode_auto };
  broker = record s.broker {
    site_id = strncpy s.broker.site_id (codes "field-a") (site_max - 1);
    topic_prefix = strncpy s.broker.topic_prefix (codes "site/field-a") (topic_max - 1);
    mqtt_port = 1883;
    p2p_port = 4884;
    fallback_port = 1884;
    broker_enabled = 1;
    bridge_enabled = 1;
    mesh_enabled = 1;
  };
}

unfoldable pub settings_defaults : Bytes → Settings
unfolding apply_known_esp32_default_ip static_defaults finish_defaults
settings_defaults device_id =
    finish_defaults (apply_known_esp32_default_ip device_id static_defaults)

unfoldable pub settings_large_defaults : Bytes → Settings
unfolding strncpy
settings_large_defaults device_id =
    let s = settings_defaults device_id in
    record s {
      system = record {
        device_name = strncpy s.system.device_name (codes "esp32-field-router") (name_max - 1);
      };
      broker = record s.broker {
        site_id = strncpy s.broker.site_id (codes "field-large") (site_max - 1);
        topic_prefix = strncpy s.broker.topic_prefix (codes "site/field-large") (topic_max - 1);
      };
    }
