-- ===== src/Http/Apply.antt =====
-- apply_config_json and apply_peer_json of provisioning_http.c.
use mqtt_field_bridge_app.Base.{
  ℕ, Bool, true, false, ◌&&◌, ◌||◌, Option, none, some, Bytes, ℤ, Rc, ok, fail, ◌==◌, if◌then◌else◌,
  codes, cstr, equal, zeros,
}
use mqtt_field_bridge_app.Config.{
  Peer, Settings, Platform, Config, name_max, host_max, site_max, topic_max, is_ok, get_peer,
  set_peer, get_settings, set_settings, network_mode_from_name,
}
use mqtt_field_bridge_app.Bridge.{Mesh, apply_peers}
use mqtt_field_bridge_app.Http.Json.{
  json_find_key, json_get_string, json_get_u16, json_get_boolish, copy_if_present,
}

-- What a reader of a number leaves in its variable.
abbrev pub or_old : Option ℕ → ℕ → ℕ
or_old none old = old
or_old (some value) old = value

abbrev pub is_given : {A : Type 0} → Option A → Bool
is_given none = false
is_given (some a) = true

-- The eight strings that are read in turn: whether one was read, and the settings. An array that is
-- written although its string is refused stays written.
unfoldable pub string_fields : Bytes → Settings → Bool × Settings
string_fields body s =
    let (rc₁, device_name) =
      json_get_string body (codes "device_name") s.system.device_name name_max in
    let (rc₂, device_ip) = json_get_string body (codes "device_ip") s.network.device_ip host_max in
    let (rc₃, gateway) = json_get_string body (codes "gateway") s.network.gateway host_max in
    let (rc₄, netmask) = json_get_string body (codes "netmask") s.network.netmask host_max in
    let (rc₅, dns) = json_get_string body (codes "dns") s.network.dns host_max in
    let (rc₆, broker_ip) = json_get_string body (codes "broker_ip") s.broker.broker_ip host_max in
    let (rc₇, site_id) = json_get_string body (codes "site_id") s.broker.site_id site_max in
    let (rc₈, topic_prefix) =
      json_get_string body (codes "topic_prefix") s.broker.topic_prefix topic_max in
    (
      is_ok rc₁
          || is_ok rc₂
          || is_ok rc₃
          || is_ok rc₄
          || is_ok rc₅
          || is_ok rc₆
          || is_ok rc₇
          || is_ok rc₈,
      record s {
        system = record { device_name = device_name };
        network = record s.network {
          device_ip = device_ip;
          gateway = gateway;
          netmask = netmask;
          dns = dns;
        };
        broker = record s.broker {
          broker_ip = broker_ip;
          site_id = site_id;
          topic_prefix = topic_prefix;
        };
      },
    )

-- Where the mode is a string, its name has to be known; `none` is -1.
unfoldable pub mode_field : Bytes → Settings → Option (Bool × Settings)
mode_field body s =
    let (rc, mode) = json_get_string body (codes "mode") (zeros 16) 16 in
    let seen = is_given (json_find_key body (codes "mode")) in
    if is_ok rc
    then elim (network_mode_from_name (some (cstr mode))) [
      | none ↦ none
      | some m ↦ some (seen, record s { network = record s.network { mode = m } })
    ]
    else some (seen, s)

unfoldable pub number_fields : Bytes → Settings → Bool × Settings
number_fields body s =
    let dhcp_enabled = json_get_boolish body (codes "dhcp_enabled") in
    let broker_enabled = json_get_boolish body (codes "broker_enabled") in
    let bridge_enabled = json_get_boolish body (codes "bridge_enabled") in
    let mesh_enabled = json_get_boolish body (codes "mesh_enabled") in
    let mqtt_port = json_get_u16 body (codes "mqtt_port") in
    let fallback_port = json_get_u16 body (codes "fallback_port") in
    let p2p_port = json_get_u16 body (codes "p2p_port") in
    (
      is_given dhcp_enabled
          || is_given broker_enabled
          || is_given bridge_enabled
          || is_given mesh_enabled
          || is_given mqtt_port
          || is_given fallback_port
          || is_given p2p_port,
      record s {
        network = record s.network { dhcp_enabled = or_old dhcp_enabled s.network.dhcp_enabled };
        broker = record s.broker {
          mqtt_port = or_old mqtt_port s.broker.mqtt_port;
          p2p_port = or_old p2p_port s.broker.p2p_port;
          fallback_port = or_old fallback_port s.broker.fallback_port;
          broker_enabled = or_old broker_enabled s.broker.broker_enabled;
          bridge_enabled = or_old bridge_enabled s.broker.bridge_enabled;
          mesh_enabled = or_old mesh_enabled s.broker.mesh_enabled;
        };
      },
    )

-- memcmp(&a, &b, sizeof(a)) == 0
unfoldable pub same_settings : Settings → Settings → Bool
same_settings a b =
    equal a.system.device_name b.system.device_name
    && equal a.network.device_ip b.network.device_ip
    && equal a.network.gateway b.network.gateway
    && equal a.network.netmask b.network.netmask
    && equal a.network.dns b.network.dns
    && a.network.dhcp_enabled == b.network.dhcp_enabled
    && a.network.mode == b.network.mode
    && equal a.broker.broker_ip b.broker.broker_ip
    && equal a.broker.site_id b.broker.site_id
    && equal a.broker.topic_prefix b.broker.topic_prefix
    && a.broker.mqtt_port == b.broker.mqtt_port
    && a.broker.p2p_port == b.broker.p2p_port
    && a.broker.fallback_port == b.broker.fallback_port
    && a.broker.broker_enabled == b.broker.broker_enabled
    && a.broker.bridge_enabled == b.broker.bridge_enabled
    && a.broker.mesh_enabled == b.broker.mesh_enabled

-- The new settings and whether a key was seen; `none` is an unknown mode.
unfoldable pub read_settings : Bytes → Settings → Option (Bool × Settings)
read_settings body old =
    let (strings, s₁) = string_fields body old in
    elim (mode_field body s₁) [
      | none ↦ none
      | some (mode, s₂) ↦
          let (numbers, s₃) = number_fields body s₂ in some (strings || mode || numbers, s₃)
    ]

unfoldable pub read_peer : Bytes → Peer → Peer
read_peer body p =
    let p2p = or_old (json_get_u16 body (codes "p2p_port")) p.p2p_port in
    record {
      name = copy_if_present p.name name_max body (codes "name");
      host = copy_if_present p.host host_max body (codes "host");
      mqtt_port = or_old (json_get_u16 body (codes "mqtt_port")) p.mqtt_port;
      p2p_port = if p2p == 0 then 4884 else p2p;
      enabled = or_old (json_get_boolish body (codes "enabled")) p.enabled;
    }

module _ {S : Type 0} (env : Platform S) where
  -- The end of apply_config_json: the result, `reboot_required`, and the configuration.
  unfoldable pub commit_config : Settings → Settings → Config S → Rc × ℕ × Config S
  commit_config old new c =
      if same_settings old new
      then (ok, 0, c)
      else let (rc, c') = set_settings env c (some new) in
        if is_ok rc then (ok, 1, c') else (fail, 0, c')

  unfoldable pub apply_config_json : Bytes → Config S → Rc × ℕ × Config S
  apply_config_json body c = elim (get_settings env c) [
    | none ↦ (fail, 0, c)
    | some old ↦ elim (read_settings body old) [
      | none ↦ (fail, 0, c)
      | some (seen, new) ↦ if seen then commit_config old new c else (fail, 0, c)
    ]
  ]

  -- The configuration, and the seed table of the mesh. get_peer refuses what the guard on the index
  -- refuses.
  unfoldable pub apply_peer_json :
      {T : Type 0} → Mesh T → ℤ → Bytes → Config S → T → Rc × Config S × T
  apply_peer_json mesh index body c table = elim (get_peer env c index) [
    | none ↦ (fail, c, table)
    | some p ↦
        let (rc, c') = set_peer env c index (some (read_peer body p)) in
        if is_ok rc then (ok, c', (apply_peers mesh env c' table).1) else (fail, c', table)
  ]
