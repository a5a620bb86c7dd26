-- ===== src/Config/Sized.antt =====
-- The sizes of the C records: each array has its size and a terminator, and each number fits its type.
use mqtt_field_bridge_app.Base.{
  ℕ, ◌<◌, ◌≡◌, refl, inl, inr, Bool-cases, Option, none, some, Bytes, arith, ltb, cstr, length,
  drop, set, codes, [], ◌∷◌, strncpy, IsTerminated, strncpy-IsTerminated, ◌==◌, ℤ, pos, negsuc, ◌-◌,
}
use mqtt_field_bridge_app.Config.Data.{
  Settings, SettingsV1, Peer, name_max, host_max, site_max, topic_max, profile_small, profile_large,
}
use mqtt_field_bridge_app.Config.Validate.{validate_settings}
use mqtt_field_bridge_app.Config.Defaults.{
  set_default_ip, apply_known_esp32_default_ip, static_defaults, finish_defaults, settings_defaults,
  settings_large_defaults,
}
use mqtt_field_bridge_app.Config.Store.{Platform}
use mqtt_field_bridge_app.Config.Valid.{persist_all_keeps, persist_save-settings}
use mqtt_field_bridge_app.Config.Ops.{
  is_ok, Config, settings_key, from_v1, persist_save_settings, persist_save, set_peer, set_settings,
  commit_settings, reset_all, apply_defaults,
}

pub record IsSized (s : Settings) : Type 0 where
  pub device_name : IsTerminated name_max s.system.device_name
  pub device_ip : IsTerminated host_max s.network.device_ip
  pub gateway : IsTerminated host_max s.network.gateway
  pub netmask : IsTerminated host_max s.network.netmask
  pub dns : IsTerminated host_max s.network.dns
  pub broker_ip : IsTerminated host_max s.broker.broker_ip
  pub site_id : IsTerminated site_max s.broker.site_id
  pub topic_prefix : IsTerminated topic_max s.broker.topic_prefix
  pub dhcp_enabled : s.network.dhcp_enabled < 256
  pub mqtt_port : s.broker.mqtt_port < 65536
  pub p2p_port : s.broker.p2p_port < 65536
  pub fallback_port : s.broker.fallback_port < 65536
  pub broker_enabled : s.broker.broker_enabled < 256
  pub bridge_enabled : s.broker.bridge_enabled < 256
  pub mesh_enabled : s.broker.mesh_enabled < 256

-- The same of the settings of the first format, but for the three texts of the broker, which
-- load_legacy_settings copies into arrays of its own.
pub record IsSizedV1 (old : SettingsV1) : Type 0 where
  pub device_name : IsTerminated name_max old.system.device_name
  pub device_ip : IsTerminated host_max old.network.device_ip
  pub gateway : IsTerminated host_max old.network.gateway
  pub netmask : IsTerminated host_max old.network.netmask
  pub dns : IsTerminated host_max old.network.dns
  pub dhcp_enabled : old.network.dhcp_enabled < 256
  pub mqtt_port : old.broker.mqtt_port < 65536
  pub p2p_port : old.broker.p2p_port < 65536
  pub broker_enabled : old.broker.broker_enabled < 256
  pub bridge_enabled : old.broker.bridge_enabled < 256
  pub mesh_enabled : old.broker.mesh_enabled < 256

-- A store that gives back what it holds: where the records in it have terminated texts in arrays of
-- the sizes of the C records, it loads such records, and starts and saves of such records leave it so.
pub record IsSizedStore {S : Type 0} (env : Platform S) (Holds : S → Type 0) : Type 0 where
  pub starts : (s : S) → Holds s → Holds (env.store_init s).1
  pub settings :
      (s : S) (k : ℕ) (x : Settings) → Holds s → env.load_settings s k ≡ some x → IsSized x
  pub v1 : (s : S) (k : ℕ) (old : SettingsV1) → Holds s → env.load_v1 s k ≡ some old → IsSizedV1 old
  pub saves_peer : (s : S) (k : ℕ) (p : Peer) → Holds s → Holds (env.save_peer s k p).1
  pub saves_settings :
      (s : S) (k : ℕ) (x : Settings) → Holds s → IsSized x → Holds (env.save_settings s k x).1

pub from_v1-IsSized : (old : SettingsV1) → IsSizedV1 old → IsSized (from_v1 old)
unfolding from_v1
from_v1-IsSized old h = record {
  device_name = h.device_name;
  device_ip = h.device_ip;
  gateway = h.gateway;
  netmask = h.netmask;
  dns = h.dns;
  broker_ip = strncpy-IsTerminated _ (cstr old.broker.broker_ip) (host_max - 1) refl;
  site_id = strncpy-IsTerminated _ (cstr old.broker.site_id) (site_max - 1) refl;
  topic_prefix = strncpy-IsTerminated _ (cstr old.broker.topic_prefix) (topic_max - 1) refl;
  dhcp_enabled = h.dhcp_enabled;
  mqtt_port = h.mqtt_port;
  p2p_port = h.p2p_port;
  fallback_port = omega arith;
  broker_enabled = h.broker_enabled;
  bridge_enabled = h.bridge_enabled;
  mesh_enabled = h.mesh_enabled;
}

board_defaults-IsSized :
    (o : Option Bytes) → IsSized (finish_defaults (set_default_ip o static_defaults))
unfolding finish_defaults set_default_ip static_defaults strncpy cstr
board_defaults-IsSized none = record {
  device_name = (refl, omega arith);
  device_ip = (refl, omega arith);
  gateway = (refl, omega arith);
  netmask = (refl, omega arith);
  dns = (refl, omega arith);
  broker_ip = (refl, omega arith);
  site_id = (refl, omega arith);
  topic_prefix = (refl, omega arith);
  dhcp_enabled = omega arith;
  mqtt_port = omega arith;
  p2p_port = omega arith;
  fallback_port = omega arith;
  broker_enabled = omega arith;
  bridge_enabled = omega arith;
  mesh_enabled = omega arith;
}
board_defaults-IsSized (some ip) = record {
  device_name = (refl, omega arith);
  device_ip = strncpy-IsTerminated static_defaults.network.device_ip ip 63 refl;
  gateway = (refl, omega arith);
  netmask = (refl, omega arith);
  dns = (refl, omega arith);
  broker_ip = strncpy-IsTerminated static_defaults.broker.broker_ip ip 63 refl;
  site_id = (refl, omega arith);
  topic_prefix = (refl, omega arith);
  dhcp_enabled = omega arith;
  mqtt_port = omega arith;
  p2p_port = omega arith;
  fallback_port = omega arith;
  broker_enabled = omega arith;
  bridge_enabled = omega arith;
  mesh_enabled = omega arith;
}

pub settings_defaults-IsSized : (device_id : Bytes) → IsSized (settings_defaults device_id)
unfolding settings_defaults apply_known_esp32_default_ip
settings_defaults-IsSized device_id = elim (Bool-cases (ltb (length device_id) 3)) [
  | inl e ↦ rw e (unfold set_default_ip in board_defaults-IsSized none)
  | inr e ↦ rw e (board_defaults-IsSized _)
]

-- The last byte of the arrays that the large profile writes again.
IsEnded : Settings → Type 0
IsEnded s =
    (drop 31 s.system.device_name ≡ 0 ∷ [])
    × (drop 31 s.broker.site_id ≡ 0 ∷ [])
    × (drop 63 s.broker.topic_prefix ≡ 0 ∷ [])

board_defaults-IsEnded :
    (o : Option Bytes) → IsEnded (finish_defaults (set_default_ip o static_defaults))
unfolding IsEnded finish_defaults set_default_ip static_defaults strncpy
board_defaults-IsEnded none = (refl, refl, refl)
board_defaults-IsEnded (some ip) = (refl, refl, refl)

settings_defaults-IsEnded : (device_id : Bytes) → IsEnded (settings_defaults device_id)
unfolding settings_defaults apply_known_esp32_default_ip
settings_defaults-IsEnded device_id = elim (Bool-cases (ltb (length device_id) 3)) [
  | inl e ↦ rw e (unfold set_default_ip in board_defaults-IsEnded none)
  | inr e ↦ rw e (board_defaults-IsEnded _)
]

pub settings_large_defaults-IsSized :
    (device_id : Bytes) → IsSized (settings_large_defaults device_id)
unfolding settings_large_defaults IsEnded
settings_large_defaults-IsSized device_id =
    let s = settings_defaults device_id in
    let h = settings_defaults-IsSized device_id in
    let ended = settings_defaults-IsEnded device_id in
    record {
      device_name =
          strncpy-IsTerminated s.system.device_name (codes "esp32-field-router") 31 ended.0;
      device_ip = h.device_ip;
      gateway = h.gateway;
      netmask = h.netmask;
      dns = h.dns;
      broker_ip = h.broker_ip;
      site_id = strncpy-IsTerminated s.broker.site_id (codes "field-large") 31 ended.1;
      topic_prefix =
          strncpy-IsTerminated s.broker.topic_prefix (codes "site/field-large") 63 ended.2;
      dhcp_enabled = h.dhcp_enabled;
      mqtt_port = h.mqtt_port;
      p2p_port = h.p2p_port;
      fallback_port = h.fallback_port;
      broker_enabled = h.broker_enabled;
      bridge_enabled = h.bridge_enabled;
      mesh_enabled = h.mesh_enabled;
    }

module _ {S : Type 0} (env : Platform S) where
  pub set_settings-IsSized :
      (c : Config S) (x : Settings)
      → IsSized c.settings
      → IsSized x
      → IsSized (set_settings env c (some x)).1.settings
  unfolding set_settings commit_settings persist_save_settings
  set_settings-IsSized c x h hx = elim (Bool-cases (is_ok (validate_settings (some x)))) [
    | inl e ↦ elim (Bool-cases (is_ok (env.save_settings c.store settings_key x).0)) [
      | inl e' ↦ rw (e, e') hx
      | inr e' ↦ rw (e, e') hx
    ]
    | inr e ↦ rw e h
  ]

  pub set_peer-settings :
      (c : Config S) (i : ℤ) (o : Option Peer) → (set_peer env c i o).1.settings ≡ c.settings
  unfolding set_peer persist_save
  set_peer-settings c (negsuc n) o = refl
  set_peer-settings c (pos i) none = refl
  set_peer-settings c (pos i) (some p) =
      let same = persist_save-settings env (record c { peers = set c.peers i p }) i in ground arith

  pub reset_all-IsSized : (c : Config S) → IsSized (reset_all env c).1.settings
  unfolding reset_all
  reset_all-IsSized c = rw (persist_all_keeps env _).0 (settings_defaults-IsSized env.device_id)

  pub apply_defaults-IsSized :
      (c : Config S) (profile : ℕ)
      → IsSized c.settings
      → IsSized (apply_defaults env c profile).1.settings
  unfolding apply_defaults
  apply_defaults-IsSized c profile h = elim (Bool-cases (profile == profile_small)) [
    | inl e ↦ rw (e, (persist_all_keeps env _).0) (settings_defaults-IsSized env.device_id)
    | inr e ↦ elim (Bool-cases (profile == profile_large)) [
      | inl e' ↦
          rw (e, e', (persist_all_keeps env _).0) (settings_large_defaults-IsSized env.device_id)
      | inr e' ↦ rw (e, e') h
    ]
  ]
