-- ===== src/Http/Sized.antt =====
-- The settings that a POST of /config sets have the sizes of the C records.
use mqtt_field_bridge_app.Base.{
  ℕ, ◌≡◌, refl, inl, inr, Bool, Bool-cases, Option-cases, Option, none, some, Bytes, ℤ, drop, arith,
  codes, cstr, zeros,
}
use mqtt_field_bridge_app.Config.{
  Settings, Platform, Config, is_ok, get_settings, set_settings, get_peer, set_peer,
  network_mode_from_name, IsSized, set_settings-IsSized, set_peer-settings, reset_all,
  reset_all-IsSized,
}
use mqtt_field_bridge_app.Bridge.{Mesh}
use mqtt_field_bridge_app.Runtime.{P2p}
use mqtt_field_bridge_app.Http.Handlers.{
  Server, zephyr_post_config, zephyr_post_peer, zephyr_post_reset,
}
use mqtt_field_bridge_app.Console.{atoi}
use mqtt_field_bridge_app.Http.Json.{json_get_string}
use mqtt_field_bridge_app.Http.Strings.{json_get_string-IsTerminated}
use mqtt_field_bridge_app.Http.Apply.{
  string_fields, mode_field, number_fields, same_settings, read_settings, read_peer, commit_config,
  apply_config_json, apply_peer_json,
}
use mqtt_field_bridge_app.Http.Numbers.{or_port-bound, or_flag-bound}

string_fields-IsSized : (body : Bytes) (s : Settings) → IsSized s → IsSized (string_fields body s).1
unfolding string_fields
string_fields-IsSized body s h = record {
  device_name = json_get_string-IsTerminated body _ _ _ (omega arith) h.device_name;
  device_ip = json_get_string-IsTerminated body _ _ _ (omega arith) h.device_ip;
  gateway = json_get_string-IsTerminated body _ _ _ (omega arith) h.gateway;
  netmask = json_get_string-IsTerminated body _ _ _ (omega arith) h.netmask;
  dns = json_get_string-IsTerminated body _ _ _ (omega arith) h.dns;
  broker_ip = json_get_string-IsTerminated body _ _ _ (omega arith) h.broker_ip;
  site_id = json_get_string-IsTerminated body _ _ _ (omega arith) h.site_id;
  topic_prefix = json_get_string-IsTerminated body _ _ _ (omega arith) h.topic_prefix;
  dhcp_enabled = h.dhcp_enabled;
  mqtt_port = h.mqtt_port;
  p2p_port = h.p2p_port;
  fallback_port = h.fallback_port;
  broker_enabled = h.broker_enabled;
  bridge_enabled = h.bridge_enabled;
  mesh_enabled = h.mesh_enabled;
}

number_fields-IsSized : (body : Bytes) (s : Settings) → IsSized s → IsSized (number_fields body s).1
unfolding number_fields
number_fields-IsSized body s h = record {
  device_name = h.device_name;
  device_ip = h.device_ip;
  gateway = h.gateway;
  netmask = h.netmask;
  dns = h.dns;
  broker_ip = h.broker_ip;
  site_id = h.site_id;
  topic_prefix = h.topic_prefix;
  dhcp_enabled = or_flag-bound body _ _ h.dhcp_enabled;
  mqtt_port = or_port-bound body _ _ h.mqtt_port;
  p2p_port = or_port-bound body _ _ h.p2p_port;
  fallback_port = or_port-bound body _ _ h.fallback_port;
  broker_enabled = or_flag-bound body _ _ h.broker_enabled;
  bridge_enabled = or_flag-bound body _ _ h.bridge_enabled;
  mesh_enabled = or_flag-bound body _ _ h.mesh_enabled;
}

with_mode-IsSized :
    (s : Settings) (mode : ℕ)
    → IsSized s
    → IsSized (record s { network = record s.network { mode = mode } })
with_mode-IsSized s mode h = record {
  device_name = h.device_name;
  device_ip = h.device_ip;
  gateway = h.gateway;
  netmask = h.netmask;
  dns = h.dns;
  broker_ip = h.broker_ip;
  site_id = h.site_id;
  topic_prefix = h.topic_prefix;
  dhcp_enabled = h.dhcp_enabled;
  mqtt_port = h.mqtt_port;
  p2p_port = h.p2p_port;
  fallback_port = h.fallback_port;
  broker_enabled = h.broker_enabled;
  bridge_enabled = h.bridge_enabled;
  mesh_enabled = h.mesh_enabled;
}

-- The settings where a mode was accepted.
AllSized : Option (Bool × Settings) → Type 0
AllSized none = Unit
AllSized (some (seen, s)) = IsSized s

mode_field-AllSized : (body : Bytes) (s : Settings) → IsSized s → AllSized (mode_field body s)
unfolding mode_field AllSized
mode_field-AllSized body s h =
    let read = json_get_string body (codes "mode") (zeros 16) 16 in
    elim (Bool-cases (is_ok read.0)) [
      | inl e ↦ elim (Option-cases (network_mode_from_name (some (cstr read.1)))) [
        | inl e' ↦ rw (e, e', mode_field) tt
        | inr (mode, e') ↦ rw (e, e', mode_field) (with_mode-IsSized s mode h)
      ]
      | inr e ↦ rw (e, mode_field) h
    ]

read_settings-AllSized : (body : Bytes) (s : Settings) → IsSized s → AllSized (read_settings body s)
unfolding read_settings AllSized
read_settings-AllSized body s h =
    let s₁ = (string_fields body s).1 in
    let h₁ = mode_field-AllSized body s₁ (string_fields-IsSized body s h) in
    elim (Option-cases (mode_field body s₁)) [
      | inl e ↦ rw (e, read_settings) tt
      | inr ((mode, s₂), e) ↦ rw (e, read_settings) (number_fields-IsSized body s₂ (rw e at h₁))
    ]

module _ {S : Type 0} (env : Platform S) where
  commit_config-IsSized :
      (old new : Settings) (c : Config S)
      → IsSized c.settings
      → IsSized new
      → IsSized (commit_config env old new c).2.settings
  unfolding commit_config
  commit_config-IsSized old new c h hn =
      let set_sizes = set_settings-IsSized env c new h hn in
      elim (Bool-cases (same_settings old new)) [
        | inl e ↦ rw e h
        | inr e ↦ elim (Bool-cases (is_ok (set_settings env c (some new)).0)) [
          | inl e' ↦ rw (e, e') set_sizes
          | inr e' ↦ rw (e, e') set_sizes
        ]
      ]

  pub apply_config_json-IsSized :
      (body : Bytes) (c : Config S)
      → IsSized c.settings
      → IsSized (apply_config_json env body c).2.settings
  unfolding apply_config_json get_settings AllSized
  apply_config_json-IsSized body c h =
      let read = read_settings-AllSized body c.settings h in
      elim (Option-cases (read_settings body c.settings)) [
        | inl e ↦ rw (e, apply_config_json) h
        | inr ((seen, new), e) ↦
            let hn : IsSized new = rw e at read in
            elim (Bool-cases seen) [
              | inl e' ↦ rw (e, e', apply_config_json) (commit_config-IsSized c.settings new c h hn)
              | inr e' ↦ rw (e, e', apply_config_json) h
            ]
      ]

  pub apply_peer_json-settings :
      {T : Type 0} (mesh : Mesh T) (index : ℤ) (body : Bytes) (c : Config S) (table : T)
      → (apply_peer_json env mesh index body c table).1.settings ≡ c.settings
  unfolding apply_peer_json
  apply_peer_json-settings mesh index body c table = elim (Option-cases (get_peer env c index)) [
    | inl e ↦ rw (e, apply_peer_json) refl
    | inr (p, e) ↦
        let same = set_peer-settings env c index (some (read_peer body p)) in
        elim (Bool-cases (is_ok (set_peer env c index (some (read_peer body p))).0)) [
          | inl e' ↦ rw (e, e', apply_peer_json) same
          | inr e' ↦ rw (e, e', apply_peer_json) same
        ]
  ]

module _ {S T : Type 0} (env : Platform S) (mesh : Mesh T) (p2p : P2p) where
  pub zephyr_post_config-IsSized :
      (body : Bytes) (s : Server S T)
      → IsSized s.config.settings
      → IsSized (zephyr_post_config env mesh p2p body s).1.config.settings
  unfolding zephyr_post_config
  zephyr_post_config-IsSized body s h =
      let sizes = apply_config_json-IsSized env body s.config h in
      elim (Bool-cases (is_ok (apply_config_json env body s.config).0)) [
        | inl e ↦ rw e sizes
        | inr e ↦ rw e sizes
      ]

  pub zephyr_post_peer-settings :
      (path body : Bytes) (s : Server S T)
      → (zephyr_post_peer env mesh p2p path body s).1.config.settings ≡ s.config.settings
  unfolding zephyr_post_peer
  zephyr_post_peer-settings path body s =
      let index = atoi (drop 7 path) in
      let same = apply_peer_json-settings env mesh index body s.config s.table in
      elim (Bool-cases (is_ok (apply_peer_json env mesh index body s.config s.table).0)) [
        | inl e ↦ rw e same
        | inr e ↦ rw e same
      ]

  pub zephyr_post_reset-IsSized :
      (s : Server S T) → IsSized (zephyr_post_reset env mesh p2p s).1.config.settings
  unfolding zephyr_post_reset
  zephyr_post_reset-IsSized s =
      let sizes = reset_all-IsSized env s.config in
      elim (Bool-cases (is_ok (reset_all env s.config).0)) [
        | inl e ↦ rw e sizes
        | inr e ↦ rw e sizes
      ]
