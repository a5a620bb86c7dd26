-- ===== src/Http/Echo.antt =====
-- The configuration that GET /config shows, posted back.
use mqtt_field_bridge_app.Base.{
  ℕ, ◌<◌, ◌≤◌, ◌≡◌, ◌∙◌, refl, ap, inl, inr, Bool, true, ◌||◌, some, List, ◌∷◌, Bytes, ok, arith,
  ◌==◌, length, Bool-cases, cstr, codes, equal, equal_iff, zeros, String, get_elem?,
}
use mqtt_field_bridge_app.Config.{
  Settings, Platform, Config, validate_settings, network_mode_name, from_name-name, get_settings,
  valid_network_mode,
}
use mqtt_field_bridge_app.Http.Json.{
  json_find_key, json_get_string, json_get_u16, json_get_boolish, stored,
}
use mqtt_field_bridge_app.Http.Builders.{config_text}
use mqtt_field_bridge_app.Http.Apply.{
  string_fields, mode_field, number_fields, read_settings, same_settings, commit_config,
  apply_config_json,
}
use mqtt_field_bridge_app.Http.Fields.{IsPlain}
use mqtt_field_bridge_app.Http.Objects.{
  Field, text, number, from_key, object_found, object_string, object_text_read, object_port,
  object_flag,
}
use mqtt_field_bridge_app.Http.ConfigObject.{
  config_fields, config_text-object, config_keys, key_test, key_test-IsKey, IsShown, IsEchoed,
  config_fields-IsReadable,
}

mode_text :
    (mode : ℕ)
    → let name = network_mode_name mode in
      IsPlain name × (length name < 16) × (cstr (stored name (zeros 16)) ≡ name)
unfolding network_mode_name cstr
mode_text mode = elim (Bool-cases (mode == 0)) [
  | inl e ↦
      rw e (((refl, refl), ((refl, refl), ((refl, refl), ((refl, refl), tt)))), omega arith, refl)
  | inr e ↦ elim (Bool-cases (mode == 1)) [
    | inl e' ↦ rw (e, e') (((refl, refl), ((refl, refl), ((refl, refl), tt))), omega arith, refl)
    | inr e' ↦
        rw (e, e')
          (
            (
              (refl, refl),
              (
                (refl, refl),
                ((refl, refl), ((refl, refl), ((refl, refl), ((refl, refl), ((refl, refl), tt))))),
              ),
            ),
            omega arith,
            refl,
          )
  ]
]

equal_self : (a : Bytes) → equal a a ≡ true
equal_self a = (equal_iff a a).1 refl

number_self : (n : ℕ) → (n == n) ≡ true
number_self n = ground arith

same_settings_refl : (s : Settings) → same_settings s s ≡ true
unfolding same_settings
same_settings_refl s = simp (equal_self, number_self)

read_settings_of :
    (body : Bytes) (old : Settings) {s₁ s₂ s₃ : Settings} {strings mode numbers : Bool}
    → string_fields body old ≡ (strings, s₁)
    → mode_field body s₁ ≡ some (mode, s₂)
    → number_fields body s₂ ≡ (numbers, s₃)
    → read_settings body old ≡ some (strings || mode || numbers, s₃)
unfolding read_settings
read_settings_of body old e₁ e₂ e₃ = cc

-- The texts of an object with these fields, at each key.
module _ (s : Settings) (h : IsEchoed s) where
  string_back :
      (i : ℕ) (word : String) {size : ℕ} {out : Bytes} {gs : List Field}
      → get_elem? config_keys i ≡ some (codes word)
      → key_test (codes word) ≡ true
      → IsShown size out
      → from_key (codes word) (config_fields s) ≡ some (text (codes word) (cstr out) ∷ gs)
      → json_get_string (config_text s) (codes word) out size ≡ (ok, out)
  string_back i word {size} {out} {gs} e t shown at = rw (config_text-object s) (
      object_string (codes word) out size (config_fields s) gs (key_test-IsKey _ t)
        (config_fields-IsReadable i (codes word) s e t h) at shown.plain shown.terminated)

  port_back :
      (i : ℕ) (word : String) {n : ℕ} {gs : List Field}
      → get_elem? config_keys i ≡ some (codes word)
      → key_test (codes word) ≡ true
      → from_key (codes word) (config_fields s) ≡ some (number (codes word) n ∷ gs)
      → 0 < n
      → n ≤ 65535
      → json_get_u16 (config_text s) (codes word) ≡ some n
  port_back i word {n} {gs} e t at low high = rw (config_text-object s) (
      object_port (codes word) n (config_fields s) gs (key_test-IsKey _ t)
        (config_fields-IsReadable i (codes word) s e t h) at low high)

  flag_back :
      (i : ℕ) (word : String) {n : ℕ} {gs : List Field}
      → get_elem? config_keys i ≡ some (codes word)
      → key_test (codes word) ≡ true
      → from_key (codes word) (config_fields s) ≡ some (number (codes word) n ∷ gs)
      → n ≤ 1
      → json_get_boolish (config_text s) (codes word) ≡ some n
  flag_back i word {n} {gs} e t at high = rw (config_text-object s) (
      object_flag (codes word) n (config_fields s) gs (key_test-IsKey _ t)
        (config_fields-IsReadable i (codes word) s e t h) at high)

  string_fields_back : string_fields (config_text s) s ≡ (true, s)
  unfolding string_fields from_key equal
  string_fields_back =
      rw
        (
          string_back 0 "device_name" refl refl h.device_name refl,
          string_back 1 "device_ip" refl refl h.device_ip refl,
          string_back 2 "gateway" refl refl h.gateway refl,
          string_back 3 "netmask" refl refl h.netmask refl,
          string_back 4 "dns" refl refl h.dns refl,
          string_back 5 "broker_ip" refl refl h.broker_ip refl,
          string_back 6 "site_id" refl refl h.site_id refl,
          string_back 7 "topic_prefix" refl refl h.topic_prefix refl,
          string_fields,
        )
        refl

  flags_and_ports :
      (s.network.dhcp_enabled ≤ 1)
      × (s.broker.broker_enabled ≤ 1)
      × (s.broker.bridge_enabled ≤ 1)
      × (s.broker.mesh_enabled ≤ 1)
      × (0 < s.broker.mqtt_port)
      × (0 < s.broker.fallback_port)
      × (0 < s.broker.p2p_port)
      × (valid_network_mode s.network.mode ≡ true)
  unfolding validate_settings
  flags_and_ports =
      let valid = h.valid in
      (
        ground arith,
        ground arith,
        ground arith,
        ground arith,
        ground arith,
        ground arith,
        ground arith,
        ground arith,
      )

  number_fields_back : number_fields (config_text s) s ≡ (true, s)
  unfolding number_fields from_key equal
  number_fields_back =
      let (dhcp, broker, bridge, mesh, mqtt, fallback, p2p, mode) = flags_and_ports in
      rw
        (
          flag_back 9 "dhcp_enabled" refl refl refl dhcp,
          flag_back 10 "broker_enabled" refl refl refl broker,
          flag_back 11 "bridge_enabled" refl refl refl bridge,
          flag_back 12 "mesh_enabled" refl refl refl mesh,
          port_back 13 "mqtt_port" refl refl refl mqtt h.mqtt_port,
          port_back 14 "fallback_port" refl refl refl fallback h.fallback_port,
          port_back 15 "p2p_port" refl refl refl p2p h.p2p_port,
          number_fields,
        )
        refl

  mode_back :
      (json_get_string (config_text s) (codes "mode") (zeros 16) 16
        ≡ (ok, stored (network_mode_name s.network.mode) (zeros 16)))
  unfolding from_key equal
  mode_back = rw (config_text-object s) (
      object_text_read (codes "mode") (network_mode_name s.network.mode) (zeros 16) 16
        (config_fields s) _ (key_test-IsKey _ refl)
        (config_fields-IsReadable 8 (codes "mode") s refl refl h) refl (mode_text s.network.mode).0
        (mode_text s.network.mode).1)

  mode_seen : (b : Bytes) × (json_find_key (config_text s) (codes "mode") ≡ some b)
  unfolding from_key equal
  mode_seen = (
    _,
    ap (λ t. json_find_key t (codes "mode")) (config_text-object s)
        ∙ (object_found (codes "mode") (config_fields s) _ (key_test-IsKey _ refl)
            (config_fields-IsReadable 8 (codes "mode") s refl refl h) refl),
  )

  mode_field_back : mode_field (config_text s) s ≡ some (true, s)
  unfolding mode_field
  mode_field_back =
      let (found, at) = mode_seen in
      let (dhcp, broker, bridge, mesh, mqtt, fallback, p2p, mode) = flags_and_ports in
      let name = (mode_text s.network.mode).2 in
      let known = from_name-name s.network.mode mode in
      rw (mode_back, name, known, at, mode_field) refl

  read_settings_back : read_settings (config_text s) s ≡ some (true, s)
  read_settings_back =
      read_settings_of (config_text s) s string_fields_back mode_field_back number_fields_back

module _ {S : Type 0} (env : Platform S) where
  -- If the settings validate and show their texts as they are, and no text is the name of a key, then
  -- the text of GET /config, posted back, is taken, changes nothing, and asks for no reboot.
  pub apply_config_json-config_text :
      (c : Config S)
      → IsEchoed c.settings
      → apply_config_json env (config_text c.settings) c ≡ (ok, 0, c)
  unfolding apply_config_json commit_config get_settings
  apply_config_json-config_text c h =
      rw (read_settings_back c.settings h, apply_config_json)
        (rw (same_settings_refl c.settings, commit_config) refl)
