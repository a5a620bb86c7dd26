-- ===== src/Http/ConfigObject.antt =====
-- config_text as a JSON object, and its keys.
use mqtt_field_bridge_app.Base.{
  ℕ, ◌≤◌, ◌≡◌, refl, inl, inr, Bool, true, false, not, ◌&&◌, some, List, [], ◌∷◌, Bytes, All, arith,
  ◌==◌, length, Bool-cases, cstr, IsTerminated, codes, equal, append_assoc, leb, All-get, get_elem?,
  String,
}
use mqtt_field_bridge_app.Config.{
  Settings, IsValid, network_mode_name, name_max, host_max, site_max, topic_max,
}
use mqtt_field_bridge_app.Runtime.{firmware_version, config_version}
use mqtt_field_bridge_app.Http.Builders.{config_text, broker_text}
use mqtt_field_bridge_app.Http.Segments.{IsUnquoted, quoted}
use mqtt_field_bridge_app.Http.Fields.{IsPlain, IsColonless}
use mqtt_field_bridge_app.Http.Objects.{
  Field, text, number, segments, object_text, IsKey, IsReadable,
}

abbrev pub config_fields : Settings → List Field
config_fields s =
    text (codes "device_name") (cstr s.system.device_name)
    ∷ text (codes "firmware_version") firmware_version
    ∷ number (codes "config_version") config_version
    ∷ text (codes "mode") (network_mode_name s.network.mode)
    ∷ text (codes "device_ip") (cstr s.network.device_ip)
    ∷ text (codes "gateway") (cstr s.network.gateway)
    ∷ text (codes "netmask") (cstr s.network.netmask)
    ∷ text (codes "dns") (cstr s.network.dns)
    ∷ number (codes "dhcp_enabled") s.network.dhcp_enabled
    ∷ text (codes "broker_ip") (cstr s.broker.broker_ip)
    ∷ text (codes "site_id") (cstr s.broker.site_id)
    ∷ text (codes "topic_prefix") (cstr s.broker.topic_prefix)
    ∷ number (codes "mqtt_port") s.broker.mqtt_port
    ∷ number (codes "fallback_port") s.broker.fallback_port
    ∷ number (codes "p2p_port") s.broker.p2p_port
    ∷ number (codes "broker_enabled") s.broker.broker_enabled
    ∷ number (codes "bridge_enabled") s.broker.bridge_enabled
    ∷ number (codes "mesh_enabled") s.broker.mesh_enabled
    ∷ []

pub config_text-object : (s : Settings) → config_text s ≡ object_text (config_fields s)
unfolding config_text broker_text segments quoted
config_text-object s = simp append_assoc

abbrev pub unquoted_test : Bytes → Bool
unquoted_test [] = true
unquoted_test (c ∷ s) = not (c == b'"') && unquoted_test s

abbrev pub colonless_test : Bytes → Bool
colonless_test [] = true
colonless_test (c ∷ s) = not (c == b':') && colonless_test s

unquoted_test-IsUnquoted : (s : Bytes) → unquoted_test s ≡ true → IsUnquoted s
unquoted_test-IsUnquoted [] h = tt
unquoted_test-IsUnquoted (c ∷ s) h = (ground arith, unquoted_test-IsUnquoted s (ground arith))

colonless_test-IsColonless : (s : Bytes) → colonless_test s ≡ true → IsColonless s
colonless_test-IsColonless [] h = tt
colonless_test-IsColonless (c ∷ s) h = (ground arith, colonless_test-IsColonless s (ground arith))

IsPlain-IsUnquoted : (s : Bytes) → IsPlain s → IsUnquoted s
IsPlain-IsUnquoted [] h = tt
IsPlain-IsUnquoted (c ∷ s) h = (h.0.0, IsPlain-IsUnquoted s h.1)

-- The keys that apply_config_json reads.
abbrev pub config_keys : List Bytes
config_keys =
    codes "device_name"
    ∷ codes "device_ip"
    ∷ codes "gateway"
    ∷ codes "netmask"
    ∷ codes "dns"
    ∷ codes "broker_ip"
    ∷ codes "site_id"
    ∷ codes "topic_prefix"
    ∷ codes "mode"
    ∷ codes "dhcp_enabled"
    ∷ codes "broker_enabled"
    ∷ codes "bridge_enabled"
    ∷ codes "mesh_enabled"
    ∷ codes "mqtt_port"
    ∷ codes "fallback_port"
    ∷ codes "p2p_port"
    ∷ []

-- An array whose text JSON shows as it is, and which no key is mistaken for.
pub record IsShown (size : ℕ) (a : Bytes) : Type 0 where
  pub terminated : IsTerminated size a
  pub plain : IsPlain (cstr a)
  pub no_key : All (λ key. equal (cstr a) key ≡ false) config_keys

-- Valid settings whose texts are shown as they are, and whose ports are those of a uint16_t.
pub record IsEchoed (s : Settings) : Type 0 where
  pub valid : IsValid s
  pub device_name : IsShown name_max s.system.device_name
  pub device_ip : IsShown host_max s.network.device_ip
  pub gateway : IsShown host_max s.network.gateway
  pub netmask : IsShown host_max s.network.netmask
  pub dns : IsShown host_max s.network.dns
  pub broker_ip : IsShown host_max s.broker.broker_ip
  pub site_id : IsShown site_max s.broker.site_id
  pub topic_prefix : IsShown topic_max s.broker.topic_prefix
  pub mqtt_port : s.broker.mqtt_port ≤ 65535
  pub fallback_port : s.broker.fallback_port ≤ 65535
  pub p2p_port : s.broker.p2p_port ≤ 65535

-- A key that is no fixed text of the object.
abbrev pub key_test : Bytes → Bool
key_test key =
    unquoted_test key
    && colonless_test key
    && leb (length key) 61
    && not (equal (codes ",") key)
    && not (equal (codes "}") key)
    && not (equal (codes "auto") key)
    && not (equal (codes "eth") key)
    && not (equal (codes "unknown") key)
    && not (equal firmware_version key)

no_colon : (key s : Bytes) → colonless_test key ≡ true → equal (b':' ∷ s) key ≡ false
unfolding equal
no_colon [] s h = refl
no_colon (c ∷ key) s h = ground arith

mode_not :
    (mode : ℕ) (key : Bytes) → key_test key ≡ true → equal (network_mode_name mode) key ≡ false
unfolding network_mode_name
mode_not mode key h = ground arith

pub key_test-IsKey : (key : Bytes) → key_test key ≡ true → IsKey key
key_test-IsKey key h = record {
  unquoted = unquoted_test-IsUnquoted key (ground arith);
  colonless = colonless_test-IsColonless key (ground arith);
  short = ground arith;
  no_colon = λ s. no_colon key s (ground arith);
  no_comma = ground arith;
  no_brace = ground arith;
}

mode-IsUnquoted : (mode : ℕ) → IsUnquoted (network_mode_name mode)
unfolding network_mode_name
mode-IsUnquoted mode = elim (Bool-cases (mode == 0)) [
  | inl e ↦ rw e (unquoted_test-IsUnquoted (codes "auto") refl)
  | inr e ↦ elim (Bool-cases (mode == 1)) [
    | inl e' ↦ rw (e, e') (unquoted_test-IsUnquoted (codes "eth") refl)
    | inr e' ↦ rw (e, e') (unquoted_test-IsUnquoted (codes "unknown") refl)
  ]
]

literal : (word : String) → unquoted_test (codes word) ≡ true → IsUnquoted (codes word)
literal word = unquoted_test-IsUnquoted (codes word)

shown :
    (i size : ℕ) (key : Bytes) (word : String) {a : Bytes}
    → get_elem? config_keys i ≡ some key
    → unquoted_test (codes word) ≡ true
    → IsShown size a
    → IsReadable key (text (codes word) (cstr a))
shown i size key word {a} e n h = (
  literal word n,
  IsPlain-IsUnquoted (cstr a) h.plain,
  All-get (λ k. equal (cstr a) k ≡ false) config_keys i e h.no_key,
)

-- A proof for each field in turn.
infixr 3 ◌then_all◌
abbrev ◌then_all◌ {ℓ κ} : {A : Type ℓ} {B : Type κ} → A → B → A × B
a then_all b = (a, b)

-- Each key that is read is found where its field is.
pub config_fields-IsReadable :
    (i : ℕ) (key : Bytes) (s : Settings)
    → get_elem? config_keys i ≡ some key
    → key_test key ≡ true
    → IsEchoed s
    → All (IsReadable key) (config_fields s)
config_fields-IsReadable i key s e t h =
    shown i name_max key "device_name" e refl h.device_name
    then_all (
      literal "firmware_version" refl,
      unquoted_test-IsUnquoted firmware_version refl,
      ground arith,
    )
    then_all literal "config_version" refl
    then_all (literal "mode" refl, mode-IsUnquoted s.network.mode, mode_not s.network.mode key t)
    then_all shown i host_max key "device_ip" e refl h.device_ip
    then_all shown i host_max key "gateway" e refl h.gateway
    then_all shown i host_max key "netmask" e refl h.netmask
    then_all shown i host_max key "dns" e refl h.dns
    then_all literal "dhcp_enabled" refl
    then_all shown i host_max key "broker_ip" e refl h.broker_ip
    then_all shown i site_max key "site_id" e refl h.site_id
    then_all shown i topic_max key "topic_prefix" e refl h.topic_prefix
    then_all literal "mqtt_port" refl
    then_all literal "fallback_port" refl
    then_all literal "p2p_port" refl
    then_all literal "broker_enabled" refl
    then_all literal "bridge_enabled" refl
    then_all literal "mesh_enabled" refl
    then_all tt
