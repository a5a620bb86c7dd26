-- ===== src/Tests/Pages.antt =====
-- Tests of the JSON of the servers.
use mqtt_field_bridge_app.Base.{
  fail, ℕ, ◌≡◌, refl, true, false, Bool, not, ◌&&◌, some, none, List, [], ◌∷◌, ◌++◌, Bytes, ok, All,
  arith, ◌==◌, codes, cstr, zeros, equal, IsTerminated,
}
use mqtt_field_bridge_app.Config.{
  Settings, network_mode_name, validate_settings, init, init-IsWellFormed, IsSized,
}
use mqtt_field_bridge_app.Runtime.{P2p, runtime_init}
use mqtt_field_bridge_app.Console.{
  atoi, skip_spaces, is_space, signed_value, digits_value, decimal, decimal_from, clamped,
}
use mqtt_field_bridge_app.Topics.{strncmp_eq}
use mqtt_field_bridge_app.Http.{
  json_get_boolish, json_find_key, strstr, find_char, behind_colon, read_boolish, flag_value,
  broker_text, scan, starts_quote, Server, apply_config_json, config_text, IsShown, IsEchoed,
  config_keys, IsPlain, apply_config_json-config_text, read_string, json_get_string,
  build_peers_json, peer_texts, fitted, build_peers_json-whole,
}
use mqtt_field_bridge_app.Bridge.Seeds.{Seed}
use mqtt_field_bridge_app.Samples.{Memory, memory, blank, site_b}

abbrev plain_test : Bytes → Bool
plain_test [] = true
plain_test (c ∷ s) = not (c == b'"') && not (c == b'\\') && plain_test s

plain_test-IsPlain : (s : Bytes) → plain_test s ≡ true → IsPlain s
plain_test-IsPlain [] h = tt
plain_test-IsPlain (c ∷ s) h = ((ground arith, ground arith), plain_test-IsPlain s (ground arith))

abbrev no_key_test : Bytes → List Bytes → Bool
no_key_test s [] = true
no_key_test s (key ∷ keys) = not (equal s key) && no_key_test s keys

no_key_of :
    (s : Bytes) (keys : List Bytes)
    → no_key_test s keys ≡ true
    → All (λ key. equal s key ≡ false) keys
no_key_of s [] h = tt
no_key_of s (key ∷ keys) h = (ground arith, no_key_of s keys (ground arith))

shown :
    (size : ℕ) (a : Bytes)
    → IsTerminated size a
    → plain_test (cstr a) && no_key_test (cstr a) config_keys ≡ true
    → IsShown size a
shown size a terminated h = record {
  terminated = terminated;
  plain = plain_test-IsPlain (cstr a) (ground arith);
  no_key = no_key_of (cstr a) config_keys (ground arith);
}

site_b-IsEchoed : IsEchoed site_b
unfolding validate_settings cstr equal
site_b-IsEchoed = record {
  valid = refl;
  device_name = shown _ _ (refl, omega arith) refl;
  device_ip = shown _ _ (refl, omega arith) refl;
  gateway = shown _ _ (refl, omega arith) refl;
  netmask = shown _ _ (refl, omega arith) refl;
  dns = shown _ _ (refl, omega arith) refl;
  broker_ip = shown _ _ (refl, omega arith) refl;
  site_id = shown _ _ (refl, omega arith) refl;
  topic_prefix = shown _ _ (refl, omega arith) refl;
  mqtt_port = omega arith;
  fallback_port = omega arith;
  p2p_port = omega arith;
}

apply_config_json-config_text_example :
    apply_config_json memory (config_text site_b) (record blank { settings = site_b })
    ≡ (ok, 0, record blank { settings = site_b })
apply_config_json-config_text_example =
    apply_config_json-config_text memory (record blank { settings = site_b }) site_b-IsEchoed

abbrev no_mesh : P2p
no_mesh = record { peer_snapshot = []; remote_subs = none; inet_pton = λ s. none }

build_peers_json-whole_example :
    build_peers_json memory no_mesh (init memory blank) 2304
    ≡ fitted 2304 ((codes "[" ++ peer_texts 0 (init memory blank).peers) ++ codes "]")
build_peers_json-whole_example =
    build_peers_json-whole memory no_mesh (init memory blank) 2304 (init-IsWellFormed memory blank)

pub site_b-IsSized : IsSized site_b
unfolding cstr
site_b-IsSized = record {
  device_name = (refl, omega arith);
  device_ip = (refl, omega arith);
  gateway = (refl, omega arith);
  netmask = (refl, omega arith);
  dns = (refl, omega arith);
  broker_ip = (refl, omega arith);
  site_id = (refl, omega arith);
  topic_prefix = (refl, omega arith);
  dhcp_enabled = omega arith;
  mqtt_port = omega arith;
  p2p_port = omega arith;
  fallback_port = omega arith;
  broker_enabled = omega arith;
  bridge_enabled = omega arith;
  mesh_enabled = omega arith;
}

abbrev server : Server Memory (List Seed)
server = record {
  config = record blank { settings = site_b };
  runtime = runtime_init;
  table = [];
  reboots = 0;
}

-- A device that is named like a key: its name is found in place of the key.
abbrev misnamed : Settings
misnamed = record site_b {
  system = record { device_name = codes "dhcp_enabled" ++ zeros 20 };
  network = record site_b.network { dhcp_enabled = 1 };
}

misnamed_read : json_get_boolish (config_text misnamed) (codes "dhcp_enabled") ≡ some 0
unfolding json_get_boolish json_find_key strstr strncmp_eq find_char behind_colon read_boolish
    flag_value atoi skip_spaces is_space signed_value clamped digits_value config_text broker_text
    cstr decimal decimal_from network_mode_name
misnamed_read = refl

-- A string that is too long is refused, and stored as far as it fits.
too_long :
    json_get_string (codes "{\"name\":\"abcdef\"}") (codes "name") (zeros 4) 4
    ≡ (fail, codes "abc" ++ 0 ∷ [])
unfolding json_get_string json_find_key strstr strncmp_eq find_char behind_colon skip_spaces
    is_space read_string scan starts_quote
too_long = refl

-- A word that is neither true nor false is read as 0.
word_read : json_get_boolish (codes "{\"enabled\":yes}") (codes "enabled") ≡ some 0
unfolding json_get_boolish json_find_key strstr strncmp_eq find_char behind_colon read_boolish
    flag_value atoi skip_spaces is_space signed_value clamped digits_value
word_read = refl
