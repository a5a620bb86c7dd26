-- ===== src/Http/Numbers.antt =====
-- The numbers that the JSON readers take fit the types of their fields.
use mqtt_field_bridge_app.Base.{
  ℕ, ◌<◌, ◌≡◌, inl, inr, Option-cases, some, Bytes, ℤ, pos, negsuc, arith,
}
use mqtt_field_bridge_app.Console.{atoi, skip_spaces}
use mqtt_field_bridge_app.Http.Json.{
  json_find_key, behind_colon, port_value, json_get_u16, flag_value, read_boolish, json_get_boolish,
}
use mqtt_field_bridge_app.Http.Apply.{or_old}

port_value-bound : (i : ℤ) (n : ℕ) → port_value i ≡ some n → n < 65536
unfolding port_value
port_value-bound (negsuc m) n e = absurd cc
port_value-bound (pos m) n e = ground arith

pub or_port-bound :
    (json key : Bytes) (old : ℕ) → old < 65536 → or_old (json_get_u16 json key) old < 65536
unfolding json_get_u16
or_port-bound json key old h = elim (Option-cases (behind_colon (json_find_key json key))) [
  | inl e ↦ rw (e, json_get_u16) h
  | inr (p, e) ↦ elim (Option-cases (port_value (atoi p))) [
    | inl e' ↦ rw (e, e', json_get_u16) h
    | inr (n, e') ↦ rw (e, e', json_get_u16) (port_value-bound (atoi p) n e')
  ]
]

flag_value-bound : (i : ℤ) (n : ℕ) → flag_value i ≡ some n → n < 256
unfolding flag_value
flag_value-bound (negsuc m) n e = absurd cc
flag_value-bound (pos m) n e = ground arith

read_boolish-bound : (p : Bytes) (n : ℕ) → read_boolish p ≡ some n → n < 256
unfolding read_boolish
read_boolish-bound p n e = let value = flag_value-bound (atoi p) n in ground arith

pub or_flag-bound :
    (json key : Bytes) (old : ℕ) → old < 256 → or_old (json_get_boolish json key) old < 256
unfolding json_get_boolish
or_flag-bound json key old h = elim (Option-cases (behind_colon (json_find_key json key))) [
  | inl e ↦ rw (e, json_get_boolish) h
  | inr (p, e) ↦ elim (Option-cases (read_boolish (skip_spaces p))) [
    | inl e' ↦ rw (e, e', json_get_boolish) h
    | inr (n, e') ↦ rw (e, e', json_get_boolish) (read_boolish-bound (skip_spaces p) n e')
  ]
]
