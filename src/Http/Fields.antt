-- ===== src/Http/Fields.antt =====
-- What the readers make of a field that was found: a text, or a number, behind its key.
use mqtt_field_bridge_app.Base.{
  ℕ, zero, suc, ◌<◌, ◌≤◌, ◌≡◌, ◌∙◌, refl, ap, inl, inr, false, some, [], ◌∷◌, ◌++◌, Bytes, ok, All,
  arith, ◌==◌, length, Bool-cases, cstr, IsTerminated,
}
use mqtt_field_bridge_app.Console.{
  skip_spaces, is_space, is_digit, decimal, decimal_from, atoi-decimal_before,
}
use mqtt_field_bridge_app.Topics.{strncmp_eq}
use mqtt_field_bridge_app.Http.Json.{
  json_find_key, find_char, behind_colon, stored, json_get_string, json_get_u16, json_get_boolish,
  port_value, flag_value, read_boolish,
}
use mqtt_field_bridge_app.Http.Strings.{escape, read_string-escape}

-- No quote and no backslash.
abbrev pub IsPlain : Bytes → Type 0
IsPlain = All (λ c. ((c == b'"') ≡ false) × ((c == b'\\') ≡ false))

abbrev pub IsColonless : Bytes → Type 0
IsColonless = All (λ c. (c == b':') ≡ false)

escape_plain : (v : Bytes) → IsPlain v → escape v ≡ v
unfolding escape
escape_plain [] h = refl
escape_plain (c ∷ v) h = rw (h.0.0, h.0.1, escape_plain v h.1)

-- The text of an array, stored over it, changes nothing.
stored-cstr : (out : Bytes) → length (cstr out) < length out → stored (cstr out) out ≡ out
unfolding cstr
stored-cstr [] h = absurd (omega arith)
stored-cstr (c ∷ out) h = elim (Bool-cases (c == 0)) [
  | inl e ↦ let zero_byte : c ≡ 0 = ground arith in rw (e, zero_byte)
  | inr e ↦ rw e (ap (λ r. c ∷ r) (stored-cstr out (ground arith)))
]

-- The text of a key with its quotes, a colon and what follows it.
abbrev pub field : Bytes → Bytes → Bytes
field key rest = b'"' ∷ (key ++ b'"' ∷ (b':' ∷ rest))

find_char-field :
    (key rest : Bytes)
    → IsColonless key
    → find_char (key ++ b'"' ∷ (b':' ∷ rest)) b':' ≡ some (b':' ∷ rest)
unfolding find_char
find_char-field [] rest h = refl
find_char-field (c ∷ key) rest h = rw h.0 (find_char-field key rest h.1)

behind_colon-field :
    (key rest : Bytes) → IsColonless key → behind_colon (some (field key rest)) ≡ some rest
unfolding behind_colon find_char
behind_colon-field key rest h = rw (find_char-field key rest h, behind_colon)

pub json_get_string-text :
    (json key v out t : Bytes) (cap : ℕ)
    → json_find_key json key ≡ some (field key (b'"' ∷ (v ++ b'"' ∷ t)))
    → IsColonless key
    → IsPlain v
    → length v < cap
    → json_get_string json key out cap ≡ (ok, stored v out)
unfolding json_get_string skip_spaces is_space
json_get_string-text json key v out t cap found colonless plain short =
    let some_room : (cap == 0) ≡ false = ground arith in
    let read = read_string-escape v t out cap short in
    let same = escape_plain v plain in
    rw
      (found, behind_colon-field key (b'"' ∷ (v ++ b'"' ∷ t)) colonless, some_room, json_get_string)
      (rw same at read)

-- The text of an array, read back into the array.
pub json_get_string-field :
    (json key out t : Bytes) (cap : ℕ)
    → json_find_key json key ≡ some (field key (b'"' ∷ (cstr out ++ b'"' ∷ t)))
    → IsColonless key
    → IsPlain (cstr out)
    → IsTerminated cap out
    → json_get_string json key out cap ≡ (ok, out)
json_get_string-field json key out t cap found colonless plain (size, short) =
    json_get_string-text json key (cstr out) out t cap found colonless plain short
    ∙ ap (λ a. (ok, a)) (stored-cstr out (omega (arith, size, short)))

pub json_get_u16-field :
    (json key t : Bytes) (n c : ℕ)
    → json_find_key json key ≡ some (field key (decimal n ++ c ∷ t))
    → IsColonless key
    → is_digit c ≡ false
    → 0 < n
    → n ≤ 65535
    → json_get_u16 json key ≡ some n
unfolding json_get_u16 port_value
json_get_u16-field json key t n c found colonless stop low high =
    rw
      (
        found,
        behind_colon-field key (decimal n ++ c ∷ t) colonless,
        atoi-decimal_before n c t stop (omega (arith, high)),
        json_get_u16,
      )
      (ground arith)

read_flag :
    (n c : ℕ) (t : Bytes)
    → is_digit c ≡ false
    → n ≤ 1
    → read_boolish (skip_spaces (decimal n ++ c ∷ t)) ≡ some n
unfolding read_boolish skip_spaces is_space strncmp_eq decimal decimal_from flag_value
read_flag zero c t stop h = rw (atoi-decimal_before zero c t stop (omega arith), read_boolish) refl
read_flag (suc zero) c t stop h =
    rw (atoi-decimal_before (suc zero) c t stop (omega arith), read_boolish) refl
read_flag (suc (suc n)) c t stop h = absurd (omega arith)

pub json_get_boolish-field :
    (json key t : Bytes) (n c : ℕ)
    → json_find_key json key ≡ some (field key (decimal n ++ c ∷ t))
    → IsColonless key
    → is_digit c ≡ false
    → n ≤ 1
    → json_get_boolish json key ≡ some n
unfolding json_get_boolish
json_get_boolish-field json key t n c found colonless stop high =
    rw (found, behind_colon-field key (decimal n ++ c ∷ t) colonless, json_get_boolish)
      (read_flag n c t stop high)
