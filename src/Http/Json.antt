-- ===== src/Http/Json.antt =====
-- The JSON readers of provisioning_http.c. A pointer into a text is what stands behind it.
use mqtt_field_bridge_app.Base.{
  ℕ, zero, suc, ◌-◌, Bool, false, ◌||◌, Option, none, some, [], ◌∷◌, ◌++◌, Bytes, ℤ, pos, negsuc,
  Rc, ok, fail, ltb, ◌==◌, if◌then◌else◌, codes, length, take, drop,
}
use mqtt_field_bridge_app.Console.{atoi, skip_spaces}
use mqtt_field_bridge_app.Topics.{strncmp_eq}

-- strstr(s, needle)
unfoldable pub strstr : Bytes → Bytes → Option Bytes
strstr [] needle = if strncmp_eq [] needle (length needle) then some [] else none
strstr (c ∷ s) needle =
    let rest = strstr s needle in
    if strncmp_eq (c ∷ s) needle (length needle) then some (c ∷ s) else rest

-- strchr(s, c), for c other than 0
unfoldable pub find_char : Bytes → ℕ → Option Bytes
find_char [] c = none
find_char (x ∷ s) c = let rest = find_char s c in if x == c then some (x ∷ s) else rest

unfoldable pub json_find_key : Bytes → Bytes → Option Bytes
json_find_key json key = strstr json (take 63 (b'"' ∷ (key ++ b'"' ∷ [])))

-- The loop of json_get_string with room for `room` more characters: the characters that are stored,
-- and where it stops. A backslash is left out unless it is the last character.
unfoldable pub scan : Bytes → ℕ → Bytes × Bytes
scan s zero = ([], s)
scan [] (suc room) = ([], [])
scan (c ∷ []) (suc room) = if c == b'"' then ([], c ∷ []) else (c ∷ [], [])
scan (c ∷ (d ∷ s)) (suc room) =
    let (plain, plain_end) = scan (d ∷ s) room in
    let (escaped, escaped_end) = scan s room in
    if c == b'"'
    then ([], c ∷ (d ∷ s))
    else if c == b'\\'
    then (d ∷ escaped, escaped_end)
    else (c ∷ plain, plain_end)

-- What stands behind the first colon from here on.
unfoldable pub behind_colon : Option Bytes → Option Bytes
behind_colon none = none
behind_colon (some p) = elim (find_char p b':') [
  | none ↦ none
  | some [] ↦ none
  | some (c ∷ rest) ↦ some rest
]

-- The characters and a terminator, stored at the front of an array.
abbrev pub stored : Bytes → Bytes → Bytes
stored chars out = chars ++ (0 ∷ drop (suc (length chars)) out)

unfoldable pub starts_quote : Bytes → Bool
starts_quote [] = false
starts_quote (c ∷ s) = c == b'"'

-- json_get_string from the opening quote. The array is written also where the closing one is missing.
unfoldable pub read_string : Bytes → Bytes → ℕ → Rc × Bytes
read_string [] out cap = (fail, out)
read_string (c ∷ s) out cap =
    let (chars, rest) = scan s (cap - 1) in
    if c == b'"' then (if starts_quote rest then ok else fail, stored chars out) else (fail, out)

-- The result and the array. The callers give a capacity above 0.
unfoldable pub json_get_string : Bytes → Bytes → Bytes → ℕ → Rc × Bytes
json_get_string json key out cap = elim (behind_colon (json_find_key json key)) [
  | none ↦ (fail, out)
  | some p ↦ if cap == 0 then (fail, out) else read_string (skip_spaces p) out cap
]

-- A number of `long` that overflows is its greatest or its least value, which is refused as well.
unfoldable pub port_value : ℤ → Option ℕ
port_value (negsuc n) = none
port_value (pos n) = if n == 0 || ltb 65535 n then none else some n

-- `none` is -1, and the variable keeps its value.
unfoldable pub json_get_u16 : Bytes → Bytes → Option ℕ
json_get_u16 json key = elim (behind_colon (json_find_key json key)) [
  | none ↦ none
  | some p ↦ port_value (atoi p)
]

unfoldable pub flag_value : ℤ → Option ℕ
flag_value (negsuc n) = none
flag_value (pos n) = if ltb 1 n then none else some n

unfoldable pub read_boolish : Bytes → Option ℕ
read_boolish p =
    if strncmp_eq p (codes "true") 4
    then some 1
    else if strncmp_eq p (codes "false") 5
    then some 0
    else flag_value (atoi p)

unfoldable pub json_get_boolish : Bytes → Bytes → Option ℕ
json_get_boolish json key = elim (behind_colon (json_find_key json key)) [
  | none ↦ none
  | some p ↦ read_boolish (skip_spaces p)
]

unfoldable pub copy_if_present : Bytes → ℕ → Bytes → Bytes → Bytes
copy_if_present dst cap json key = (json_get_string json key dst cap).1
