-- ===== src/Http/Objects.antt =====
-- A JSON object as a list of fields, and where a key is found in its text.
use mqtt_field_bridge_app.Base.{
  ℕ, ◌<◌, ◌≤◌, ◌≡◌, ◌∙◌, refl, ap, inl, inr, true, false, Option, none, some, List, [], ◌∷◌, ◌++◌,
  Bytes, ok, All, arith, ◌==◌, length, if◌then◌else◌, Bool-cases, cstr, IsTerminated, codes, equal,
  append_assoc,
}
use mqtt_field_bridge_app.Console.{is_digit, decimal, IsDigits, decimal-IsDigits}
use mqtt_field_bridge_app.Http.Json.{
  stored, json_find_key, json_get_string, json_get_u16, json_get_boolish,
}
use mqtt_field_bridge_app.Http.Segments.{IsUnquoted, quoted, find_segment, json_find_key-quoted}
use mqtt_field_bridge_app.Http.Fields.{
  IsPlain, IsColonless, json_get_string-field, json_get_string-text, json_get_u16-field,
  json_get_boolish-field,
}

pub data Field : Type 0 where
  text : Bytes → Bytes → Field
  number : Bytes → ℕ → Field

abbrev pub name_of : Field → Bytes
name_of (text key v) = key
name_of (number key n) = key

-- What stands behind a field.
abbrev closing : List Field → Bytes
closing [] = codes "}"
closing (f ∷ fs) = codes ","

-- The texts between the quotes of an object, from the first key on.
unfoldable pub segments : List Field → List Bytes
segments [] = []
segments (text key v ∷ fs) = key ∷ (codes ":" ∷ (v ∷ (closing fs ∷ segments fs)))
segments (number key n ∷ fs) = key ∷ ((b':' ∷ (decimal n ++ closing fs)) ∷ segments fs)

abbrev pub object_text : List Field → Bytes
object_text fs = quoted (codes "{" ∷ segments fs)

-- The fields from the one of that key on.
unfoldable pub from_key : Bytes → List Field → Option (List Field)
from_key key [] = none
from_key key (f ∷ fs) =
    let rest = from_key key fs in if equal (name_of f) key then some (f ∷ fs) else rest

-- A key that is none of the texts that JSON puts between two quotes.
pub record IsKey (key : Bytes) : Type 0 where
  pub unquoted : IsUnquoted key
  pub colonless : IsColonless key
  pub short : length key ≤ 61
  pub no_colon : (s : Bytes) → equal (b':' ∷ s) key ≡ false
  pub no_comma : equal (codes ",") key ≡ false
  pub no_brace : equal (codes "}") key ≡ false

-- Keys and values without quotes, and no value that is this key.
abbrev pub IsReadable : Bytes → Field → Type 0
IsReadable key (text k v) = IsUnquoted k × IsUnquoted v × (equal v key ≡ false)
IsReadable key (number k n) = IsUnquoted k

skip_segment :
    (key v : Bytes) (us : List Bytes)
    → equal v key ≡ false
    → find_segment key (v ∷ us) ≡ find_segment key us
unfolding find_segment
skip_segment key v [] h = refl
skip_segment key v (w ∷ us) h = rw h

closing_not : (key : Bytes) (fs : List Field) → IsKey key → equal (closing fs) key ≡ false
closing_not key [] h = h.no_brace
closing_not key (f ∷ fs) h = h.no_comma

behind_name :
    (key : Bytes) (fs : List Field) (f : Field)
    → IsKey key
    → IsReadable key f
    → equal (name_of f) key ≡ false
    → find_segment key (segments (f ∷ fs)) ≡ find_segment key (segments fs)
unfolding segments
behind_name key fs (text k v) isk r e =
    skip_segment key k _ e
    ∙ skip_segment key (codes ":") _ (isk.no_colon [])
    ∙ skip_segment key v _ r.2
    ∙ skip_segment key (closing fs) _ (closing_not key fs isk)
behind_name key fs (number k n) isk r e =
    skip_segment key k _ e ∙ skip_segment key (b':' ∷ (decimal n ++ closing fs)) _ (isk.no_colon _)

quote_before : Option (List Field) → Option Bytes
quote_before none = none
quote_before (some fs) = some (b'"' ∷ quoted (segments fs))

at_name :
    (key : Bytes) (fs : List Field) (f : Field)
    → equal (name_of f) key ≡ true
    → find_segment key (segments (f ∷ fs)) ≡ some (b'"' ∷ quoted (segments (f ∷ fs)))
unfolding segments find_segment
at_name key fs (text k v) e = rw e
at_name key fs (number k n) e = rw e

find_segment-segments :
    (key : Bytes) (fs : List Field)
    → IsKey key
    → All (IsReadable key) fs
    → find_segment key (segments fs) ≡ quote_before (from_key key fs)
unfolding quote_before from_key
find_segment-segments key [] isk h = unfold find_segment segments in refl
find_segment-segments key (f ∷ fs) isk h = elim (Bool-cases (equal (name_of f) key)) [
  | inl e ↦ rw e (at_name key fs f e)
  | inr e ↦ rw e (behind_name key fs f isk h.0 e ∙ find_segment-segments key fs isk h.1)
]

digit_unquoted : (c : ℕ) → 48 ≤ c → c ≤ 57 → (c == b'"') ≡ false
digit_unquoted c low high = ground arith

IsDigits-IsUnquoted : (s t : Bytes) → IsDigits s → IsUnquoted t → IsUnquoted (s ++ t)
IsDigits-IsUnquoted [] t h ht = ht
IsDigits-IsUnquoted (c ∷ s) t h ht = (digit_unquoted c h.0.0 h.0.1, IsDigits-IsUnquoted s t h.1 ht)

closing-IsUnquoted : (fs : List Field) → IsUnquoted (closing fs)
closing-IsUnquoted [] = (refl, tt)
closing-IsUnquoted (f ∷ fs) = (refl, tt)

segments-IsUnquoted :
    (key : Bytes) (fs : List Field) → All (IsReadable key) fs → All IsUnquoted (segments fs)
unfolding segments
segments-IsUnquoted key [] h = tt
segments-IsUnquoted key (text k v ∷ fs) h =
    (h.0.0, ((refl, tt), (h.0.1, (closing-IsUnquoted fs, segments-IsUnquoted key fs h.1))))
segments-IsUnquoted key (number k n ∷ fs) h = (
  h.0,
  (
    (
      refl,
      IsDigits-IsUnquoted (decimal n) (closing fs) (decimal-IsDigits n) (closing-IsUnquoted fs),
    ),
    segments-IsUnquoted key fs h.1,
  ),
)

-- The key of a field is found in front of the field.
pub object_found :
    (key : Bytes) (fs : List Field) (gs : List Field)
    → IsKey key
    → All (IsReadable key) fs
    → from_key key fs ≡ some gs
    → json_find_key (object_text fs) key ≡ some (b'"' ∷ quoted (segments gs))
unfolding quote_before
object_found key fs gs isk h e =
    json_find_key-quoted key (codes "{") (segments fs) isk.short isk.unquoted
      ((refl, tt), segments-IsUnquoted key fs h)
    ∙ find_segment-segments key fs isk h
    ∙ rw (e, quote_before) refl

pub object_string :
    (key out : Bytes) (cap : ℕ) (fs gs : List Field)
    → IsKey key
    → All (IsReadable key) fs
    → from_key key fs ≡ some (text key (cstr out) ∷ gs)
    → IsPlain (cstr out)
    → IsTerminated cap out
    → json_get_string (object_text fs) key out cap ≡ (ok, out)
unfolding segments quoted
object_string key out cap fs gs isk h e plain t =
    json_get_string-field (object_text fs) key out (quoted (closing gs ∷ segments gs)) cap
      (object_found key fs _ isk h e) isk.colonless plain t

pub object_text_read :
    (key v out : Bytes) (cap : ℕ) (fs gs : List Field)
    → IsKey key
    → All (IsReadable key) fs
    → from_key key fs ≡ some (text key v ∷ gs)
    → IsPlain v
    → length v < cap
    → json_get_string (object_text fs) key out cap ≡ (ok, stored v out)
unfolding segments quoted
object_text_read key v out cap fs gs isk h e plain short =
    json_get_string-text (object_text fs) key v out (quoted (closing gs ∷ segments gs)) cap
      (object_found key fs _ isk h e) isk.colonless plain short

-- What follows the digits of a number.
abbrev behind : List Field → Bytes
behind [] = []
behind (f ∷ fs) = b'"' ∷ quoted (segments (f ∷ fs))

abbrev stop_of : List Field → ℕ
stop_of [] = b'}'
stop_of (f ∷ fs) = b','

number_text :
    (key : Bytes) (n : ℕ) (gs : List Field)
    → b'"' ∷ quoted (segments (number key n ∷ gs))
      ≡ b'"' ∷ (key ++ b'"' ∷ (b':' ∷ (decimal n ++ stop_of gs ∷ behind gs)))
unfolding segments quoted
number_text key n [] = refl
number_text key n (text k v ∷ gs) = rw (append_assoc (decimal n) (codes ",") _)
number_text key n (number k v ∷ gs) = rw (append_assoc (decimal n) (codes ",") _)

stop_no_digit : (gs : List Field) → is_digit (stop_of gs) ≡ false
stop_no_digit [] = refl
stop_no_digit (f ∷ gs) = refl

pub object_port :
    (key : Bytes) (n : ℕ) (fs gs : List Field)
    → IsKey key
    → All (IsReadable key) fs
    → from_key key fs ≡ some (number key n ∷ gs)
    → 0 < n
    → n ≤ 65535
    → json_get_u16 (object_text fs) key ≡ some n
object_port key n fs gs isk h e low high =
    json_get_u16-field (object_text fs) key (behind gs) n (stop_of gs)
      (object_found key fs _ isk h e ∙ ap (λ t. some t) (number_text key n gs)) isk.colonless
      (stop_no_digit gs) low high

pub object_flag :
    (key : Bytes) (n : ℕ) (fs gs : List Field)
    → IsKey key
    → All (IsReadable key) fs
    → from_key key fs ≡ some (number key n ∷ gs)
    → n ≤ 1
    → json_get_boolish (object_text fs) key ≡ some n
object_flag key n fs gs isk h e high =
    json_get_boolish-field (object_text fs) key (behind gs) n (stop_of gs)
      (object_found key fs _ isk h e ∙ ap (λ t. some t) (number_text key n gs)) isk.colonless
      (stop_no_digit gs) high
