-- ===== src/Http/Strings.antt =====
-- Strings of JSON: scan, read_string and json_get_string.
use mqtt_field_bridge_app.Base.{
  ℕ, zero, suc, ◌-◌, ◌<◌, ◌≤◌, ◌≡◌, refl, inl, inr, false, ◌||◌, [], ◌∷◌, ◌++◌, Bytes, ok, arith,
  ◌==◌, length, drop, if◌then◌else◌, Bool-cases, Option-cases, length-append, length-drop,
  IsTerminated, length-cstr-append-le,
}
use mqtt_field_bridge_app.Console.{skip_spaces}
use mqtt_field_bridge_app.Http.Json.{
  scan, stored, starts_quote, read_string, behind_colon, json_find_key, json_get_string,
}

-- A backslash in front of each quote and each backslash.
unfoldable pub escape : Bytes → Bytes
escape [] = []
escape (c ∷ s) =
    let rest = escape s in if c == b'"' || c == b'\\' then b'\\' ∷ (c ∷ rest) else c ∷ rest

scan_plain :
    (c : ℕ) (s : Bytes) (room : ℕ)
    → (c == b'"') ≡ false
    → (c == b'\\') ≡ false
    → scan (c ∷ s) (suc room) ≡ (c ∷ (scan s room).0, (scan s room).1)
unfolding scan
scan_plain c [] zero e e' = rw e
scan_plain c [] (suc room) e e' = rw e
scan_plain c (d ∷ s) room e e' = rw (e, e')

scan_escaped :
    (d : ℕ) (s : Bytes) (room : ℕ)
    → scan (b'\\' ∷ (d ∷ s)) (suc room) ≡ (d ∷ (scan s room).0, (scan s room).1)
unfolding scan
scan_escaped d s room = refl

scan_end : (t : Bytes) (room : ℕ) → scan (b'"' ∷ t) room ≡ ([], b'"' ∷ t)
unfolding scan
scan_end t zero = refl
scan_end [] (suc room) = refl
scan_end (d ∷ t) (suc room) = refl

scan-escape :
    (v t : Bytes) (room : ℕ) → length v ≤ room → scan (escape v ++ b'"' ∷ t) room ≡ (v, b'"' ∷ t)
unfolding escape
scan-escape [] t room h = scan_end t room
scan-escape (c ∷ v) t zero h = absurd (omega arith)
scan-escape (c ∷ v) t (suc room) h = elim (Bool-cases (c == b'"')) [
  | inl e ↦ rw (e, scan_escaped c (escape v ++ b'"' ∷ t) room, scan-escape v t room (omega arith))
  | inr e ↦ elim (Bool-cases (c == b'\\')) [
    | inl e' ↦
        rw (e, e', scan_escaped c (escape v ++ b'"' ∷ t) room, scan-escape v t room (omega arith))
    | inr e' ↦
        rw
          (e, e', scan_plain c (escape v ++ b'"' ∷ t) room e e', scan-escape v t room (omega arith))
  ]
]

-- An escaped text in quotes that fits the array is read as the text, whatever follows it.
pub read_string-escape :
    (v t out : Bytes) (cap : ℕ)
    → length v < cap
    → read_string (b'"' ∷ (escape v ++ b'"' ∷ t)) out cap ≡ (ok, stored v out)
unfolding read_string starts_quote
read_string-escape v t out cap h = rw (scan-escape v t (cap - 1) (omega arith))

length-scan : (s : Bytes) (room : ℕ) → length (scan s room).0 ≤ room
unfolding scan
length-scan s zero = omega arith
length-scan [] (suc room) = omega arith
length-scan (c ∷ []) (suc room) = ground arith
length-scan (c ∷ (d ∷ s)) (suc room) = ground (arith, length-scan (d ∷ s) room, length-scan s room)

stored-IsTerminated :
    (chars out : Bytes) (cap : ℕ)
    → length chars < cap
    → length out ≡ cap
    → IsTerminated cap (stored chars out)
stored-IsTerminated chars out cap short size =
    let rest = drop (suc (length chars)) out in
    (
      omega (arith, length-append chars (0 ∷ rest), length-drop (suc (length chars)) out),
      omega (arith, length-cstr-append-le chars rest),
    )

read_string-IsTerminated :
    (s out : Bytes) (cap : ℕ)
    → 0 < cap
    → IsTerminated cap out
    → IsTerminated cap (read_string s out cap).1
unfolding read_string
read_string-IsTerminated [] out cap h t = t
read_string-IsTerminated (c ∷ s) out cap h t = elim (Bool-cases (c == b'"')) [
  | inl e ↦ rw e (
      stored-IsTerminated (scan s (cap - 1)).0 out cap (omega (arith, length-scan s (cap - 1))) t.0)
  | inr e ↦ rw e t
]

-- Whatever the text, json_get_string leaves an array of the same size with a terminator in it.
pub json_get_string-IsTerminated :
    (json key out : Bytes) (cap : ℕ)
    → 0 < cap
    → IsTerminated cap out
    → IsTerminated cap (json_get_string json key out cap).1
unfolding json_get_string
json_get_string-IsTerminated json key out cap h t =
    elim (Option-cases (behind_colon (json_find_key json key))) [
      | inl e ↦ rw (e, json_get_string) t
      | inr (p, e) ↦
          let some_room : (cap == 0) ≡ false = ground arith in
          rw (e, some_room, json_get_string) (read_string-IsTerminated (skip_spaces p) out cap h t)
    ]
