-- ===== src/Http/Segments.antt =====
-- json_find_key, on a text as the segments between its quotes.
use mqtt_field_bridge_app.Base.{
  ◌≤◌, ◌≡◌, ◌∙◌, refl, ap, false, Option, none, some, List, [], ◌∷◌, ◌++◌, Bytes, All, arith, ◌==◌,
  equal, length, take, if◌then◌else◌, take-eq_self, length-append,
}
use mqtt_field_bridge_app.Topics.{strncmp_eq}
use mqtt_field_bridge_app.Http.Json.{strstr, json_find_key}

-- No quote.
abbrev pub IsUnquoted : Bytes → Type 0
IsUnquoted = All (λ c. (c == b'"') ≡ false)

-- Texts with a quote between each two.
unfoldable pub quoted : List Bytes → Bytes
quoted [] = []
quoted (u ∷ []) = u
quoted (u ∷ (v ∷ us)) = u ++ b'"' ∷ quoted (v ∷ us)

-- From the quote in front of the texts: the first of them that is the key, and has a quote behind it.
unfoldable pub find_segment : Bytes → List Bytes → Option Bytes
find_segment key [] = none
find_segment key (v ∷ []) = none
find_segment key (v ∷ (w ∷ us)) =
    let rest = find_segment key (w ∷ us) in
    if equal v key then some (b'"' ∷ quoted (v ∷ (w ∷ us))) else rest

abbrev needle : Bytes → Bytes
needle key = b'"' ∷ (key ++ b'"' ∷ [])

strncmp-quoted :
    (v key t : Bytes)
    → IsUnquoted v
    → IsUnquoted key
    → strncmp_eq (v ++ b'"' ∷ t) (key ++ b'"' ∷ []) (length (key ++ b'"' ∷ [])) ≡ equal v key
unfolding strncmp_eq equal
strncmp-quoted [] [] t hv hk = refl
strncmp-quoted [] (k ∷ key) t hv hk = ground (arith, hk.0)
strncmp-quoted (c ∷ v) [] t hv hk = ground (arith, hv.0)
strncmp-quoted (c ∷ v) (k ∷ key) t hv hk = rw (strncmp-quoted v key t hv.1 hk.1) refl

strncmp-unquoted :
    (v key : Bytes)
    → IsUnquoted v
    → strncmp_eq v (key ++ b'"' ∷ []) (length (key ++ b'"' ∷ [])) ≡ false
unfolding strncmp_eq
strncmp-unquoted [] [] hv = refl
strncmp-unquoted [] (k ∷ key) hv = refl
strncmp-unquoted (c ∷ v) [] hv = ground (arith, hv.0)
strncmp-unquoted (c ∷ v) (k ∷ key) hv = ground (arith, strncmp-unquoted v key hv.1)

strstr-unquoted :
    (u t key : Bytes)
    → IsUnquoted u
    → strstr (u ++ b'"' ∷ t) (needle key) ≡ strstr (b'"' ∷ t) (needle key)
unfolding strstr strncmp_eq
strstr-unquoted [] t key h = refl
strstr-unquoted (c ∷ u) t key h = rw h.0 (strstr-unquoted u t key h.1)

strstr-none : (u key : Bytes) → IsUnquoted u → strstr u (needle key) ≡ none
unfolding strstr strncmp_eq
strstr-none [] key h = refl
strstr-none (c ∷ u) key h = rw h.0 (strstr-none u key h.1)

strstr-quoted :
    (key : Bytes) (us : List Bytes)
    → IsUnquoted key
    → All IsUnquoted us
    → strstr (b'"' ∷ quoted us) (needle key) ≡ find_segment key us
unfolding strstr quoted find_segment strncmp_eq
strstr-quoted key [] hk h = rw (strncmp-unquoted [] key tt)
strstr-quoted key (v ∷ []) hk h = rw (strncmp-unquoted v key h.0, strstr-none v key h.0)
strstr-quoted key (v ∷ (w ∷ us)) hk h = rw (
  strncmp-quoted v key (quoted (w ∷ us)) h.0 hk,
  strstr-unquoted v (quoted (w ∷ us)) key h.0,
  strstr-quoted key (w ∷ us) hk h.1,
)

strstr-between :
    (key u : Bytes) (us : List Bytes)
    → IsUnquoted key
    → All IsUnquoted (u ∷ us)
    → strstr (quoted (u ∷ us)) (needle key) ≡ find_segment key us
unfolding quoted
strstr-between key u [] hk h = strstr-none u key h.0 ∙ unfold find_segment in refl
strstr-between key u (v ∷ us) hk h =
    strstr-unquoted u (quoted (v ∷ us)) key h.0 ∙ strstr-quoted key (v ∷ us) hk h.1

-- json_find_key on a text that starts in front of a quote.
pub json_find_key-quoted :
    (key u : Bytes) (us : List Bytes)
    → length key ≤ 61
    → IsUnquoted key
    → All IsUnquoted (u ∷ us)
    → json_find_key (quoted (u ∷ us)) key ≡ find_segment key us
unfolding json_find_key
json_find_key-quoted key u us short hk h =
    let whole : take 63 (needle key) ≡ needle key =
      take-eq_self 63 (needle key) (omega (arith, length-append key (b'"' ∷ []))) in
    ap (strstr (quoted (u ∷ us))) whole ∙ strstr-between key u us hk h
