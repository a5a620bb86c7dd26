-- ===== src/Base/CStrings.antt =====
-- C strings. A `const char *` is the list of its characters, without the terminator; a `char`
-- array is the list of its bytes, terminator and stale bytes behind it included.
use Prim.Native.Nat.{ℕ, zero, suc, ◌-◌, ◌<◌, ◌≤◌}
use Prim.Native.Char.{code}
use Prim.Native.String.{String}
use mathlib.Core.Path.{◌≡◌, refl, sym, ap, ◌∙◌}
use mathlib.Core.Bool.{Bool, false, not}
use mathlib.Core.Logic.{◌≢◌}
use mathlib.Core.List.{List, [], ◌∷◌, ◌++◌, append-nil, append_assoc}
use native.Mathlib.Omega.{arith}
use mqtt_field_bridge_app.Base.Tests.{◌==◌, if◌then◌else◌}
use mqtt_field_bridge_app.Base.Lists.{
  set, length, take, drop, replicate, All, length-append, length-take, length-drop,
  length-replicate,
}

abbrev pub Bytes : Type 0
Bytes = List ℕ

-- The bytes of an ASCII literal.
abbrev pub codes : String → Bytes
codes String.[] = []
codes (String.◌∷◌ c s) = code c ∷ codes s

-- A zeroed `char` array.
abbrev pub zeros : ℕ → Bytes
zeros n = replicate n 0

-- The C string that an array holds: its bytes up to the first 0.
unfoldable pub cstr : Bytes → Bytes
cstr [] = []
cstr (c ∷ rest) = let tail = cstr rest in if c == 0 then [] else c ∷ tail

-- `s[0] != '\0'`
abbrev pub is_nonempty : Bytes → Bool
is_nonempty [] = false
is_nonempty (c ∷ rest) = not (c == 0)

-- strncpy(dst, src, n): the first n bytes of `src`, padded with zeros to n; the rest is kept.
abbrev padded : ℕ → Bytes → Bytes
padded n src = take n src ++ zeros (n - length src)

unfoldable pub strncpy : Bytes → Bytes → ℕ → Bytes
strncpy dst src n = padded n src ++ drop n dst

-- snprintf(dst, cap, "%s", text) with 0 < cap: at most cap - 1 bytes, and a terminator.
unfoldable pub snprintf : Bytes → ℕ → Bytes → Bytes
snprintf dst cap text =
    let shown = take (cap - 1) text in shown ++ (0 ∷ drop (suc (length shown)) dst)

-- No byte is 0.
abbrev pub IsText : Bytes → Type 0
IsText = All (λ c. c ≢ 0)

-- An array of `cap` bytes with a terminator in it.
abbrev pub IsTerminated : ℕ → Bytes → Type 0
IsTerminated cap b = (length b ≡ cap) × (length (cstr b) < cap)

pub length-cstr-le : (b : Bytes) → length (cstr b) ≤ length b
unfolding cstr
length-cstr-le [] = omega arith
length-cstr-le (c ∷ b) = ground (arith, length-cstr-le b)

pub cstr-IsText : (b : Bytes) → IsText (cstr b)
unfolding cstr
cstr-IsText [] = tt
cstr-IsText (c ∷ b) = ground (arith, cstr-IsText b)

-- A text in front of a 0 is what the array holds.
pub cstr_text : (s rest : Bytes) → IsText s → cstr (s ++ 0 ∷ rest) ≡ s
unfolding cstr
cstr_text [] rest h = refl
cstr_text (c ∷ s) rest h = ground (arith, h.0, cstr_text s rest h.1)

pub length-cstr-append-le : (s rest : Bytes) → length (cstr (s ++ 0 ∷ rest)) ≤ length s
unfolding cstr
length-cstr-append-le [] rest = omega arith
length-cstr-append-le (c ∷ s) rest = ground (arith, length-cstr-append-le s rest)

pub cstr_self : (s : Bytes) → IsText s → cstr s ≡ s
unfolding cstr
cstr_self [] h = refl
cstr_self (c ∷ s) h = ground (arith, h.0, cstr_self s h.1)

pub IsText-take : (n : ℕ) (s : Bytes) → IsText s → IsText (take n s)
IsText-take zero s h = tt
IsText-take (suc n) [] h = tt
IsText-take (suc n) (c ∷ s) h = (h.0, IsText-take n s h.1)

pub IsText-append : (s t : Bytes) → IsText s → IsText t → IsText (s ++ t)
IsText-append [] t hs ht = ht
IsText-append (c ∷ s) t hs ht = (hs.0, IsText-append s t hs.1 ht)

-- `snprintf` leaves the text, cut to the array.
pub cstr-snprintf :
    (dst : Bytes) (cap : ℕ) (text : Bytes)
    → IsText text
    → cstr (snprintf dst cap text) ≡ take (cap - 1) text
unfolding snprintf
cstr-snprintf dst cap text h = cstr_text (take (cap - 1) text) _ (IsText-take (cap - 1) text h)

pub snprintf-IsTerminated :
    (dst : Bytes) (cap : ℕ) (text : Bytes)
    → 0 < cap
    → length dst ≡ cap
    → IsTerminated cap (snprintf dst cap text)
unfolding snprintf
snprintf-IsTerminated dst cap text pos len =
    let shown = take (cap - 1) text in
    let short = length-take (cap - 1) text in
    let rest = drop (suc (length shown)) dst in
    let all = length-append shown (0 ∷ rest) in
    let left = length-drop (suc (length shown)) dst in
    let ends = length-cstr-append-le shown rest in
    (omega (arith, short, all, left), omega (arith, short, ends))

length-padded : (n : ℕ) (src : Bytes) → length (padded n src) ≡ n
length-padded n src = omega (
  arith,
  length-append (take n src) (zeros (n - length src)),
  length-take n src,
  length-replicate {A = ℕ} (n - length src) 0,
)

-- `strncpy` of all bytes but the last into an array whose last byte is 0.
pub strncpy-IsTerminated :
    (dst src : Bytes) (n : ℕ) → drop n dst ≡ 0 ∷ [] → IsTerminated (suc n) (strncpy dst src n)
unfolding strncpy
strncpy-IsTerminated dst src n last = rw last (
  omega (arith, length-append (padded n src) (0 ∷ []), length-padded n src),
  omega (arith, length-cstr-append-le (padded n src) [], length-padded n src),
)

set-append : (a : Bytes) (x v : ℕ) → set (a ++ x ∷ []) (length a) v ≡ a ++ v ∷ []
set-append [] x v = refl
set-append (c ∷ a) x v = ap (◌∷◌ c) (set-append a x v)

drop_last : (n : ℕ) (b : Bytes) → length b ≡ suc n → (x : ℕ) × (drop n b ≡ x ∷ [])
drop_last n [] h = absurd (omega arith)
drop_last zero (x ∷ []) h = (x, refl)
drop_last zero (x ∷ (y ∷ b)) h = absurd (omega arith)
drop_last (suc n) (x ∷ b) h = drop_last n b (omega arith)

strncpy-set_last :
    (dst src : Bytes) (n : ℕ)
    → length dst ≡ suc n
    → set (strncpy dst src n) n 0 ≡ padded n src ++ 0 ∷ []
unfolding strncpy
strncpy-set_last dst src n len =
    let (x, last) = drop_last n dst len in
    let at_end = set-append (padded n src) x 0 in
    rw last (ap (λ k. set (padded n src ++ x ∷ []) k 0) (sym (length-padded n src)) ∙ at_end)

cstr-zeros : (s : Bytes) (k : ℕ) → IsText s → cstr ((s ++ zeros k) ++ 0 ∷ []) ≡ s
cstr-zeros s zero h = rw (append-nil s) (cstr_text s [] h)
cstr-zeros s (suc k) h = rw (append_assoc s (zeros (suc k)) (0 ∷ [])) (cstr_text s _ h)

-- A text that is copied with strncpy in front of a terminator is cut to the array.
pub cstr-strncpy :
    (dst src : Bytes) (n : ℕ)
    → drop n dst ≡ 0 ∷ []
    → IsText src
    → cstr (strncpy dst src n) ≡ take n src
unfolding strncpy
cstr-strncpy dst src n last text =
    rw last (cstr-zeros (take n src) (n - length src) (IsText-take n src text))

-- A text that is copied with strncpy and ended is cut to the array.
pub strncpy_ended :
    (dst src : Bytes) (n : ℕ)
    → length dst ≡ suc n
    → IsText src
    → IsTerminated (suc n) (set (strncpy dst src n) n 0)
      × (cstr (set (strncpy dst src n) n 0) ≡ take n src)
strncpy_ended dst src n len text =
    let cut = cstr-zeros (take n src) (n - length src) (IsText-take n src text) in
    rw (strncpy-set_last dst src n len, cut)
      (
        (
          omega (arith, length-append (padded n src) (0 ∷ []), length-padded n src),
          omega (arith, length-take n src),
        ),
        refl,
      )
