-- ===== src/Startup/Stagger.antt =====
-- startup_stagger_ms of main.c: the wait before the broker starts depends on the last number of its
-- address.
use mqtt_field_bridge_app.Base.{
  ℕ, suc, ◌+◌, ltb, cstr, inl, inr, Option-cases, ◌*◌, ◌-◌, ◌%◌, ◌^◌, ◌<◌, ◌≡◌, ◌∙◌, refl, true,
  false, Option, none, some, [], ◌∷◌, ◌++◌, Bytes, arith, ◌==◌, if◌then◌else◌,
}
use mqtt_field_bridge_app.Config.{Settings}
use mqtt_field_bridge_app.Console.{
  is_digit, is_space, skip_spaces, digits_value, decimal, Begins, Begins-append, decimal-Begins,
  IsDigits, decimal-IsDigits, digits_value-decimal_from, digits_value_stop,
}

abbrev pub broker_stagger_step_ms : ℕ
broker_stagger_step_ms = 750

abbrev pub broker_stagger_buckets : ℕ
broker_stagger_buckets = 8

unfoldable pub skip_digits : Bytes → Bytes
skip_digits [] = []
skip_digits (c ∷ s) = let rest = skip_digits s in if is_digit c then rest else c ∷ s

unfoldable pub unsigned_digits : Bytes → Option (ℕ × Bytes)
unsigned_digits [] = none
unsigned_digits (c ∷ s) =
    if is_digit c then some (digits_value 0 (c ∷ s) % 2 ^ 32, skip_digits (c ∷ s)) else none

unfoldable pub minus : Option (ℕ × Bytes) → Option (ℕ × Bytes)
minus none = none
minus (some (n, rest)) = some ((2 ^ 32 - n) % 2 ^ 32, rest)

-- "%u" of sscanf: blanks, a sign, digits; the value is that of an unsigned int.
unfoldable pub scan_unsigned : Bytes → Option (ℕ × Bytes)
scan_unsigned s = elim (skip_spaces s) [
  | [] ↦ none
  | c ∷ rest ↦
      if c == b'-'
      then minus (unsigned_digits rest)
      else if c == b'+'
      then unsigned_digits rest
      else unsigned_digits (c ∷ rest)
]

unfoldable pub behind_dot : Option (ℕ × Bytes) → Option Bytes
behind_dot none = none
behind_dot (some (n, [])) = none
behind_dot (some (n, c ∷ rest)) = if c == b'.' then some rest else none

-- "%u."
unfoldable pub next_part : Bytes → Option Bytes
next_part s = behind_dot (scan_unsigned s)

unfoldable pub startup_stagger_ms : Option Bytes → ℕ
startup_stagger_ms none = 0
startup_stagger_ms (some ip_addr) = elim (next_part ip_addr) [
  | none ↦ 0
  | some s₁ ↦ elim (next_part s₁) [
    | none ↦ 0
    | some s₂ ↦ elim (next_part s₂) [
      | none ↦ 0
      | some s₃ ↦ elim (scan_unsigned s₃) [
        | none ↦ 0
        | some (d, rest) ↦ d % broker_stagger_buckets * broker_stagger_step_ms
      ]
    ]
  ]
]

abbrev pub http_to_broker_delay_ms : ℕ
http_to_broker_delay_ms = 1500

-- How long main sleeps before its loop, in the build for the W5500.
unfoldable pub broker_delay_ms : Settings → ℕ
broker_delay_ms settings =
    let stagger_ms = startup_stagger_ms (some (cstr settings.broker.broker_ip)) in
    if ltb 0 stagger_ms then http_to_broker_delay_ms + stagger_ms else http_to_broker_delay_ms

-- The wait is a multiple of 750 ms, and below 6 seconds, whatever the text is.
pub startup_stagger_ms-bound :
    (o : Option Bytes) → (k : ℕ) × (k < 8) × (startup_stagger_ms o ≡ k * 750)
unfolding startup_stagger_ms
startup_stagger_ms-bound none = (0, omega arith, refl)
startup_stagger_ms-bound (some ip_addr) = elim (Option-cases (next_part ip_addr)) [
  | inl e ↦ rw (e, startup_stagger_ms) (0, omega arith, refl)
  | inr (s₁, e₁) ↦ elim (Option-cases (next_part s₁)) [
    | inl e ↦ rw (e₁, startup_stagger_ms, e) (0, omega arith, refl)
    | inr (s₂, e₂) ↦ elim (Option-cases (next_part s₂)) [
      | inl e ↦ rw (e₁, startup_stagger_ms, e₂, e) (0, omega arith, refl)
      | inr (s₃, e₃) ↦ elim (Option-cases (scan_unsigned s₃)) [
        | inl e ↦ rw (e₁, startup_stagger_ms, e₂, e₃, e) (0, omega arith, refl)
        | inr ((d, rest), e) ↦ rw (e₁, startup_stagger_ms, e₂, e₃, e) (d % 8, omega arith, refl)
      ]
    ]
  ]
]

-- Between 1.5 and 6.75 seconds, in steps of 750 ms, whatever the settings are.
pub broker_delay_ms-bound :
    (settings : Settings) → (k : ℕ) × (k < 8) × (broker_delay_ms settings ≡ 1500 + k * 750)
unfolding broker_delay_ms
broker_delay_ms-bound settings =
    let (k, low, e) = startup_stagger_ms-bound (some (cstr settings.broker.broker_ip)) in
    (k, low, ground arith)

-- No digit stands here.
abbrev EndsNumber : Bytes → Type 0
EndsNumber [] = Unit
EndsNumber (c ∷ s) = is_digit c ≡ false

scan_unsigned_digits :
    (s : Bytes) → Begins s → scan_unsigned s ≡ some (digits_value 0 s % 2 ^ 32, skip_digits s)
unfolding scan_unsigned skip_spaces is_space unsigned_digits
scan_unsigned_digits [] h = absurd h
scan_unsigned_digits (c ∷ s) h = ground arith

skip_digits-append : (s t : Bytes) → IsDigits s → EndsNumber t → skip_digits (s ++ t) ≡ t
unfolding skip_digits
skip_digits-append [] [] h e = refl
skip_digits-append [] (c ∷ t) h e = rw e refl
skip_digits-append (c ∷ s) t h e =
    let digit : is_digit c ≡ true = ground (arith, h.0) in rw digit (skip_digits-append s t h.1 e)

digits_value-decimal : (n : ℕ) (t : Bytes) → EndsNumber t → digits_value 0 (decimal n ++ t) ≡ n
unfolding decimal digits_value
digits_value-decimal n [] e = digits_value-decimal_from (suc n) n [] (omega arith)
digits_value-decimal n (c ∷ t) e =
    digits_value-decimal_from (suc n) n (c ∷ t) (omega arith) ∙ digits_value_stop n c t e

-- A printed number is read, up to what follows it.
scan_unsigned-decimal :
    (n : ℕ) (t : Bytes) → EndsNumber t → scan_unsigned (decimal n ++ t) ≡ some (n % 2 ^ 32, t)
scan_unsigned-decimal n t e =
    let read =
      scan_unsigned_digits (decimal n ++ t) (Begins-append (decimal n) t (decimal-Begins n)) in
    let value = digits_value-decimal n t e in
    let left = skip_digits-append (decimal n) t (decimal-IsDigits n) e in
    rw (read, value, left) refl

next_part-decimal : (n : ℕ) (t : Bytes) → next_part (decimal n ++ b'.' ∷ t) ≡ some t
unfolding next_part behind_dot
next_part-decimal n t = rw (scan_unsigned-decimal n (b'.' ∷ t) refl) refl

-- For the text of an IPv4 address the wait is the last number modulo 8, times 750 ms.
pub startup_stagger_ms-decimal :
    (a b c d : ℕ)
    → d < 2 ^ 32
    → startup_stagger_ms
        (some (decimal a ++ b'.' ∷ (decimal b ++ b'.' ∷ (decimal c ++ b'.' ∷ (decimal d ++ [])))))
      ≡ d % 8 * 750
unfolding startup_stagger_ms
startup_stagger_ms-decimal a b c d h =
    let e₁ = next_part-decimal a (decimal b ++ b'.' ∷ (decimal c ++ b'.' ∷ (decimal d ++ []))) in
    let e₂ = next_part-decimal b (decimal c ++ b'.' ∷ (decimal d ++ [])) in
    let e₃ = next_part-decimal c (decimal d ++ []) in
    let e₄ = scan_unsigned-decimal d [] tt in
    let small : d % 2 ^ 32 ≡ d = omega arith in rw (e₁, startup_stagger_ms, e₂, e₃, e₄, small) refl
