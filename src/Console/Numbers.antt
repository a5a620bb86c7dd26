-- ===== src/Console/Numbers.antt =====
-- Printed numbers read back.
use mqtt_field_bridge_app.Base.{
  ℕ, zero, suc, ◌+◌, ◌-◌, ◌*◌, ◌/◌, ◌%◌, ◌<◌, ◌≤◌, ◌≡◌, ◌∙◌, refl, sym, ap, inl, inr, [], ◌∷◌, ◌++◌,
  Bytes, true, false, pos, ltb, Bool-cases, arith, All, append_assoc, append-nil,
}
use mqtt_field_bridge_app.Console.Text.{
  int_max, clamped, is_digit, is_space, skip_spaces, digits_value, signed_value, atoi, decimal_from,
  decimal,
}

digits_value-digit :
    (value d : ℕ) (s : Bytes)
    → d < 10
    → digits_value value ((b'0' + d) ∷ s) ≡ digits_value (value * 10 + d) s
unfolding digits_value
digits_value-digit value d s h =
    let digit : is_digit (b'0' + d) ≡ true = ground arith in
    let e : value * 10 + (b'0' + d - b'0') ≡ value * 10 + d = omega arith in rw (digit, e)

-- The text of a number in front of anything is read as the number.
pub digits_value-decimal_from :
    (fuel n : ℕ) (s : Bytes)
    → n < fuel
    → digits_value 0 (decimal_from fuel n ++ s) ≡ digits_value n s
unfolding decimal_from
digits_value-decimal_from zero n s h = absurd (omega arith)
digits_value-decimal_from (suc fuel) n s h = elim (Bool-cases (ltb n 10)) [
  | inl e ↦
      let whole : 0 * 10 + n ≡ n = omega arith in
      rw e (digits_value-digit 0 n s (ground arith) ∙ rw whole)
  | inr e ↦
      let last = (b'0' + n % 10) ∷ s in
      let whole : n / 10 * 10 + n % 10 ≡ n = omega arith in
      rw (e, append_assoc (decimal_from fuel (n / 10)) ((b'0' + n % 10) ∷ []) s)
        (digits_value-decimal_from fuel (n / 10) last (ground arith)
          ∙ digits_value-digit (n / 10) (n % 10) s (omega arith)
          ∙ rw whole)
]

-- All digits.
abbrev pub IsDigits : Bytes → Type 0
IsDigits = All (λ c. (48 ≤ c) × (c ≤ 57))

IsDigits-append : (s t : Bytes) → IsDigits s → IsDigits t → IsDigits (s ++ t)
IsDigits-append [] t hs ht = ht
IsDigits-append (c ∷ s) t hs ht = (hs.0, IsDigits-append s t hs.1 ht)

decimal_from-IsDigits : (fuel n : ℕ) → IsDigits (decimal_from fuel n)
unfolding decimal_from
decimal_from-IsDigits zero n = tt
decimal_from-IsDigits (suc fuel) n = elim (Bool-cases (ltb n 10)) [
  | inl e ↦ rw e ((omega arith, ground arith), tt)
  | inr e ↦
      rw e
        (IsDigits-append _ _ (decimal_from-IsDigits fuel (n / 10)) ((omega arith, omega arith), tt))
]

pub decimal-IsDigits : (n : ℕ) → IsDigits (decimal n)
unfolding decimal
decimal-IsDigits n = decimal_from-IsDigits (suc n) n

-- The first digit of a number.
abbrev pub Begins : Bytes → Type 0
Begins [] = ⊥
Begins (c ∷ s) = (48 ≤ c) × (c ≤ 57)

pub Begins-append : (s t : Bytes) → Begins s → Begins (s ++ t)
Begins-append [] t h = absurd h
Begins-append (c ∷ s) t h = h

decimal_from-Begins : (fuel n : ℕ) → n < fuel → Begins (decimal_from fuel n)
unfolding decimal_from
decimal_from-Begins zero n h = absurd (omega arith)
decimal_from-Begins (suc fuel) n h = elim (Bool-cases (ltb n 10)) [
  | inl e ↦ rw e (omega arith, ground arith)
  | inr e ↦ rw e (Begins-append _ _ (decimal_from-Begins fuel (n / 10) (ground arith)))
]

pub decimal-Begins : (n : ℕ) → Begins (decimal n)
unfolding decimal
decimal-Begins n = decimal_from-Begins (suc n) n (omega arith)

signed_value_digits : (s : Bytes) → Begins s → signed_value (skip_spaces s) ≡ pos (digits_value 0 s)
unfolding skip_spaces signed_value is_space
signed_value_digits [] h = absurd h
signed_value_digits (c ∷ s) h = ground arith

atoi_digits : (s : Bytes) (n : ℕ) → Begins s → n ≤ int_max → digits_value 0 s ≡ n → atoi s ≡ pos n
unfolding atoi clamped
atoi_digits s n h fits value =
    let small : ltb int_max n ≡ false = ground arith in
    rw (signed_value_digits s h, value, small, atoi) refl

-- What "%u" prints of a number that an int holds, atoi reads back.
pub atoi-decimal : (n : ℕ) → n ≤ int_max → atoi (decimal n) ≡ pos n
unfolding decimal digits_value
atoi-decimal n fits = atoi_digits (decimal n) n (decimal-Begins n) fits (
    ap (digits_value 0) (sym (append-nil (decimal n)))
    ∙ (digits_value-decimal_from (suc n) n [] (omega arith) ∙ ended))
  where
    ended : digits_value n [] ≡ n
    ended = refl

pub digits_value_stop : (n c : ℕ) (s : Bytes) → is_digit c ≡ false → digits_value n (c ∷ s) ≡ n
unfolding digits_value
digits_value_stop n c s h = rw h

-- Also where something that is no digit stands behind the number.
pub atoi-decimal_before :
    (n c : ℕ) (s : Bytes) → is_digit c ≡ false → n ≤ int_max → atoi (decimal n ++ c ∷ s) ≡ pos n
unfolding decimal
atoi-decimal_before n c s h fits =
    atoi_digits (decimal n ++ c ∷ s) n (Begins-append (decimal n) (c ∷ s) (decimal-Begins n)) fits
      (digits_value-decimal_from (suc n) n (c ∷ s) (omega arith) ∙ digits_value_stop n c s h)
