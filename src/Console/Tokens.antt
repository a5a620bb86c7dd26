-- ===== src/Console/Tokens.antt =====
-- The tokens of a line, and what a line of words is split into.
use mqtt_field_bridge_app.Base.{
  ℕ, ◌≤◌, ◌≡◌, ◌≢◌, ◌∙◌, refl, ap, inl, inr, ◌⊎◌, none, some, [], ◌∷◌, ◌++◌, Bytes, true, false,
  Bool-cases, arith, All,
}
use mqtt_field_bridge_app.Console.Text.{
  is_delim, skip_delims, split_token, first_token, next_token, decimal,
}
use mqtt_field_bridge_app.Console.Numbers.{IsDigits, decimal-IsDigits, Begins, decimal-Begins}

-- No character is a delimiter.
abbrev pub IsSolid : Bytes → Type 0
IsSolid = All (λ c. is_delim c ≡ false)

abbrev pub IsWord : Bytes → Type 0
IsWord w = (w ≢ []) × IsSolid w

abbrev pub IsBlank : Bytes → Type 0
IsBlank = All (λ c. is_delim c ≡ true)

split_token-last : (w : Bytes) → IsSolid w → split_token w ≡ (w, [])
unfolding split_token
split_token-last [] h = refl
split_token-last (c ∷ w) h = rw (h.0, split_token-last w h.1)

split_token-first :
    (w : Bytes) (d : ℕ) (rest : Bytes)
    → IsSolid w
    → is_delim d ≡ true
    → split_token (w ++ d ∷ rest) ≡ (w, rest)
unfolding split_token
split_token-first [] d rest h e = rw e
split_token-first (c ∷ w) d rest h e = rw (h.0, split_token-first w d rest h.1 e)

skip_delims-Blank : (b s : Bytes) → IsBlank b → skip_delims (b ++ s) ≡ skip_delims s
unfolding skip_delims
skip_delims-Blank [] s h = refl
skip_delims-Blank (c ∷ b) s h = rw h.0 (skip_delims-Blank b s h.1)

-- Behind blanks the next token is the word in front of the next delimiter, and what is left of the
-- line starts behind that delimiter.
pub next_token-word :
    (b w : Bytes) (d : ℕ) (rest : Bytes)
    → IsBlank b
    → IsWord w
    → is_delim d ≡ true
    → next_token (b ++ (w ++ d ∷ rest)) ≡ (some w, rest)
unfolding next_token first_token skip_delims
next_token-word b [] d rest hb hw e = absurd (hw.0 refl)
next_token-word b (c ∷ w) d rest hb hw e =
    rw (skip_delims-Blank b ((c ∷ w) ++ d ∷ rest) hb, hw.1.0)
      (rw (split_token-first (c ∷ w) d rest hw.1 e))

pub next_token-last : (b w : Bytes) → IsBlank b → IsWord w → next_token (b ++ w) ≡ (some w, [])
unfolding next_token first_token skip_delims
next_token-last b [] hb hw = absurd (hw.0 refl)
next_token-last b (c ∷ w) hb hw =
    rw (skip_delims-Blank b (c ∷ w) hb, hw.1.0) (rw (split_token-last (c ∷ w) hw.1))

-- A text is solid, or it is a solid part, a delimiter and the rest.
split-IsSolid :
    (s : Bytes)
    → IsSolid s
      ⊎ ((w : Bytes) × ((d : ℕ) × ((rest : Bytes) × (IsSolid w
                × (is_delim d ≡ true)
                × (s ≡ w ++ d ∷ rest)))))
split-IsSolid [] = inl tt
split-IsSolid (c ∷ s) = elim (Bool-cases (is_delim c)) [
  | inl e ↦ inr ([], (c, (s, (tt, e, refl))))
  | inr e ↦ elim (split-IsSolid s) [
    | inl h ↦ inl (e, h)
    | inr (w, (d, (rest, (h, e', at)))) ↦ inr (c ∷ w, (d, (rest, ((e, h), e', ap (λ r. c ∷ r) at))))
  ]
]

-- A text is blank, or starts with blanks and a character that is none.
split-IsBlank :
    (s : Bytes)
    → IsBlank s
      ⊎ ((b : Bytes) × ((c : ℕ) × ((rest : Bytes) × (IsBlank b
                × (is_delim c ≡ false)
                × (s ≡ b ++ c ∷ rest)))))
split-IsBlank [] = inl tt
split-IsBlank (c ∷ s) = elim (Bool-cases (is_delim c)) [
  | inl e ↦ elim (split-IsBlank s) [
    | inl h ↦ inl (e, h)
    | inr (b, (x, (rest, (h, e', at)))) ↦ inr (c ∷ b, (x, (rest, ((e, h), e', ap (λ r. c ∷ r) at))))
  ]
  | inr e ↦ inr ([], (c, (s, (tt, e, refl))))
]

next_token_blank : (s : Bytes) → IsBlank s → next_token s ≡ (none, [])
unfolding next_token first_token skip_delims
next_token_blank s h = rw (skip_none s h) refl
  where
    skip_none : (s : Bytes) → IsBlank s → skip_delims s ≡ []
    skip_none [] h = refl
    skip_none (c ∷ s) h = rw h.0 (skip_none s h.1)

cons_nonempty : (c : ℕ) (w : Bytes) → c ∷ w ≢ []
cons_nonempty c w e = cc

-- Where a word at the end, or a word and a delimiter, stand behind blanks.
pub data Found (s w rest : Bytes) : Type 0 where
  at_end : (b : Bytes) → IsBlank b → s ≡ b ++ w → rest ≡ [] → Found s w rest
  before :
      (b : Bytes) (d : ℕ)
      → IsBlank b
      → is_delim d ≡ true
      → s ≡ b ++ (w ++ d ∷ rest)
      → Found s w rest

-- A line of delimiters has no token. Any other is split at its first word: the token is that word,
-- and what is left starts behind the one delimiter that ends it.
pub next_token_cases :
    (s : Bytes)
    → IsBlank s × (next_token s ≡ (none, []))
      ⊎ ((w : Bytes) × ((rest : Bytes) × (IsWord w
              × (next_token s ≡ (some w, rest))
              × Found s w rest)))
next_token_cases s = elim (split-IsBlank s) [
  | inl h ↦ inl (h, next_token_blank s h)
  | inr (b, (c, (tail, (hb, e, at)))) ↦ elim (split-IsSolid tail) [
    | inl h ↦
        let word : IsWord (c ∷ tail) = (cons_nonempty c tail, (e, h)) in
        inr (
          c ∷ tail,
          ([], (word, rw at (next_token-last b (c ∷ tail) hb word), at_end b hb at refl)),
        )
    | inr (w, (d, (rest, (h, e', at')))) ↦
        let word : IsWord (c ∷ w) = (cons_nonempty c w, (e, h)) in
        let whole : s ≡ b ++ ((c ∷ w) ++ d ∷ rest) = at ∙ ap (λ r. b ++ c ∷ r) at' in
        inr (
          c ∷ w,
          (
            rest,
            (word, rw whole (next_token-word b (c ∷ w) d rest hb word e'), before b d hb e' whole),
          ),
        )
  ]
]

digit_solid : (c : ℕ) → 48 ≤ c → c ≤ 57 → is_delim c ≡ false
unfolding is_delim
digit_solid c low high = ground arith

IsDigits-IsSolid : (s : Bytes) → IsDigits s → IsSolid s
IsDigits-IsSolid [] h = tt
IsDigits-IsSolid (c ∷ s) h = (digit_solid c h.0.0 h.0.1, IsDigits-IsSolid s h.1)

Begins-nonempty : (s : Bytes) → Begins s → s ≢ []
Begins-nonempty [] h = absurd h
Begins-nonempty (c ∷ s) h = cons_nonempty c s

-- A printed number is a word.
pub decimal-IsWord : (n : ℕ) → IsWord (decimal n)
decimal-IsWord n = (Begins-nonempty _ (decimal-Begins n), IsDigits-IsSolid _ (decimal-IsDigits n))
