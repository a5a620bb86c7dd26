-- ===== src/Startup/Link.antt =====
-- wait_for_w5500_link_stable of main.c. The k-th call of product_ethernet_link_ready is `ready k`.
use mqtt_field_bridge_app.Base.{
  ℕ, zero, suc, ◌+◌, ◌-◌, ◌*◌, ◌<◌, ◌≤◌, ◌≡◌, ◌↔◌, ◌⊎◌, sym, ap, ◌∙◌, inl, inr, Bool, true, false,
  Option, none, some, Rc, ok, fail, ltb, leb, if◌then◌else◌, Bool-cases, arith,
}

abbrev pub w5500_link_sample_ms : ℕ
w5500_link_sample_ms = 250

abbrev pub w5500_link_stable_samples : ℕ
w5500_link_stable_samples = 4

le_or : (a b : ℕ) → (a ≤ b) ⊎ (b < a)
le_or a b = ground arith

module _ (ready : ℕ → Bool) (timeout_ms : ℕ) where
  -- The loop from the k-th sample on; `none` where the fuel ends first.
  unfoldable pub link_loop : ℕ → ℕ → ℕ → ℕ → Option Rc
  link_loop zero k elapsed_ms stable_samples = none
  link_loop (suc fuel) k elapsed_ms stable_samples =
      let counted =
        link_loop fuel (k + 1) (elapsed_ms + w5500_link_sample_ms) (stable_samples + 1) in
      let reset = link_loop fuel (k + 1) (elapsed_ms + w5500_link_sample_ms) 0 in
      if ltb elapsed_ms timeout_ms
      then if ready k
        then if leb w5500_link_stable_samples (stable_samples + 1) then some ok else counted
        else reset
      else some fail

  -- Each round adds 250 ms, so one round for each millisecond and one more are enough.
  unfoldable pub wait_for_w5500_link_stable : Option Rc
  wait_for_w5500_link_stable = link_loop (suc timeout_ms) 0 0 0

  -- Four samples in a row from the j-th on, the last before the time is over.
  abbrev pub Stable : ℕ → Type 0
  Stable j = ((j + 3) * 250 < timeout_ms) × ((i : ℕ) → i < 4 → ready (j + i) ≡ true)

  ready_at : (j k : ℕ) → Stable j → j ≤ k → k < j + 4 → ready k ≡ true
  ready_at j k h low high =
      let e : j + (k - j) ≡ k = omega arith in rw (sym (ap ready e)) (h.1 (k - j) (omega arith))

  round_late : (fuel k e s : ℕ) → timeout_ms ≤ e → link_loop (suc fuel) k e s ≡ some fail
  unfolding link_loop
  round_late fuel k e s late = let over : ltb e timeout_ms ≡ false = ground arith in rw over

  round_ready :
      (fuel k e s : ℕ)
      → e < timeout_ms
      → ready k ≡ true
      → link_loop (suc fuel) k e s
        ≡ (if leb 4 (s + 1) then some ok else link_loop fuel (k + 1) (e + 250) (s + 1))
  unfolding link_loop
  round_ready fuel k e s early up =
      let within : ltb e timeout_ms ≡ true = ground arith in rw (within, up)

  round_counted :
      (fuel k e s : ℕ)
      → e < timeout_ms
      → ready k ≡ true
      → s + 1 < 4
      → link_loop (suc fuel) k e s ≡ link_loop fuel (k + 1) (e + 250) (s + 1)
  round_counted fuel k e s early up more =
      let under : leb 4 (s + 1) ≡ false = ground arith in round_ready fuel k e s early up ∙ rw under

  round_reset :
      (fuel k e s : ℕ)
      → e < timeout_ms
      → ready k ≡ false
      → link_loop (suc fuel) k e s ≡ link_loop fuel (k + 1) (e + 250) 0
  unfolding link_loop
  round_reset fuel k e s early down =
      let within : ltb e timeout_ms ≡ true = ground arith in rw (within, down)

  -- Enough rounds end the loop.
  link_loop_total :
      (fuel k e s : ℕ)
      → timeout_ms ≤ e + fuel * 250
      → (link_loop (suc fuel) k e s ≡ some ok) ⊎ (link_loop (suc fuel) k e s ≡ some fail)
  unfolding link_loop
  link_loop_total zero k e s h = ground arith
  link_loop_total (suc fuel) k e s h = ground (
    arith,
    link_loop_total fuel (k + 1) (e + 250) (s + 1) (omega arith),
    link_loop_total fuel (k + 1) (e + 250) 0 (omega arith),
  )

  -- From `k` on, with the last `s` samples ready, a stable stretch that is not over is found.
  link_loop_finds :
      (fuel k s j : ℕ)
      → timeout_ms ≤ k * 250 + fuel * 250
      → Stable j
      → s < 4
      → k ≤ j + s
      → link_loop (suc fuel) k (k * 250) s ≡ some ok
  link_loop_finds zero k s j h stable few near = absurd (omega (arith, stable.0))
  link_loop_finds (suc fuel) k s j h stable few near =
      let next : k * 250 + 250 ≡ (k + 1) * 250 = omega arith in
      let early : k * 250 < timeout_ms = omega (arith, stable.0) in
      elim (Bool-cases (ready k)) [
        | inl up ↦
            rw (round_ready (suc fuel) k (k * 250) s early up, next)
              (ground (
                arith,
                λ (few' : s + 1 < 4).
                    link_loop_finds fuel (k + 1) (s + 1) j (omega arith) stable few' (omega arith),
              ))
        | inr down ↦
            rw (round_reset (suc fuel) k (k * 250) s early down, next)
              (link_loop_finds fuel (k + 1) 0 j (omega arith) stable (omega arith)
                (before k s j stable few near down))
      ]
    where
      true_false : true ≡ false → ⊥
      true_false e = cc

      before : (k s j : ℕ) → Stable j → s < 4 → k ≤ j + s → ready k ≡ false → k + 1 ≤ j + 0
      before k s j stable few near down = elim (le_or j k) [
        | inl low ↦ absurd (true_false (sym (ready_at j k stable low (omega arith)) ∙ down))
        | inr high ↦ omega (arith, high)
      ]

  -- The last `s` samples before the k-th were ready.
  abbrev Seen : ℕ → ℕ → Type 0
  Seen k s = (i : ℕ) → i < k → k ≤ i + s → ready i ≡ true

  Seen-next : (k s : ℕ) → Seen k s → ready k ≡ true → Seen (k + 1) (s + 1)
  Seen-next k s seen up i low high = elim (le_or k i) [
    | inl at ↦ let e : i ≡ k = omega arith in rw e up
    | inr under ↦ seen i under (omega arith)
  ]

  Seen-Stable : (k : ℕ) → 3 ≤ k → k * 250 < timeout_ms → Seen (k + 1) 4 → Stable (k - 3)
  Seen-Stable k low early seen =
      (omega arith, λ i few. seen (k - 3 + i) (omega arith) (omega arith))

  ended : (k e s : ℕ) → link_loop 0 k e s ≡ some ok → ⊥
  unfolding link_loop
  ended k e s h = cc

  abbrev refused : Option Rc
  refused = some fail

  failed : refused ≡ some ok → ⊥
  failed h = cc

  link_loop_found :
      (fuel k s : ℕ)
      → s < 4
      → s ≤ k
      → Seen k s
      → link_loop fuel k (k * 250) s ≡ some ok
      → (j : ℕ) × Stable j
  link_loop_found zero k s few low seen h = absurd (ended k (k * 250) s h)
  link_loop_found (suc fuel) k s few low seen h =
      let next : k * 250 + 250 ≡ (k + 1) * 250 = omega arith in
      elim (le_or timeout_ms (k * 250)) [
        | inl late ↦ absurd (failed (sym (round_late fuel k (k * 250) s late) ∙ h))
        | inr early ↦ elim (Bool-cases (ready k)) [
          | inl up ↦ elim (le_or 4 (s + 1)) [
            | inl full ↦
                let three : s + 1 ≡ 4 = omega arith in
                (k - 3, Seen-Stable k (omega arith) early (rw (sym three) (Seen-next k s seen up)))
            | inr more ↦
                link_loop_found fuel (k + 1) (s + 1) more (omega arith) (Seen-next k s seen up)
                  (rw (sym next) (sym (round_counted fuel k (k * 250) s early up more) ∙ h))
          ]
          | inr down ↦
              link_loop_found fuel (k + 1) 0 (omega arith) (omega arith)
                (λ i before after. absurd (omega arith))
                (rw (sym next) (sym (round_reset fuel k (k * 250) s early down) ∙ h))
        ]
      ]

  -- The wait always ends with success or a timeout, and with success exactly if four samples in a
  -- row are ready, the last of them taken before the time is over.
  pub wait_iff :
      ((wait_for_w5500_link_stable ≡ some ok) ⊎ (wait_for_w5500_link_stable ≡ some fail))
      × ((wait_for_w5500_link_stable ≡ some ok) ↔ ((j : ℕ) × Stable j))
  unfolding wait_for_w5500_link_stable
  wait_iff = (
    link_loop_total timeout_ms 0 0 0 (omega arith),
    (
      λ h.
          link_loop_found (suc timeout_ms) 0 0 (omega arith) (omega arith)
            (λ i before after. absurd (omega arith)) h,
      λ (j, stable).
          link_loop_finds timeout_ms 0 0 j (omega arith) stable (omega arith) (omega arith),
    ),
  )
