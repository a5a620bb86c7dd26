-- ===== src/Http/Buffers.antt =====
-- The slots of the buffers that Zephyr's clients hold.
use mqtt_field_bridge_app.Base.{
  ℕ, suc, ◌-◌, ◌≤◌, ◌≡◌, ◌∙◌, ◌↔◌, refl, inl, inr, true, false, none, some, Option-cases, List, [],
  ◌∷◌, if◌then◌else◌, ◌==◌, ◌&&◌, ◌||◌, arith, length, Bool-cases, take,
}
use mqtt_field_bridge_app.Config.{Platform}
use mqtt_field_bridge_app.Bridge.{Mesh}
use mqtt_field_bridge_app.Runtime.{P2p}
use mqtt_field_bridge_app.Http.Handlers.{Server, is_path}
use mqtt_field_bridge_app.Http.Linux.{before_char}
use mqtt_field_bridge_app.Http.Zephyr.{
  Slots, is_client, has_slot, take_free, Transaction, aborted, complete, more_data, data_final,
  Request, zephyr_acquire_buffers, zephyr_release_buffers, zephyr_dynamic_handler, is_get,
}
use mqtt_field_bridge_app.Http.Sessions.{Call, handle_calls}

-- The number of slots that a client holds.
unfoldable pub held : ℕ → Slots → ℕ
held client [] = 0
held client (slot ∷ slots) =
    let rest = held client slots in if is_client client slot then suc rest else rest

-- The number of slots that nobody holds.
unfoldable pub free : Slots → ℕ
free [] = 0
free (none ∷ slots) = suc (free slots)
free (some c ∷ slots) = free slots

has_slot-held : (client : ℕ) (slots : Slots) → has_slot client slots ≡ false → held client slots ≡ 0
unfolding has_slot held
has_slot-held client [] e = refl
has_slot-held client (slot ∷ slots) e =
    let ih = has_slot-held client slots in
    elim (Bool-cases (is_client client slot)) [ inl e' ↦ ground arith | inr e' ↦ ground arith ]

held-has_slot : (client : ℕ) (slots : Slots) → has_slot client slots ≡ true → 1 ≤ held client slots
unfolding has_slot held
held-has_slot client [] e = cc
held-has_slot client (slot ∷ slots) e =
    let ih = held-has_slot client slots in
    elim (Bool-cases (is_client client slot)) [ inl e' ↦ ground arith | inr e' ↦ ground arith ]

-- A client that is given a slot takes one of the free ones.
take_free-slots :
    (client d : ℕ) (slots slots' : Slots)
    → take_free client slots ≡ some slots'
    → (length slots' ≡ length slots)
      × (free slots ≡ suc (free slots'))
      × (held d slots' ≡ (if client == d then suc (held d slots) else held d slots))
unfolding take_free held free
take_free-slots client d [] slots' e = cc
take_free-slots client d (none ∷ slots) slots' e = ground arith
take_free-slots client d (some c ∷ slots) slots' e = elim (Option-cases (take_free client slots)) [
  | inl e' ↦ absurd cc
  | inr (rest, e') ↦ let ih = take_free-slots client d slots rest e' in ground arith
]

-- No slot is given only where none is free.
take_free-none : (client : ℕ) (slots : Slots) → take_free client slots ≡ none → free slots ≡ 0
unfolding take_free free
take_free-none client [] e = refl
take_free-none client (none ∷ slots) e = cc
take_free-none client (some c ∷ slots) e =
    let ih = take_free-none client slots in
    elim (Option-cases (take_free client slots)) [ inl e' ↦ ih e' | inr (rest, e') ↦ absurd cc ]

zephyr_release_buffers-slots :
    (client d : ℕ) (slots : Slots)
    → let slots' = zephyr_release_buffers client slots in
      (length slots' ≡ length slots)
      × (held d slots' ≡ (if client == d then held d slots - 1 else held d slots))
      × (free slots' ≡ (if has_slot client slots then suc (free slots) else free slots))
unfolding zephyr_release_buffers held free has_slot
zephyr_release_buffers-slots client d [] = ground arith
zephyr_release_buffers-slots client d (slot ∷ slots) =
    let ih = zephyr_release_buffers-slots client d slots in ground arith

-- A client gets no slot exactly if it has none and none is free.
pub zephyr_acquire_buffers-none :
    (client : ℕ) (slots : Slots)
    → (zephyr_acquire_buffers client slots ≡ none)
      ↔ ((has_slot client slots ≡ false) × (free slots ≡ 0))
unfolding zephyr_acquire_buffers
zephyr_acquire_buffers-none client slots =
    let none_free = take_free-none client slots in
    elim (Option-cases (take_free client slots)) [
      | inl e ↦ (λ x. ground arith, λ x. ground arith)
      | inr (slots', e) ↦
          let taken = take_free-slots client client slots slots' e in
          (λ x. ground arith, λ x. ground arith)
    ]

zephyr_acquire_buffers-slots :
    (client d : ℕ) (slots slots' : Slots)
    → zephyr_acquire_buffers client slots ≡ some slots'
    → (length slots' ≡ length slots)
      × (1 ≤ held client slots')
      × (held d slots ≤ 1 → held d slots' ≤ 1)
unfolding zephyr_acquire_buffers
zephyr_acquire_buffers-slots client d slots slots' e = elim (Bool-cases (has_slot client slots)) [
  | inl e' ↦
      let same : slots ≡ slots' = cc in let mine = held-has_slot client slots e' in ground arith
  | inr e' ↦
      let taken : take_free client slots ≡ some slots' = ground arith in
      let at_d = take_free-slots client d slots slots' taken in
      let at_client = take_free-slots client client slots slots' taken in
      let mine = has_slot-held client slots e' in ground arith
]

-- As many slots as there were, and no client holds two of them.
abbrev pub IsExclusive : ℕ → Slots → Type 0
IsExclusive n slots = (length slots ≡ n) × ((d : ℕ) → held d slots ≤ 1)

release-IsExclusive :
    (n client : ℕ) (slots : Slots)
    → IsExclusive n slots
    → IsExclusive n (zephyr_release_buffers client slots)
release-IsExclusive n client slots (size, h) = (
  (zephyr_release_buffers-slots client client slots).0 ∙ size,
  λ d. let released = zephyr_release_buffers-slots client d slots in let at_d = h d in ground arith,
)

acquire-IsExclusive :
    (n client : ℕ) (slots slots' : Slots)
    → zephyr_acquire_buffers client slots ≡ some slots'
    → IsExclusive n slots
    → IsExclusive n slots'
acquire-IsExclusive n client slots slots' e (size, h) = (
  (zephyr_acquire_buffers-slots client client slots slots' e).0 ∙ size,
  λ d. (zephyr_acquire_buffers-slots client d slots slots' e).2 (h d),
)

-- When the request of a client that holds a slot completes or aborts, any client can get a slot.
pub acquire-release :
    (client d : ℕ) (slots : Slots)
    → has_slot client slots ≡ true
    → (slots' : Slots) × (zephyr_acquire_buffers d (zephyr_release_buffers client slots)
        ≡ some slots')
      × (1 ≤ held d slots')
acquire-release client d slots h =
    let slots₁ = zephyr_release_buffers client slots in
    let released = zephyr_release_buffers-slots client d slots in
    elim (Option-cases (zephyr_acquire_buffers d slots₁)) [
      | inl e ↦ let refused = (zephyr_acquire_buffers-none d slots₁).0 e in absurd (ground arith)
      | inr (slots', e) ↦ (slots', e, (zephyr_acquire_buffers-slots d d slots₁ slots' e).1)
    ]

module _ {S T : Type 0} (env : Platform S) (mesh : Mesh T) (p2p : P2p) where
  pub zephyr_dynamic_handler-IsExclusive :
      (n client : ℕ) (transaction : Transaction) (request : Request) (slots : Slots)
      (s : Server S T)
      → IsExclusive n slots
      → IsExclusive n (zephyr_dynamic_handler env mesh p2p client transaction request slots s).1
  unfolding zephyr_dynamic_handler
  zephyr_dynamic_handler-IsExclusive n client aborted request slots s h =
      release-IsExclusive n client slots h
  zephyr_dynamic_handler-IsExclusive n client complete request slots s h =
      release-IsExclusive n client slots h
  zephyr_dynamic_handler-IsExclusive n client more_data request slots s h = h
  zephyr_dynamic_handler-IsExclusive n client data_final request slots s h =
      let path = before_char b'?' (take 127 request.url) in
      elim (Bool-cases
        (is_get request.method && (is_path path "/" || is_path path "/index.html"))) [
          | inl e ↦ rw (e, zephyr_dynamic_handler) h
          | inr e ↦ elim (Option-cases (zephyr_acquire_buffers client slots)) [
            | inl e' ↦ rw (e, e', zephyr_dynamic_handler) h
            | inr (slots', e') ↦
                rw (e, e', zephyr_dynamic_handler) (acquire-IsExclusive n client slots slots' e' h)
          ]
        ]

  -- Over any calls of the handler there are as many slots as before, and no client holds two.
  pub handle_calls-IsExclusive :
      (n : ℕ) (calls : List Call) (slots : Slots) (s : Server S T)
      → IsExclusive n slots
      → IsExclusive n (handle_calls env mesh p2p calls slots s).0
  unfolding handle_calls
  handle_calls-IsExclusive n [] slots s h = h
  handle_calls-IsExclusive n (call ∷ calls) slots s h =
      handle_calls-IsExclusive n calls _ _
        (zephyr_dynamic_handler-IsExclusive n call.client call.transaction call.request slots s h)
