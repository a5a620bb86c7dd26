-- ===== src/Config/Valid.antt =====
-- The settings in memory always pass the program's own validation.
use mqtt_field_bridge_app.Base.{
  ℕ, zero, suc, ◌+◌, ◌-◌, ◌≡◌, inl, inr, refl, ap, true, Option, none, some, List, [], ◌∷◌, Bytes,
  ℤ, pos, negsuc, ok, arith, is_nonempty, All, length, length-set, set, Bool-cases, Option-cases,
  get_elem?, get_elem?-past, drop, equal, ltb, ◌==◌,
}
use mqtt_field_bridge_app.Config.Data.{Peer, Settings, peer_max, profile_small, profile_large}
use mqtt_field_bridge_app.Config.Validate.{validate_settings}
use mqtt_field_bridge_app.Config.Defaults.{
  KnownBoard, known_boards, known_ip, set_default_ip, apply_known_esp32_default_ip, static_defaults,
  finish_defaults, settings_defaults, settings_large_defaults,
}
use mqtt_field_bridge_app.Config.Store.{Platform}
use mqtt_field_bridge_app.Config.Ops.{
  Config, is_ok, zero_peers, settings_key, from_v1, validated, load_peers, load_legacy_settings,
  persist_save, persist_save_settings, persist_peers, persist_all, commit_settings, restore_legacy,
  restore_settings, persist_load, init, get_peer, set_peer, set_settings, reset_all, apply_defaults,
}

abbrev pub IsValid : Settings → Type 0
IsValid x = validate_settings (some x) ≡ ok

abbrev Nonempty : Option Bytes → Type 0
Nonempty none = Unit
Nonempty (some ip) = is_nonempty ip ≡ true

known_ip-Nonempty :
    (tail : Bytes) (boards : List KnownBoard)
    → All (λ b. is_nonempty b.ip ≡ true) boards
    → Nonempty (known_ip tail boards)
unfolding known_ip
known_ip-Nonempty tail [] h = tt
known_ip-Nonempty tail (b ∷ boards) h = elim (Bool-cases (equal tail b.id_tail)) [
  | inl e ↦ rw e h.0
  | inr e ↦ rw e (known_ip-Nonempty tail boards h.1)
]

defaults_with_ip :
    (o : Option Bytes) → Nonempty o → IsValid (finish_defaults (set_default_ip o static_defaults))
unfolding finish_defaults set_default_ip static_defaults validate_settings
defaults_with_ip none h = refl
defaults_with_ip (some []) h = cc
defaults_with_ip (some (c ∷ ip)) h = ground arith

known_boards_nonempty : All (λ b. is_nonempty b.ip ≡ true) known_boards
known_boards_nonempty = (refl, (refl, (refl, (refl, (refl, (refl, tt))))))

-- The default settings are valid on every board.
pub settings_defaults-IsValid : (device_id : Bytes) → IsValid (settings_defaults device_id)
unfolding settings_defaults apply_known_esp32_default_ip
settings_defaults-IsValid device_id = elim (Bool-cases (ltb (length device_id) 3)) [
  | inl short ↦ rw short (unfold set_default_ip in defaults_with_ip none tt)
  | inr long ↦ rw long (
      let tail = drop (length device_id - 3) device_id in
      defaults_with_ip (known_ip tail known_boards)
        (known_ip-Nonempty tail known_boards known_boards_nonempty))
]

large-IsValid :
    (device_id : Bytes)
    → IsValid (settings_defaults device_id)
    → IsValid (settings_large_defaults device_id)
unfolding settings_large_defaults validate_settings
large-IsValid device_id h = ground arith

pub settings_large_defaults-IsValid :
    (device_id : Bytes) → IsValid (settings_large_defaults device_id)
settings_large_defaults-IsValid device_id =
    large-IsValid device_id (settings_defaults-IsValid device_id)

pub validated-IsValid : (o : Option Settings) {x : Settings} → validated o ≡ some x → IsValid x
unfolding validated
validated-IsValid none h = cc
validated-IsValid (some y) h = ground arith

-- Settings that validate, and one peer for each slot.
pub record IsWellFormed {S : Type 0} (c : Config S) : Type 0 where
  pub valid : IsValid c.settings
  pub slots : length c.peers ≡ peer_max

module _ {S : Type 0} (env : Platform S) where
  length-load_peers : (s : S) (n i : ℕ) → length (load_peers env s n i) ≡ n
  unfolding load_peers
  length-load_peers s zero i = refl
  length-load_peers s (suc n) i = ap suc (length-load_peers s n (i + 1))

  load_legacy_settings-IsValid :
      (s : S) {x : Settings} → load_legacy_settings env s ≡ some x → IsValid x
  unfolding load_legacy_settings
  load_legacy_settings-IsValid s h = elim (Option-cases (env.load_v1 s settings_key)) [
    | inl e ↦ cc
    | inr (old, e) ↦ validated-IsValid (some (from_v1 old)) (ground arith)
  ]

  pub persist_save-settings :
      (c : Config S) (i : ℕ) → (persist_save env c i).1.settings ≡ c.settings
  unfolding persist_save
  persist_save-settings c i = ground arith

  persist_save-peers : (c : Config S) (i : ℕ) → (persist_save env c i).1.peers ≡ c.peers
  unfolding persist_save
  persist_save-peers c i = ground arith

  -- The save loop writes to the store only.
  pub persist_peers_keeps :
      (n i : ℕ) (c : Config S)
      → ((persist_peers env c n i).1.settings ≡ c.settings)
        × ((persist_peers env c n i).1.peers ≡ c.peers)
  unfolding persist_peers
  persist_peers_keeps zero i c = (refl, refl)
  persist_peers_keeps (suc n) i c = ground (
    arith,
    persist_save-settings c i,
    persist_save-peers c i,
    persist_peers_keeps n (i + 1) (persist_save env c i).1,
  )

  pub commit_settings_keeps :
      (c : Config S)
      → ((commit_settings env c).1.settings ≡ c.settings)
        × ((commit_settings env c).1.peers ≡ c.peers)
  unfolding commit_settings persist_save_settings
  commit_settings_keeps c = ground arith

  pub persist_all_keeps :
      (c : Config S)
      → ((persist_all env c).1.settings ≡ c.settings) × ((persist_all env c).1.peers ≡ c.peers)
  unfolding persist_all
  persist_all_keeps c = ground (
    arith,
    persist_peers_keeps peer_max 0 c,
    commit_settings_keeps (persist_peers env c peer_max 0).1,
  )

  restore_legacy-IsWellFormed :
      (c : Config S)
      → length c.peers ≡ peer_max
      → IsWellFormed (restore_legacy env c (load_legacy_settings env c.store))
  unfolding restore_legacy persist_save_settings
  restore_legacy-IsWellFormed c slots = elim (Option-cases (load_legacy_settings env c.store)) [
    | inl e ↦ rw e (record { valid = settings_defaults-IsValid env.device_id; slots = slots })
    | inr (x, e) ↦ rw e (record { valid = load_legacy_settings-IsValid c.store e; slots = slots })
  ]

  restore_settings-IsWellFormed :
      (c : Config S) → length c.peers ≡ peer_max → IsWellFormed (restore_settings env c)
  unfolding restore_settings
  restore_settings-IsWellFormed c slots =
      elim (Option-cases (validated (env.load_settings c.store settings_key))) [
        | inl e ↦ rw (e, restore_settings) (restore_legacy-IsWellFormed c slots)
        | inr (x, e) ↦
            rw (e, restore_settings) (record { valid = validated-IsValid _ e; slots = slots })
      ]

  -- Whatever the store holds, the start ends with settings that validate and one peer for each slot.
  pub init-IsWellFormed : (c : Config S) → IsWellFormed (init env c)
  unfolding init persist_load
  init-IsWellFormed c = elim (Bool-cases (is_ok (env.store_init c.store).0)) [
    | inl e ↦
        rw e (
          restore_settings-IsWellFormed _ (length-load_peers (env.store_init c.store).1 peer_max 0))
    | inr e ↦ rw e (record { valid = settings_defaults-IsValid env.device_id; slots = refl })
  ]

  pub set_peer-IsWellFormed :
      (c : Config S) (i : ℤ) (p : Option Peer)
      → IsWellFormed c
      → IsWellFormed (set_peer env c i p).1
  unfolding set_peer
  set_peer-IsWellFormed c (negsuc n) p h = h
  set_peer-IsWellFormed c (pos i) none h = h
  set_peer-IsWellFormed c (pos i) (some p) h =
      let c' = record c { peers = set c.peers i p } in
      let sizes = length-set c.peers i p in
      ground (arith, persist_save-settings c' i, persist_save-peers c' i, sizes, h.valid, h.slots)

  pub set_settings-IsWellFormed :
      (c : Config S) (x : Option Settings) → IsWellFormed c → IsWellFormed (set_settings env c x).1
  unfolding set_settings
  set_settings-IsWellFormed c none h = h
  set_settings-IsWellFormed c (some x) h =
      ground (arith, commit_settings_keeps (record c { settings = x }))

  persist_all-IsWellFormed : (c : Config S) → IsWellFormed c → IsWellFormed (persist_all env c).1
  persist_all-IsWellFormed c h = record {
    valid = rw (persist_all_keeps c).0 h.valid;
    slots = rw (persist_all_keeps c).1 h.slots;
  }

  -- However far the saves get.
  pub reset_all-IsWellFormed : (c : Config S) → IsWellFormed (reset_all env c).1
  unfolding reset_all
  reset_all-IsWellFormed c =
      persist_all-IsWellFormed _
        (record { valid = settings_defaults-IsValid env.device_id; slots = refl })

  pub apply_defaults-IsWellFormed :
      (c : Config S) (profile : ℕ) → IsWellFormed c → IsWellFormed (apply_defaults env c profile).1
  unfolding apply_defaults
  apply_defaults-IsWellFormed c profile h =
      let cleared = record c { peers = zero_peers } in
      elim (Bool-cases (profile == profile_small)) [
        | inl e ↦ rw e (
            persist_all-IsWellFormed (record cleared { settings = settings_defaults env.device_id })
              (record { valid = settings_defaults-IsValid env.device_id; slots = refl }))
        | inr e ↦ rw e (elim (Bool-cases (profile == profile_large)) [
          | inl e' ↦ rw e' (
              persist_all-IsWellFormed
                (record cleared { settings = settings_large_defaults env.device_id })
                (record { valid = settings_large_defaults-IsValid env.device_id; slots = refl }))
          | inr e' ↦ rw e' (record { valid = h.valid; slots = refl })
        ])
      ]

  -- The slots that a loop from 0 reads.
  pub get_peer-get_elem? :
      (c : Config S) → IsWellFormed c → (k : ℕ) → get_peer env c (pos (0 + k)) ≡ get_elem? c.peers k
  unfolding get_peer
  get_peer-get_elem? c h k =
      let e : 0 + k ≡ k = omega arith in rw e (ground (arith, get_elem?-past c.peers k, h.slots))
