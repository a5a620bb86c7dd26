-- ===== src/Config/Slots.antt =====
-- The peer slots: what a slot reads as after a set, a new start and a reset.
use mqtt_field_bridge_app.Base.{
  ℕ, zero, suc, ◌+◌, ◌<◌, ◌≡◌, ◌≢◌, refl, ap, ◌∙◌, false, Option, none, some, pos, ok, arith,
  get_elem?, set, length, leb, ◌==◌, if◌then◌else◌, get_elem?-set_self, get_elem?-set_ne,
}
use mqtt_field_bridge_app.Config.Data.{Peer, Settings, zero_peer, peer_max}
use mqtt_field_bridge_app.Config.Validate.{validate_peer}
use mqtt_field_bridge_app.Config.Defaults.{settings_defaults}
use mqtt_field_bridge_app.Config.Store.{Platform, IsPersistent}
use mqtt_field_bridge_app.Config.Ops.{
  Config, settings_key, peer_key_base, or_zero, load_peers, load_legacy_settings, persist_save,
  persist_save_settings, persist_peers, persist_all, commit_settings, restore_legacy,
  restore_settings, persist_load, init, get_peer, set_peer, get_settings, reset_all,
}
use mqtt_field_bridge_app.Config.Valid.{settings_defaults-IsValid}
use mqtt_field_bridge_app.Config.Persist.{start_from}

module _ {S : Type 0} (env : Platform S) (laws : IsPersistent env) where
  load_peers-get :
      (s : S) (n i k : ℕ)
      → k < n
      → get_elem? (load_peers env s n i) k
        ≡ some (or_zero (env.load_peer s (peer_key_base + (i + k))))
  unfolding load_peers
  load_peers-get s zero i k h = elim h [ ]
  load_peers-get s (suc n) i zero h = let e : i + 0 ≡ i = omega arith in rw e
  load_peers-get s (suc n) i (suc k) h =
      let e : i + 1 + k ≡ i + suc k = omega arith in
      load_peers-get s n (i + 1) k (omega arith) ∙ rw e

  restore_legacy-peers :
      (c : Config S) (o : Option Settings) → (restore_legacy env c o).peers ≡ c.peers
  unfolding restore_legacy persist_save_settings
  restore_legacy-peers c none = refl
  restore_legacy-peers c (some x) = refl

  restore_settings-peers : (c : Config S) → (restore_settings env c).peers ≡ c.peers
  unfolding restore_settings
  restore_settings-peers c =
      ground (arith, restore_legacy-peers c (load_legacy_settings env c.store))

  init-peers :
      (c : Config S)
      → (env.store_init c.store).0 ≡ ok
      → (init env c).peers ≡ load_peers env (env.store_init c.store).1 peer_max 0
  unfolding init persist_load
  init-peers c ready = rw ready (restore_settings-peers _)

  -- A slot after a start: the stored peer, or zeros.
  pub init-get_peer :
      (c : Config S) (k : ℕ)
      → (env.store_init c.store).0 ≡ ok
      → k < peer_max
      → get_peer env (init env c) (pos k)
        ≡ some (or_zero (env.load_peer c.store (peer_key_base + k)))
  unfolding get_peer
  init-get_peer c k ready h =
      let low : leb peer_max k ≡ false = ground arith in
      rw (low, init-peers c ready) (load_peers-get (env.store_init c.store).1 peer_max 0 k h ∙ at_k)
    where
      at_k :
          some (or_zero (env.load_peer (env.store_init c.store).1 (peer_key_base + (0 + k))))
          ≡ some (or_zero (env.load_peer c.store (peer_key_base + k)))
      at_k = let e : 0 + k ≡ k = omega arith in rw (e, laws.init_peer c.store (peer_key_base + k))

  pub set_peer_done :
      (c : Config S) (i : ℕ) (p : Peer)
      → length c.peers ≡ peer_max
      → (set_peer env c (pos i) (some p)).0 ≡ ok
      → (i < peer_max)
        × (validate_peer (some p) ≡ ok)
        × ((env.save_peer c.store (peer_key_base + i) p).0 ≡ ok)
        × ((set_peer env c (pos i) (some p)).1 ≡ record c {
          peers = set c.peers i p;
          store = (env.save_peer c.store (peer_key_base + i) p).1;
        })
  unfolding set_peer persist_save
  set_peer_done c i p slots done = ground (arith, get_elem?-set_self c.peers i p)

  -- A successful product_config_set_peer is for a slot in range and a valid peer. It changes that
  -- slot alone, now and after a new start, and leaves the settings.
  pub set_peer-get_peer :
      (c : Config S) (i k : ℕ) (p : Peer)
      → length c.peers ≡ peer_max
      → (set_peer env c (pos i) (some p)).0 ≡ ok
      → (i < peer_max)
        × (validate_peer (some p) ≡ ok)
        × (get_peer env (set_peer env c (pos i) (some p)).1 (pos k)
            ≡ (if k == i then some p else get_peer env c (pos k)))
        × ((set_peer env c (pos i) (some p)).1.settings ≡ c.settings)
  unfolding get_peer
  set_peer-get_peer c i k p slots done =
      let (low, valid, saved, after) = set_peer_done c i p slots done in
      rw after (
        low,
        valid,
        ground (arith, get_elem?-set_self c.peers i p, get_elem?-set_ne c.peers i k p),
        refl,
      )

  -- A successful product_config_set_peer survives a new start: its slot reads as the peer that was
  -- set, and every other slot as what the store had for it before.
  pub set_peer-init :
      (c : Config S) (i k : ℕ) (p : Peer)
      → length c.peers ≡ peer_max
      → (set_peer env c (pos i) (some p)).0 ≡ ok
      → (env.store_init (set_peer env c (pos i) (some p)).1.store).0 ≡ ok
      → k < peer_max
      → get_peer env (init env (set_peer env c (pos i) (some p)).1) (pos k)
        ≡ (if k == i then some p else some (or_zero (env.load_peer c.store (peer_key_base + k))))
  unfolding or_zero
  set_peer-init c i k p slots done ready h =
      let (low, valid, saved, after) = set_peer_done c i p slots done in
      init-get_peer (set_peer env c (pos i) (some p)).1 k ready h
      ∙ rw after (
          ground (
            arith,
            same,
            λ (ne : k ≢ i).
                laws.other_peer c.store (peer_key_base + i) p (peer_key_base + k)
                  (λ e. ne (omega arith)),
          ))
    where
      same :
          k ≡ i
          → env.load_peer (env.save_peer c.store (peer_key_base + i) p).1 (peer_key_base + k)
            ≡ some p
      same e =
          rw e (laws.saved_peer c.store (peer_key_base + i) p (set_peer_done c i p slots done).2)

  reset_saves :
      (c : Config S)
      → (reset_all env c).0 ≡ ok
      → let z = zero_peer in
        let d = settings_defaults env.device_id in
        let s₁ = (env.save_peer c.store 1 z).1 in
        let s₂ = (env.save_peer s₁ 2 z).1 in
        ((env.save_peer c.store 1 z).0 ≡ ok)
        × ((env.save_peer s₁ 2 z).0 ≡ ok)
        × ((env.save_settings s₂ settings_key d).0 ≡ ok)
        × ((reset_all env c).1.store ≡ (env.save_settings s₂ settings_key d).1)
  unfolding reset_all persist_all persist_peers persist_save commit_settings persist_save_settings
  reset_saves c done = ground arith

  pub zero_slots :
      (s : S) (k : ℕ)
      → k < peer_max
      → (env.save_peer s 1 zero_peer).0 ≡ ok
      → (env.save_peer (env.save_peer s 1 zero_peer).1 2 zero_peer).0 ≡ ok
      → env.load_peer
          (env.save_peer (env.save_peer s 1 zero_peer).1 2 zero_peer).1
          (peer_key_base + k)
        ≡ some zero_peer
  zero_slots s zero h first second =
      laws.other_peer (env.save_peer s 1 zero_peer).1 2 zero_peer 1 (omega arith)
      ∙ laws.saved_peer s 1 zero_peer first
  zero_slots s (suc zero) h first second =
      laws.saved_peer (env.save_peer s 1 zero_peer).1 2 zero_peer second
  zero_slots s (suc (suc k)) h first second = absurd (omega arith)

  -- After a successful product_config_reset_all, also after a new start, the settings are the
  -- defaults and every slot is empty.
  pub reset_all-init :
      (c : Config S) (k : ℕ)
      → (reset_all env c).0 ≡ ok
      → (env.store_init (reset_all env c).1.store).0 ≡ ok
      → k < peer_max
      → (get_settings env (init env (reset_all env c).1) ≡ some (settings_defaults env.device_id))
        × (get_peer env (init env (reset_all env c).1) (pos k) ≡ some zero_peer)
  unfolding get_settings or_zero
  reset_all-init c k done ready h =
      let (first, second, third, after) = reset_saves c done in
      let d = settings_defaults env.device_id in
      let s₁ = (env.save_peer c.store 1 zero_peer).1 in
      let s₂ = (env.save_peer s₁ 2 zero_peer).1 in
      let found =
        ap (λ s. env.load_settings s settings_key) after
        ∙ laws.saved_settings s₂ settings_key d third in
      (
        ap (λ (r : Config S). some r.settings)
            (start_from env laws _ d ready found (settings_defaults-IsValid env.device_id)),
        init-get_peer (reset_all env c).1 k ready h
            ∙ rw after (
                rw (laws.peer_beside_settings s₂ settings_key d (peer_key_base + k) (omega arith))
                  (rw (zero_slots c.store k h first second) refl)),
      )
