-- ===== src/Config/Synced.antt =====
-- A configuration in memory that is what the store holds, and the operations that keep it so.
use mqtt_field_bridge_app.Base.{
  ℕ, zero, suc, ◌+◌, ◌<◌, ◌≡◌, ◌≢◌, refl, sym, ap, ◌∙◌, inl, inr, Bool-cases, some, ℤ, pos, negsuc,
  ok, fail, arith, get_elem?, set, ◌==◌, get_elem?-set_self, get_elem?-set_ne, false, leb,
}
use mqtt_field_bridge_app.Config.Data.{Peer, Settings, zero_peer, peer_max}
use mqtt_field_bridge_app.Config.Store.{Platform, IsPersistent}
use mqtt_field_bridge_app.Config.Ops.{
  Config, settings_key, peer_key_base, zero_peers, or_zero, persist_save, persist_save_settings,
  persist_peers, persist_all, commit_settings, init, get_peer, set_peer, get_settings, set_settings,
  reset_all, apply_defaults,
}
use mqtt_field_bridge_app.Config.Valid.{
  IsWellFormed, settings_defaults-IsValid, settings_large_defaults-IsValid, set_peer-IsWellFormed,
  IsValid,
}
use mqtt_field_bridge_app.Config.Persist.{start_from, set_settings_done}
use mqtt_field_bridge_app.Config.Slots.{init-get_peer, set_peer_done, zero_slots}

-- Well-formed, and the store holds these settings and, in each slot, this peer.
pub record IsSynced {S : Type 0} (env : Platform S) (c : Config S) : Type 0 where
  pub form : IsWellFormed c
  pub saved : env.load_settings c.store settings_key ≡ some c.settings
  pub slot :
      (k : ℕ)
      → k < peer_max
      → get_elem? c.peers k ≡ some (or_zero (env.load_peer c.store (peer_key_base + k)))

module _ {S : Type 0} (env : Platform S) (laws : IsPersistent env) where
  pub set_settings-IsSynced :
      (c : Config S) (x : Settings)
      → IsSynced env c
      → (set_settings env c (some x)).0 ≡ ok
      → IsSynced env (set_settings env c (some x)).1
  set_settings-IsSynced c x h done =
      let (valid, saved, after) = set_settings_done env c x done in
      rw after (record {
        form = record { valid = valid; slots = h.form.slots };
        saved = laws.saved_settings c.store settings_key x saved;
        slot = λ k low.
            h.slot k low
            ∙ sym (
                ap (λ p. some (or_zero p))
                  (laws.peer_beside_settings c.store settings_key x (peer_key_base + k)
                    (omega arith)));
      })

  slot_behind_set :
      (c : Config S) (i k : ℕ) (p : Peer)
      → IsSynced env c
      → (i < peer_max)
      → (env.save_peer c.store (peer_key_base + i) p).0 ≡ ok
      → k < peer_max
      → get_elem? (set c.peers i p) k
        ≡ some (
            or_zero
              (env.load_peer (env.save_peer c.store (peer_key_base + i) p).1 (peer_key_base + k)))
  unfolding or_zero
  slot_behind_set c i k p h low saved low' = elim (Bool-cases (k == i)) [
    | inl e ↦
        let same : k ≡ i = ground arith in
        rw (same, laws.saved_peer c.store (peer_key_base + i) p saved)
          (get_elem?-set_self c.peers i p (omega (arith, h.form.slots)))
    | inr e ↦
        let other : i ≢ k = ground arith in
        get_elem?-set_ne c.peers i k p other
        ∙ h.slot k low'
        ∙ sym (
            ap (λ q. some (or_zero q))
              (laws.other_peer c.store (peer_key_base + i) p (peer_key_base + k)
                (λ e'. other (omega arith))))
  ]

  set_slot-IsSynced :
      (c : Config S) (i : ℕ) (p : Peer)
      → IsSynced env c
      → (set_peer env c (pos i) (some p)).0 ≡ ok
      → IsSynced env (set_peer env c (pos i) (some p)).1
  set_slot-IsSynced c i p h done =
      let (low, valid, saved, after) = set_peer_done env laws c i p h.form.slots done in
      let form = set_peer-IsWellFormed env c (pos i) (some p) h.form in
      rw after (record {
        form = rw (sym after) form;
        saved =
            laws.settings_beside_peer c.store (peer_key_base + i) p settings_key (omega arith)
            ∙ h.saved;
        slot = λ k low'. slot_behind_set c i k p h low saved low';
      })

  pub set_peer-IsSynced :
      (c : Config S) (i : ℤ) (p : Peer)
      → IsSynced env c
      → (set_peer env c i (some p)).0 ≡ ok
      → IsSynced env (set_peer env c i (some p)).1
  unfolding set_peer
  set_peer-IsSynced c (negsuc n) p h done = cc
  set_peer-IsSynced c (pos i) p h done = set_slot-IsSynced c i p h done

  -- What persist_all has done with cleared slots.
  persist_all_done :
      (c : Config S) (x : Settings)
      → let cleared = record c { peers = zero_peers; settings = x } in
        let s₁ = (env.save_peer c.store 1 zero_peer).1 in
        let s₂ = (env.save_peer s₁ 2 zero_peer).1 in
        (persist_all env cleared).0 ≡ ok
        → ((env.save_peer c.store 1 zero_peer).0 ≡ ok)
          × ((env.save_peer s₁ 2 zero_peer).0 ≡ ok)
          × ((env.save_settings s₂ settings_key x).0 ≡ ok)
          × ((persist_all env cleared).1 ≡ record cleared {
            settings_loaded_from_store = 1;
            store = (env.save_settings s₂ settings_key x).1;
          })
  unfolding persist_all persist_peers persist_save commit_settings persist_save_settings
  persist_all_done c x done = ground arith

  persist_all-IsSynced :
      (c : Config S) (x : Settings)
      → IsValid x
      → (persist_all env (record c { peers = zero_peers; settings = x })).0 ≡ ok
      → IsSynced env (persist_all env (record c { peers = zero_peers; settings = x })).1
  unfolding or_zero
  persist_all-IsSynced c x valid done =
      let (first, second, third, after) = persist_all_done c x done in
      let s₂ = (env.save_peer (env.save_peer c.store 1 zero_peer).1 2 zero_peer).1 in
      rw after (record {
        form = record { valid = valid; slots = refl };
        saved = laws.saved_settings s₂ settings_key x third;
        slot = λ k low.
            zero_slot k low
            ∙ sym (
                ap (λ q. some (or_zero q))
                  (laws.peer_beside_settings s₂ settings_key x (peer_key_base + k) (omega arith)
                    ∙ zero_slots env laws c.store k low first second));
      })
    where
      zero_slot : (k : ℕ) → k < peer_max → get_elem? zero_peers k ≡ some (or_zero (some zero_peer))
      zero_slot zero low = refl
      zero_slot (suc zero) low = refl
      zero_slot (suc (suc k)) low = absurd (omega arith)

  pub reset_all-IsSynced :
      (c : Config S) → (reset_all env c).0 ≡ ok → IsSynced env (reset_all env c).1
  unfolding reset_all
  reset_all-IsSynced c = persist_all-IsSynced c _ (settings_defaults-IsValid env.device_id)

  pub apply_defaults-IsSynced :
      (c : Config S) (profile : ℕ)
      → (apply_defaults env c profile).0 ≡ ok
      → IsSynced env (apply_defaults env c profile).1
  unfolding apply_defaults
  apply_defaults-IsSynced c zero done =
      persist_all-IsSynced c _ (settings_defaults-IsValid env.device_id) done
  apply_defaults-IsSynced c (suc zero) done =
      persist_all-IsSynced c _ (settings_large_defaults-IsValid env.device_id) done
  apply_defaults-IsSynced c (suc (suc n)) done = absurd (fail_ok (sym (unknown n) ∙ done))
    where
      unknown : (n : ℕ) → (apply_defaults env c (suc (suc n))).0 ≡ fail
      unknown n = ground arith

      fail_ok : fail ≡ ok → ⊥
      fail_ok e = cc

  -- What a new start reads back.
  pub IsSynced-init :
      (c : Config S)
      → IsSynced env c
      → (env.store_init c.store).0 ≡ ok
      → (get_settings env (init env c) ≡ get_settings env c)
        × ((k : ℕ) → k < peer_max → get_peer env (init env c) (pos k) ≡ get_peer env c (pos k))
  unfolding get_settings get_peer
  IsSynced-init c h ready = (
    ap (λ (d : Config S). some d.settings)
        (start_from env laws c c.settings ready h.saved h.form.valid),
    λ k low. init-get_peer env laws c k ready low ∙ sym (same k low),
  )
    where
      same :
          (k : ℕ)
          → k < peer_max
          → get_peer env c (pos k) ≡ some (or_zero (env.load_peer c.store (peer_key_base + k)))
      same k low = let under : leb peer_max k ≡ false = ground arith in rw under (h.slot k low)
