-- ===== src/Config/Stored.antt =====
-- The store, and the settings that are loaded from it, have the sizes of the C records.
use mqtt_field_bridge_app.Base.{
  ℕ, ◌≡◌, sym, inl, inr, Bool-cases, Option-cases, Option, none, some, arith, set, ◌==◌, ℤ, pos,
  negsuc, zero, suc, ◌+◌, leb, ◌||◌, not, get_elem?, Rc,
}
use mqtt_field_bridge_app.Config.Data.{Settings, Peer, profile_small, profile_large, peer_max}
use mqtt_field_bridge_app.Config.Validate.{validate_settings, validate_peer}
use mqtt_field_bridge_app.Config.Store.{Platform}
use mqtt_field_bridge_app.Config.Valid.{persist_peers_keeps, commit_settings_keeps}
use mqtt_field_bridge_app.Config.Ops.{
  is_ok, Config, settings_key, from_v1, validated, load_legacy_settings, persist_save_settings,
  persist_save, restore_legacy, restore_settings, persist_load, init, set_peer, set_settings,
  commit_settings, reset_all, apply_defaults, persist_peers, persist_all,
}
use mqtt_field_bridge_app.Config.Effects.{Effect, kept, by_settings, by_peer, by_reset, by_defaults}
use mqtt_field_bridge_app.Config.Sized.{
  IsSized, IsSizedStore, from_v1-IsSized, settings_defaults-IsSized,
  settings_large_defaults-IsSized,
}

module _ {S : Type 0} (env : Platform S) {Holds : S → Type 0} (laws : IsSizedStore env Holds) where
  persist_save-Holds : (c : Config S) (i : ℕ) → Holds c.store → Holds (persist_save env c i).1.store
  unfolding persist_save
  persist_save-Holds c i h = elim (Option-cases (get_elem? c.peers i)) [
    | inl e ↦ rw (e, persist_save) h
    | inr (p, e) ↦ rw (e, persist_save) (laws.saves_peer c.store _ p h)
  ]

  persist_peers-Holds :
      (n i : ℕ) (c : Config S) → Holds c.store → Holds (persist_peers env c n i).1.store
  unfolding persist_peers
  persist_peers-Holds zero i c h = h
  persist_peers-Holds (suc n) i c h =
      let saved = persist_save-Holds c i h in
      let rest = persist_peers-Holds n (i + 1) (persist_save env c i).1 saved in
      elim (Bool-cases (is_ok (persist_save env c i).0)) [ inl e ↦ rw e rest | inr e ↦ rw e saved ]

  commit_settings-Holds :
      (c : Config S) → IsSized c.settings → Holds c.store → Holds (commit_settings env c).1.store
  unfolding commit_settings persist_save_settings
  commit_settings-Holds c hx h =
      let saved = laws.saves_settings c.store settings_key c.settings h hx in
      elim (Bool-cases (is_ok (env.save_settings c.store settings_key c.settings).0)) [
        | inl e ↦ rw e saved
        | inr e ↦ rw e saved
      ]

  persist_all-Holds :
      (c : Config S) → IsSized c.settings → Holds c.store → Holds (persist_all env c).1.store
  unfolding persist_all
  persist_all-Holds c hx h =
      let saved = persist_peers-Holds peer_max 0 c h in
      let c' = (persist_peers env c peer_max 0).1 in
      let same = (persist_peers_keeps env peer_max 0 c).0 in
      elim (Bool-cases (is_ok (persist_peers env c peer_max 0).0)) [
        | inl e ↦ rw e (commit_settings-Holds c' (rw same hx) saved)
        | inr e ↦ rw e saved
      ]

  pub set_settings-Holds :
      (c : Config S) (x : Settings)
      → IsSized (set_settings env c (some x)).1.settings
      → Holds c.store
      → Holds (set_settings env c (some x)).1.store
  unfolding set_settings
  set_settings-Holds c x hx h = elim (Bool-cases (is_ok (validate_settings (some x)))) [
    | inl e ↦
        let same = (commit_settings_keeps env (record c { settings = x })).0 in
        rw e (commit_settings-Holds (record c { settings = x }) (rw (e, same) at hx) h)
    | inr e ↦ rw e h
  ]

  set_peer-Holds :
      (c : Config S) (i : ℤ) (p : Peer) → Holds c.store → Holds (set_peer env c i (some p)).1.store
  unfolding set_peer
  set_peer-Holds c (negsuc n) p h = h
  set_peer-Holds c (pos i) p h =
      elim (Bool-cases (leb peer_max i || not (is_ok (validate_peer (some p))))) [
        | inl e ↦ rw e h
        | inr e ↦ rw e (persist_save-Holds (record c { peers = set c.peers i p }) i h)
      ]

  pub reset_all-Holds : (c : Config S) → Holds c.store → Holds (reset_all env c).1.store
  unfolding reset_all
  reset_all-Holds c h = persist_all-Holds _ (settings_defaults-IsSized env.device_id) h

  apply_defaults-Holds :
      (c : Config S) (profile : ℕ) → Holds c.store → Holds (apply_defaults env c profile).1.store
  unfolding apply_defaults
  apply_defaults-Holds c profile h = elim (Bool-cases (profile == profile_small)) [
    | inl e ↦ rw e (persist_all-Holds _ (settings_defaults-IsSized env.device_id) h)
    | inr e ↦ elim (Bool-cases (profile == profile_large)) [
      | inl e' ↦ rw (e, e') (persist_all-Holds _ (settings_large_defaults-IsSized env.device_id) h)
      | inr e' ↦ rw (e, e') h
    ]
  ]

  pub Effect-Holds :
      {c c' : Config S} {rc : Rc}
      → Effect env c rc c'
      → IsSized c'.settings
      → Holds c.store
      → Holds c'.store
  Effect-Holds (kept e) hx h = rw e h
  Effect-Holds {c} (by_settings x r e) hx h =
      rw (sym e) (set_settings-Holds c x (rw (sym e) at hx) h)
  Effect-Holds {c} (by_peer i p r e) hx h = rw (sym e) (set_peer-Holds c i p h)
  Effect-Holds {c} (by_reset r e) hx h = rw (sym e) (reset_all-Holds c h)
  Effect-Holds {c} (by_defaults profile r e) hx h = rw (sym e) (apply_defaults-Holds c profile h)

  validated-IsSized :
      (o : Option Settings) {x : Settings}
      → ((y : Settings) → o ≡ some y → IsSized y)
      → validated o ≡ some x
      → IsSized x
  unfolding validated
  validated-IsSized none h e = absurd cc
  validated-IsSized (some y) {x} h e = h x (ground arith)

  load_legacy_settings-IsSized :
      (s : S) {x : Settings} → Holds s → load_legacy_settings env s ≡ some x → IsSized x
  unfolding load_legacy_settings
  load_legacy_settings-IsSized s {x} h e = elim (Option-cases (env.load_v1 s settings_key)) [
    | inl e' ↦ absurd cc
    | inr (old, e') ↦
        validated-IsSized (some (from_v1 old))
          (λ y same.
            let z : from_v1 old ≡ y = cc in
            rw (sym z) (from_v1-IsSized old (laws.v1 s settings_key old h e')))
          (ground arith)
  ]

  restore_settings-IsSized :
      (c : Config S)
      → Holds c.store
      → let c' = restore_settings env c in IsSized c'.settings × Holds c'.store
  unfolding restore_settings restore_legacy persist_save_settings
  restore_settings-IsSized c h =
      elim (Option-cases (validated (env.load_settings c.store settings_key))) [
        | inl e ↦ elim (Option-cases (load_legacy_settings env c.store)) [
          | inl e' ↦ rw (e, e', restore_settings) (settings_defaults-IsSized env.device_id, h)
          | inr (x, e') ↦
              let hx = load_legacy_settings-IsSized c.store h e' in
              rw (e, e', restore_settings) (hx, laws.saves_settings c.store settings_key x h hx)
        ]
        | inr (x, e) ↦
            rw (e, restore_settings)
              (validated-IsSized _ (λ y. laws.settings c.store settings_key y h) e, h)
      ]

  -- The start over such a store.
  pub init-IsSized :
      (c : Config S) → Holds c.store → IsSized (init env c).settings × Holds (init env c).store
  unfolding init persist_load
  init-IsSized c h =
      let started = laws.starts c.store h in
      elim (Bool-cases (is_ok (env.store_init c.store).0)) [
        | inl e ↦ rw e (restore_settings-IsSized _ started)
        | inr e ↦ rw e (settings_defaults-IsSized env.device_id, started)
      ]
