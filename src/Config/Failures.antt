-- ===== src/Config/Failures.antt =====
-- What a call of product_config_set_settings leaves that returns -1, in memory and for the next start.
use mqtt_field_bridge_app.Base.{◌≡◌, ◌⊎◌, inl, inr, ap, ◌∙◌, none, some, ok, fail, arith}
use mqtt_field_bridge_app.Config.Data.{Settings}
use mqtt_field_bridge_app.Config.Store.{Platform, IsPersistent}
use mqtt_field_bridge_app.Config.Ops.{
  Config, settings_key, persist_save_settings, commit_settings, init, get_settings, set_settings,
}
use mqtt_field_bridge_app.Config.Valid.{IsValid}
use mqtt_field_bridge_app.Config.Persist.{start_from}
use mqtt_field_bridge_app.Config.Synced.{IsSynced}

module _ {S : Type 0} (env : Platform S) where
  set_settings_refused :
      (c : Config S) (x : Settings) → ¬ IsValid x → set_settings env c (some x) ≡ (fail, c)
  unfolding set_settings
  set_settings_refused c x invalid = ground arith

  set_settings_unsaved :
      (c : Config S) (x : Settings)
      → IsValid x
      → (set_settings env c (some x)).0 ≡ fail
      → (set_settings env c (some x)).1
        ≡ record c { settings = x; store = (env.save_settings c.store settings_key x).1 }
  unfolding set_settings commit_settings persist_save_settings
  set_settings_unsaved c x valid failed = ground arith

module _ {S : Type 0} (env : Platform S) (laws : IsPersistent env) where
  -- Over a persistent store, from a memory and a store that agree, where the store starts again
  -- after the call: if product_config_set_settings returns -1 for settings that do not validate,
  -- then they change nothing, and the next start has the old settings. If it returns -1 for
  -- settings that validate, then the program goes on with the new ones, and the next start has the
  -- new ones or the old ones, unless the store has lost both.
  pub set_settings-init_fails :
      (c : Config S) (x : Settings)
      → IsSynced env c
      → (set_settings env c (some x)).0 ≡ fail
      → (env.store_init (set_settings env c (some x)).1.store).0 ≡ ok
      → let c' = (set_settings env c (some x)).1 in
        (¬ IsValid x → (c' ≡ c) × (get_settings env (init env c') ≡ get_settings env c))
        × (IsValid x
            → (get_settings env c' ≡ some x)
              × (c'.peers ≡ c.peers)
              × (c'.settings_loaded_from_store ≡ c.settings_loaded_from_store)
              × ((get_settings env (init env c') ≡ some x)
                  ⊎ (get_settings env (init env c') ≡ get_settings env c)
                  ⊎ (env.load_settings c'.store settings_key ≡ none)))
  unfolding get_settings
  set_settings-init_fails c x synced failed ready =
      let c' = (set_settings env c (some x)).1 in
      (
        λ invalid.
            let same = ap (λ r. r.1) (set_settings_refused env c x invalid) in
            let store' = ap (λ (d : Config S). env.load_settings d.store settings_key) same in
            (
              same,
              ap (λ (d : Config S). some d.settings)
                  (start_from env laws c' c.settings ready (store' ∙ synced.saved)
                    synced.form.valid),
            ),
        λ valid.
            let after = set_settings_unsaved env c x valid failed in
            let store' = ap (λ (d : Config S). env.load_settings d.store settings_key) after in
            (
              ap (λ (d : Config S). some d.settings) after,
              ap (λ (d : Config S). d.peers) after,
              ap (λ (d : Config S). d.settings_loaded_from_store) after,
              elim (laws.torn_settings c.store settings_key x) [
                | inl lost ↦ inr (inr (store' ∙ lost))
                | inr (inl old) ↦ inr (
                    inl (
                      ap (λ (d : Config S). some d.settings)
                        (start_from env laws c' c.settings ready (store' ∙ (old ∙ synced.saved))
                          synced.form.valid)))
                | inr (inr new) ↦ inl (
                    ap (λ (d : Config S). some d.settings)
                      (start_from env laws c' x ready (store' ∙ new) valid))
              ],
            ),
      )
