-- ===== src/Config/Persist.antt =====
-- What a successful save means after a new start of the program.
use mqtt_field_bridge_app.Base.{◌≡◌, refl, ap, ◌∙◌, some, ok, arith}
use mqtt_field_bridge_app.Config.Data.{Settings, peer_max}
use mqtt_field_bridge_app.Config.Store.{Platform, IsPersistent}
use mqtt_field_bridge_app.Config.Ops.{
  Config, settings_key, validated, load_peers, persist_save_settings, commit_settings,
  restore_settings, persist_load, init, has_saved_settings, get_settings, set_settings,
}
use mqtt_field_bridge_app.Config.Valid.{IsValid}

pub validated_valid : (x : Settings) → IsValid x → validated (some x) ≡ some x
unfolding validated
validated_valid x h = ground arith

module _ {S : Type 0} (env : Platform S) where
  restore_found :
      (c : Config S) (x : Settings)
      → env.load_settings c.store settings_key ≡ some x
      → IsValid x
      → restore_settings env c ≡ record c { settings = x; settings_loaded_from_store = 1 }
  unfolding restore_settings
  restore_found c x found valid = rw (found, validated_valid x valid, restore_settings)

  -- What a successful product_config_set_settings has done.
  pub set_settings_done :
      (c : Config S) (x : Settings)
      → (set_settings env c (some x)).0 ≡ ok
      → IsValid x
        × ((env.save_settings c.store settings_key x).0 ≡ ok)
        × ((set_settings env c (some x)).1 ≡ record c {
          settings = x;
          settings_loaded_from_store = 1;
          store = (env.save_settings c.store settings_key x).1;
        })
  unfolding set_settings commit_settings persist_save_settings
  set_settings_done c x done = (ground arith, ground arith, ground arith)

module _ {S : Type 0} (env : Platform S) (laws : IsPersistent env) where
  -- A start from a store that holds valid settings.
  pub start_from :
      (c : Config S) (x : Settings)
      → (env.store_init c.store).0 ≡ ok
      → env.load_settings c.store settings_key ≡ some x
      → IsValid x
      → init env c ≡ record {
        peers = load_peers env (env.store_init c.store).1 peer_max 0;
        settings = x;
        settings_loaded_from_store = 1;
        store = (env.store_init c.store).1;
      }
  unfolding init persist_load
  start_from c x ready found valid =
      rw ready (restore_found env _ x (laws.init_settings c.store settings_key ∙ found) valid)

  -- The settings that were set are there after a new start, and count as saved.
  pub set_settings-init :
      (c : Config S) (x : Settings)
      → (set_settings env c (some x)).0 ≡ ok
      → (env.store_init (set_settings env c (some x)).1.store).0 ≡ ok
      → (get_settings env (init env (set_settings env c (some x)).1) ≡ some x)
        × (has_saved_settings env (init env (set_settings env c (some x)).1) ≡ 1)
  unfolding get_settings has_saved_settings
  set_settings-init c x done ready =
      let (valid, saved, after) = set_settings_done env c x done in
      let store' = ap (λ (d : Config S). d.store) after in
      let found =
        ap (λ s. env.load_settings s settings_key) store'
        ∙ laws.saved_settings c.store settings_key x saved in
      rw (start_from (set_settings env c (some x)).1 x ready found valid) (refl, refl)
