-- ===== src/Config/Migration.antt =====
-- Settings saved by the first settings format.
use mqtt_field_bridge_app.Base.{
  ◌≡◌, refl, ap, ◌∙◌, none, some, ok, fail, arith, sym, cstr, take, ◌-◌, cstr-strncpy, cstr-IsText,
}
use mqtt_field_bridge_app.Config.Data.{SettingsV1, Settings, host_max, site_max, topic_max}
use mqtt_field_bridge_app.Config.Validate.{validate_settings}
use mqtt_field_bridge_app.Config.Store.{Platform, IsPersistent}
use mqtt_field_bridge_app.Config.Ops.{
  Config, settings_key, from_v1, validated, load_legacy_settings, persist_save_settings,
  restore_legacy, restore_settings, persist_load, init, has_saved_settings, get_settings,
}
use mqtt_field_bridge_app.Config.Valid.{IsValid}
use mqtt_field_bridge_app.Config.Persist.{start_from, validated_valid}

-- What the new settings have of the old ones.
pub record IsTakenOver (old : SettingsV1) (x : Settings) : Type 0 where
  pub system : x.system ≡ old.system
  pub network : x.network ≡ old.network
  pub broker_ip : cstr x.broker.broker_ip ≡ take (host_max - 1) (cstr old.broker.broker_ip)
  pub site_id : cstr x.broker.site_id ≡ take (site_max - 1) (cstr old.broker.site_id)
  pub topic_prefix :
      cstr x.broker.topic_prefix ≡ take (topic_max - 1) (cstr old.broker.topic_prefix)
  pub mqtt_port : x.broker.mqtt_port ≡ old.broker.mqtt_port
  pub p2p_port : x.broker.p2p_port ≡ old.broker.p2p_port
  pub fallback_port : x.broker.fallback_port ≡ 1884
  pub broker_enabled : x.broker.broker_enabled ≡ old.broker.broker_enabled
  pub bridge_enabled : x.broker.bridge_enabled ≡ old.broker.bridge_enabled
  pub mesh_enabled : x.broker.mesh_enabled ≡ old.broker.mesh_enabled

from_v1-IsTakenOver : (old : SettingsV1) → IsTakenOver old (from_v1 old)
unfolding from_v1
from_v1-IsTakenOver old = record {
  system = refl;
  network = refl;
  broker_ip = cstr-strncpy _ (cstr old.broker.broker_ip) _ refl (cstr-IsText old.broker.broker_ip);
  site_id = cstr-strncpy _ (cstr old.broker.site_id) _ refl (cstr-IsText old.broker.site_id);
  topic_prefix =
      cstr-strncpy _ (cstr old.broker.topic_prefix) _ refl (cstr-IsText old.broker.topic_prefix);
  mqtt_port = refl;
  p2p_port = refl;
  fallback_port = refl;
  broker_enabled = refl;
  bridge_enabled = refl;
  mesh_enabled = refl;
}

validated-none : validated none ≡ none
unfolding validated
validated-none = refl

module _ {S : Type 0} (env : Platform S) (laws : IsPersistent env) where
  -- The start that finds the old format: it takes the old values and saves them in the new format.
  migrates :
      (c : Config S) (old : SettingsV1)
      → (env.store_init c.store).0 ≡ ok
      → env.load_settings c.store settings_key ≡ none
      → env.load_v1 c.store settings_key ≡ some old
      → IsValid (from_v1 old)
      → ((init env c).settings ≡ from_v1 old)
        × ((init env c).settings_loaded_from_store ≡ 1)
        × ((init env c).store
            ≡ (env.save_settings (env.store_init c.store).1 settings_key (from_v1 old)).1)
  unfolding init persist_load restore_settings restore_legacy load_legacy_settings
      persist_save_settings
  migrates c old ready missing found valid =
      let gone = laws.init_settings c.store settings_key ∙ missing in
      let there = laws.init_v1 c.store settings_key ∙ found in
      ground (arith, gone, there, validated_valid (from_v1 old) valid, validated-none)

  -- Over a persistent store that starts and has settings of the first format only, if they validate
  -- with the fallback port 1884, the first start can save them, and the store starts again: the
  -- first start takes them over, and the next start loads the same settings in the new format. They
  -- have the device's name, the network, the ports and the flags as they were, the three texts of
  -- the broker, cut to their arrays, and the fallback port 1884.
  pub init-init_v1 :
      (c : Config S) (old : SettingsV1)
      → (env.store_init c.store).0 ≡ ok
      → env.load_settings c.store settings_key ≡ none
      → env.load_v1 c.store settings_key ≡ some old
      → IsValid (from_v1 old)
      → (env.save_settings (env.store_init c.store).1 settings_key (from_v1 old)).0 ≡ ok
      → (env.store_init (init env c).store).0 ≡ ok
      → let x = (init env c).settings in
        IsTakenOver old x
        × (env.load_settings (init env c).store settings_key ≡ some x)
        × (get_settings env (init env (init env c)) ≡ some x)
        × (has_saved_settings env (init env (init env c)) ≡ 1)
  unfolding get_settings has_saved_settings
  init-init_v1 c old ready missing found valid saved again =
      let (now, loaded, after) = migrates c old ready missing found valid in
      let kept =
        ap (λ s. env.load_settings s settings_key) after
        ∙ laws.saved_settings (env.store_init c.store).1 settings_key (from_v1 old) saved in
      let second = start_from env laws (init env c) (from_v1 old) again kept valid in
      (
        rw now (from_v1-IsTakenOver old),
        kept ∙ ap some (sym now),
        ap (λ (r : Config S). some r.settings) second ∙ ap some (sym now),
        rw second refl,
      )

-- Old settings whose broker port is 1884 do not validate: the new fallback port is the same.
pub from_v1_clash :
    (old : SettingsV1) → old.broker.mqtt_port ≡ 1884 → validate_settings (some (from_v1 old)) ≡ fail
unfolding from_v1 validate_settings
from_v1_clash old h = ground arith
