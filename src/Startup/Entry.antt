-- ===== src/Startup/Entry.antt =====
-- The thread of the broker, and the long press of the button, in main.c.
use mqtt_field_bridge_app.Base.{
  ℕ, ◌<◌, ◌≡◌, refl, inl, inr, Bool, true, false, Bool-cases, Option, none, some, Rc, ok, fail, pos,
  ◌==◌, if◌then◌else◌, codes, arith,
}
use mqtt_field_bridge_app.Config.{
  Settings, Platform, IsPersistent, IsWellFormed, validate_settings, is_ok, get_settings, get_peer,
  reset_all, reset_all-init, init, settings_defaults, zero_peer, peer_max, ok_of,
}
use mqtt_field_bridge_app.Runtime.{broker_started, set_broker_enabled}
use mqtt_field_bridge_app.StatusIo.{set_running}
use mqtt_field_bridge_app.Startup.Service.{Node, fail_with}

-- The port of the second listener; `none` where there is none.
unfoldable pub fallback_of : Option Settings → Option ℕ
fallback_of none = none
fallback_of (some x) =
    if x.broker.fallback_port == x.broker.mqtt_port then none else some x.broker.fallback_port

module _ {S T : Type 0} (env : Platform S) (has_led : Bool) where
  -- With the result of broker_init. The port that a second listener is asked for, and whether the mesh
  -- and the broker are run; the result of the listener is only logged.
  unfoldable pub broker_service_entry : Rc → ℕ → Node S T → Node S T × Option ℕ × Bool
  broker_service_entry fail now t =
      (fail_with has_led (codes "broker_init failed") now t, none, false)
  broker_service_entry ok now t =
      (record t { status = broker_started t.status }, fallback_of (get_settings env t.config), true)

  -- The node, and whether a reboot is scheduled.
  unfoldable pub status_config_reset_press : ℕ → Node S T → Node S T × Bool
  status_config_reset_press now t =
      let (rc, c) = reset_all env t.config in
      if is_ok rc
      then (
        record t {
          config = c;
          lamp = set_running has_led false false 0 now t.lamp;
          status = (set_broker_enabled 0 t.status).1;
        },
        true,
      )
      else (record t { config = c }, false)

  -- Behind broker_init, settings that validate give the second listener a port that is not the first
  -- one's.
  pub broker_service_entry_listens :
      (now : ℕ) (t : Node S T)
      → IsWellFormed t.config
      → let (t', fallback, runs) = broker_service_entry ok now t in
        (fallback ≡ some t.config.settings.broker.fallback_port)
        × ((t.config.settings.broker.fallback_port == t.config.settings.broker.mqtt_port) ≡ false)
        × (runs ≡ true)
  unfolding broker_service_entry fallback_of get_settings validate_settings
  broker_service_entry_listens now t h =
      let valid = h.valid in
      let differ : (t.config.settings.broker.fallback_port == t.config.settings.broker.mqtt_port)
          ≡ false =
        ground arith in
      (rw differ refl, differ, refl)

module _ {S T : Type 0} (env : Platform S) (laws : IsPersistent env) (has_led : Bool) where
  -- Over a persistent store, a long press that schedules a reboot leaves a node that starts with the
  -- defaults and with empty slots.
  pub status_config_reset_press-init :
      (now : ℕ) (t : Node S T) (k : ℕ)
      → (status_config_reset_press env has_led now t).1 ≡ true
      → (env.store_init (status_config_reset_press env has_led now t).0.config.store).0 ≡ ok
      → k < peer_max
      → let c = init env (status_config_reset_press env has_led now t).0.config in
        (get_settings env c ≡ some (settings_defaults env.device_id))
        × (get_peer env c (pos k) ≡ some zero_peer)
  unfolding status_config_reset_press
  status_config_reset_press-init now t k done ready h =
      elim (Bool-cases (is_ok (reset_all env t.config).0)) [
        | inl e ↦
            let ready' : (env.store_init (reset_all env t.config).1.store).0 ≡ ok = rw e at ready in
            rw (e, status_config_reset_press)
              (reset_all-init env laws t.config k (ok_of _ e) ready' h)
        | inr e ↦ let refused = rw e at done in absurd cc
      ]
