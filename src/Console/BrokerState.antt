-- ===== src/Console/BrokerState.antt =====
-- What a broker-state command that succeeds has done.
use mqtt_field_bridge_app.Base.{
  ℕ, zero, suc, ◌≡◌, ◌⊎◌, refl, inl, inr, true, ℤ, pos, negsuc, ok, fail, arith, cstr, equal,
  snprintf,
}
use mqtt_field_bridge_app.Config.{
  Settings, Platform, set_settings, commit_settings, persist_save_settings,
}
use mqtt_field_bridge_app.Runtime.{
  RuntimeStatus, set_broker_enabled, broker_start_requested, copy_str,
}
use mqtt_field_bridge_app.Console.State.{Console, pc_write}
use mqtt_field_bridge_app.Console.Control.{save_broker_state, broker_state_arg}

requested_now : (s : RuntimeStatus) → broker_start_requested (set_broker_enabled 1 s).1 ≡ true
unfolding broker_start_requested set_broker_enabled copy_str snprintf cstr equal
requested_now s = refl

failed : fail ≡ ok → ⊥
failed e = cc

module _ {S : Type 0} (env : Platform S) where
  save_broker_state_done :
      (value : ℕ) (x : Settings) (t : Console S)
      → (save_broker_state env value x t).0 ≡ ok
      → (save_broker_state env value x t).1.config.settings.broker.broker_enabled ≡ value
  unfolding save_broker_state set_settings commit_settings persist_save_settings pc_write
  save_broker_state_done value x t done = ground arith

  off_status : (x : Settings) (t : Console S) → (save_broker_state env 0 x t).1.status ≡ t.status
  unfolding save_broker_state pc_write
  off_status x t = ground arith

  on_status :
      (x : Settings) (t : Console S)
      → (save_broker_state env 1 x t).0 ≡ ok
      → (save_broker_state env 1 x t).1.status ≡ (set_broker_enabled 1 t.status).1
  unfolding save_broker_state pc_write
  on_status x t done = ground arith

  -- A change of the broker state that returns 0 was one to 0 or to 1, and the settings have that
  -- value. With 0 the runtime status is left as it was; with 1 a start of the broker is requested.
  pub broker_state_arg_done :
      (value : ℤ) (x : Settings) (t : Console S)
      → let r = broker_state_arg env value x t in
        r.0 ≡ ok
        → ((value ≡ pos 0)
            × (r.1.config.settings.broker.broker_enabled ≡ 0)
            × (r.1.status ≡ t.status))
          ⊎ (value ≡ pos 1)
            × (r.1.config.settings.broker.broker_enabled ≡ 1)
            × (broker_start_requested r.1.status ≡ true)
  unfolding broker_state_arg
  broker_state_arg_done (pos zero) x t done =
      inl (refl, save_broker_state_done 0 x t done, off_status x t)
  broker_state_arg_done (pos (suc zero)) x t done =
      inr
        (refl, save_broker_state_done 1 x t done, rw (on_status x t done) (requested_now t.status))
  broker_state_arg_done (pos (suc (suc n))) x t done = absurd (failed done)
  broker_state_arg_done (negsuc n) x t done = absurd (failed done)
