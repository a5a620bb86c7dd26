-- ===== src/Console/Effects.antt =====
-- What a command does to the configuration, nothing or one operation of product_config.c, and to the
-- runtime status; and the two ways in which the commands share it.
pub mod Commands
pub mod Control
use mqtt_field_bridge_app.Base.{
  ℕ, ◌<◌, arith, zero, suc, ◌≡◌, refl, inl, inr, Bool-cases, Option-cases, Option, none, some,
  Bytes, ℤ, pos, negsuc, Rc, ◌==◌, equal, codes,
}
use mqtt_field_bridge_app.Config.{
  Settings, Platform, Peer, is_ok, get_settings, set_settings, set_peer, get_peer, reset_all,
  apply_defaults, network_mode_from_name, Effect, kept, by_settings, by_peer, by_reset, by_defaults,
  ok_of, fail_of, IsSized, set_settings-IsSized, set_peer-settings, reset_all-IsSized,
  apply_defaults-IsSized,
}
use mqtt_field_bridge_app.Runtime.{IsRun, IsRun-kept, IsRun-event, enable, on_event}
use mqtt_field_bridge_app.Console.State.{Console, pc_write}
use mqtt_field_bridge_app.Console.Text.{atoi}
use mqtt_field_bridge_app.Console.Commands.{
  save_and_report, with_token, cmd_ip, cmd_mode, cmd_dhcp, set_broker, cmd_broker, cmd_broker_port,
  cmd_broker_fallback_port, cmd_broker_ip, cmd_bridge_port,
}
use mqtt_field_bridge_app.Console.Sized.{
  u16_of-bound, copied, with_network-IsSized, with_broker-IsSized, static_network-IsSized,
  same_addresses,
}
use mqtt_field_bridge_app.Console.Control.{
  save_broker_state, broker_state_arg, cmd_broker_state, save_peer_at, change_peer, peer_args,
  cmd_peer, use_profile, defaults_arg, cmd_defaults, do_reset,
}

abbrev pub Acts : {S : Type 0} → Platform S → Console S → Rc × Console S → Type 0
Acts env t r = Effect env t.config r.0 r.1.config

-- One operation on the configuration at most, some events of the status, and settings of the sizes
-- of the C records, where they were of these sizes.
pub record Does {S : Type 0} (env : Platform S) (t : Console S) (r : Rc × Console S) : Type 0 where
  pub acts : Acts env t r
  pub runs : IsRun t.status r.1.status
  pub sized : IsSized t.config.settings → IsSized r.1.config.settings

module _ {S : Type 0} {env : Platform S} {t : Console S} {r : Rc × Console S} where
  pub does :
      Acts env t r
      → r.1.status ≡ t.status
      → (IsSized t.config.settings → IsSized r.1.config.settings)
      → Does env t r
  does acts same sized = record { acts = acts; runs = IsRun-kept same; sized = sized }

  pub shows : r.1.config ≡ t.config → r.1.status ≡ t.status → Does env t r
  shows e same = does (kept e) same (λ h. rw e h)

module _ {S : Type 0} (env : Platform S) where
  pub save_and_report-Does :
      (x : Settings) (done failed : Bytes) (t : Console S)
      → (IsSized t.config.settings → IsSized x)
      → Does env t (save_and_report env x done failed t)
  unfolding save_and_report pc_write
  save_and_report-Does x done failed t sized =
      let kept_sizes : IsSized t.config.settings
          → IsSized (set_settings env t.config (some x)).1.settings =
        λ h. set_settings-IsSized env t.config x h (sized h) in
      elim (Bool-cases (is_ok (set_settings env t.config (some x)).0)) [
        | inl e ↦ rw e (does (by_settings x (ok_of _ e) refl) refl kept_sizes)
        | inr e ↦ rw e (does (by_settings x (fail_of _ e) refl) refl kept_sizes)
      ]

  pub with_token-Does :
      (usage : Bytes) (o : Option Bytes) (change : Bytes → Settings → Console S → Rc × Console S)
      → ((token : Bytes) (t : Console S) → Does env t (change token t.config.settings t))
      → (t : Console S) → Does env t (with_token env usage o change t)
  unfolding with_token get_settings pc_write
  with_token-Does usage none change keeps t = shows refl refl
  with_token-Does usage (some token) change keeps t = keeps token t
