-- ===== src/Console/Effects/Control.antt =====
-- What the commands on the broker's state, the peers, the defaults and the reset do.
use mqtt_field_bridge_app.Base.{
  ℕ, ◌<◌, arith, zero, suc, refl, inl, inr, Bool-cases, Option-cases, Option, none, some, Bytes, ℤ,
  pos, negsuc, ◌==◌, equal, codes,
}
use mqtt_field_bridge_app.Config.{
  Platform, Peer, is_ok, set_settings, set_peer, get_peer, reset_all, apply_defaults, by_settings,
  by_peer, by_reset, by_defaults, ok_of, fail_of, IsSized, set_settings-IsSized, set_peer-settings,
  reset_all-IsSized, apply_defaults-IsSized,
}
use mqtt_field_bridge_app.Runtime.{IsRun-event, enable, on_event}
use mqtt_field_bridge_app.Console.State.{Console, pc_write}
use mqtt_field_bridge_app.Console.Text.{atoi}
use mqtt_field_bridge_app.Console.Sized.{with_broker-IsSized}
use mqtt_field_bridge_app.Console.Control.{
  save_broker_state, broker_state_arg, cmd_broker_state, save_peer_at, change_peer, peer_args,
  cmd_peer, use_profile, defaults_arg, cmd_defaults, do_reset,
}
use mqtt_field_bridge_app.Console.Effects.{Does, does, shows, with_token-Does}

module _ {S : Type 0} (env : Platform S) where
  save_broker_state-Does :
      (value : ℕ) (t : Console S)
      → value < 256
      → Does env t (save_broker_state env value t.config.settings t)
  unfolding save_broker_state pc_write
  save_broker_state-Does value t small =
      let x = t.config.settings in
      let y = record x { broker = record x.broker { broker_enabled = value } } in
      let kept_sizes : IsSized x → IsSized (set_settings env t.config (some y)).1.settings = λ h.
        set_settings-IsSized env t.config y h (
          with_broker-IsSized x h x.broker.broker_ip x.broker.mqtt_port x.broker.p2p_port
            x.broker.fallback_port value h.broker_ip h.mqtt_port h.p2p_port h.fallback_port
            small) in
      elim (Bool-cases (is_ok (set_settings env t.config (some y)).0)) [
        | inl e ↦ elim (Bool-cases (value == 1)) [
          | inl one ↦
              rw (e, one, save_broker_state)
                record {
                  acts = by_settings y (ok_of _ e) refl;
                  runs = IsRun-event (enable 1) (unfold on_event in refl);
                  sized = kept_sizes;
                }
          | inr other ↦
              rw (e, other, save_broker_state)
                (does (by_settings y (ok_of _ e) refl) refl kept_sizes)
        ]
        | inr e ↦
            rw (e, save_broker_state) (does (by_settings y (fail_of _ e) refl) refl kept_sizes)
      ]

  broker_state_arg-Does :
      (value : ℤ) (t : Console S) → Does env t (broker_state_arg env value t.config.settings t)
  unfolding broker_state_arg pc_write
  broker_state_arg-Does (pos zero) t = save_broker_state-Does 0 t (omega arith)
  broker_state_arg-Does (pos (suc zero)) t = save_broker_state-Does 1 t (omega arith)
  broker_state_arg-Does (pos (suc (suc n))) t = shows refl refl
  broker_state_arg-Does (negsuc n) t = shows refl refl

  pub cmd_broker_state-Does :
      (save : Bytes) (t : Console S) → Does env t (cmd_broker_state env save t)
  unfolding cmd_broker_state
  cmd_broker_state-Does save =
      with_token-Does env _ _ _ (λ token. broker_state_arg-Does (atoi token))

  save_peer_at-Does : (i : ℤ) (p : Peer) (t : Console S) → Does env t (save_peer_at env i p t)
  unfolding save_peer_at pc_write
  save_peer_at-Does i p t = elim (Bool-cases (is_ok (set_peer env t.config i (some p)).0)) [
    | inl e ↦ rw e (
        does (by_peer i p (ok_of _ e) refl) refl
          (λ h. rw (set_peer-settings env t.config i (some p)) h))
    | inr e ↦ rw e (
        does (by_peer i p (fail_of _ e) refl) refl
          (λ h. rw (set_peer-settings env t.config i (some p)) h))
  ]

  change_peer-Does : (i : ℤ) (p : Peer) (t : Console S) → Does env t (change_peer env i p t)
  unfolding change_peer pc_write
  change_peer-Does i p t = elim (Option-cases (get_peer env t.config i)) [
    | inl e ↦ rw (e, change_peer) (shows refl refl)
    | inr (old, e) ↦ rw (e, change_peer) (save_peer_at-Does i p t)
  ]

  peer_args-Does :
      (i n a mqtt p2p enabled : Option Bytes) (t : Console S)
      → Does env t (peer_args env i n a mqtt p2p enabled t)
  unfolding peer_args pc_write
  peer_args-Does (some i) (some n) (some a) mqtt p2p enabled t = change_peer-Does _ _ t
  peer_args-Does none n a mqtt p2p enabled t = shows refl refl
  peer_args-Does (some i) none a mqtt p2p enabled t = shows refl refl
  peer_args-Does (some i) (some n) none mqtt p2p enabled t = shows refl refl

  pub cmd_peer-Does : (save : Bytes) (t : Console S) → Does env t (cmd_peer env save t)
  unfolding cmd_peer
  cmd_peer-Does save t = peer_args-Does _ _ _ _ _ _ t

  use_profile-Does : (profile : ℕ) (t : Console S) → Does env t (use_profile env profile t)
  unfolding use_profile pc_write
  use_profile-Does profile t = elim (Bool-cases (is_ok (apply_defaults env t.config profile).0)) [
    | inl e ↦ rw e (
        does (by_defaults profile (ok_of _ e) refl) refl
          (apply_defaults-IsSized env t.config profile))
    | inr e ↦ rw e (
        does (by_defaults profile (fail_of _ e) refl) refl
          (apply_defaults-IsSized env t.config profile))
  ]

  defaults_arg-Does : (o : Option Bytes) (t : Console S) → Does env t (defaults_arg env o t)
  unfolding defaults_arg pc_write
  defaults_arg-Does none t = shows refl refl
  defaults_arg-Does (some profile) t = elim (Bool-cases (equal profile (codes "small"))) [
    | inl e ↦ rw e (use_profile-Does _ t)
    | inr e ↦ rw e (elim (Bool-cases (equal profile (codes "large"))) [
      | inl e' ↦ rw e' (use_profile-Does _ t)
      | inr e' ↦ rw e' (shows refl refl)
    ])
  ]

  pub cmd_defaults-Does : (save : Bytes) (t : Console S) → Does env t (cmd_defaults env save t)
  unfolding cmd_defaults
  cmd_defaults-Does save = defaults_arg-Does _

  pub do_reset-Does : (t : Console S) → Does env t (do_reset env t)
  unfolding do_reset pc_write
  do_reset-Does t = elim (Bool-cases (is_ok (reset_all env t.config).0)) [
    | inl e ↦ rw e (does (by_reset (ok_of _ e) refl) refl (λ h. reset_all-IsSized env t.config))
    | inr e ↦ rw e (does (by_reset (fail_of _ e) refl) refl (λ h. reset_all-IsSized env t.config))
  ]
