-- ===== src/Console/Control.antt =====
-- The commands broker-state, peer, defaults, reset and reboot of product_console.c.
use mqtt_field_bridge_app.Base.{
  ℕ, zero, suc, ◌+◌, Bool, Option, none, some, Bytes, ℤ, pos, Rc, ok, fail, ◌==◌, if◌then◌else◌,
  codes, equal,
}
use mqtt_field_bridge_app.Config.{
  Peer, Settings, Platform, profile_small, profile_large, is_ok, get_peer, set_peer, set_settings,
  apply_defaults, reset_all,
}
use mqtt_field_bridge_app.Runtime.{set_broker_enabled}
use mqtt_field_bridge_app.Console.Text.{next_token, atoi, decimal, signed_decimal}
use mqtt_field_bridge_app.Console.State.{Console, pc_write}
use mqtt_field_bridge_app.Console.Commands.{around, to_apply, save_failed, with_token, peer_of}

module _ {S : Type 0} (env : Platform S) where
  -- The end of cmd_broker_state, with the value 0 or 1.
  unfoldable pub save_broker_state : ℕ → Settings → Console S → Rc × Console S
  save_broker_state value x t =
      let (rc, c) =
        set_settings env t.config
          (some (record x { broker = record x.broker { broker_enabled = value } })) in
      let t₁ = record t { config = c } in
      let t₂ =
        if value == 1 then record t₁ { status = (set_broker_enabled 1 t₁.status).1 } else t₁ in
      if is_ok rc
      then (ok, pc_write (around (codes "OK saved broker-state=") (decimal value) to_apply) t₂)
      else (fail, pc_write save_failed t₁)

  unfoldable pub broker_state_arg : ℤ → Settings → Console S → Rc × Console S
  broker_state_arg (pos zero) x t = save_broker_state 0 x t
  broker_state_arg (pos (suc zero)) x t = save_broker_state 1 x t
  broker_state_arg value x t = (fail, pc_write (codes "ERR broker-state must be 0 or 1\n") t)

  unfoldable pub cmd_broker_state : Bytes → Console S → Rc × Console S
  cmd_broker_state save =
      with_token env (codes "ERR usage: broker-state <0|1>\n") (next_token save).0
        (λ token. broker_state_arg (atoi token))

  -- The end of cmd_peer, with the three tokens that it needs.
  unfoldable pub save_peer_at : ℤ → Peer → Console S → Rc × Console S
  save_peer_at index p t =
      let (rc, c) = set_peer env t.config index (some p) in
      let t' = record t { config = c } in
      if is_ok rc
      then (ok, pc_write (around (codes "OK saved peer ") (signed_decimal index) (codes "\n")) t')
      else (fail, pc_write (codes "ERR save peer failed\n") t')

  unfoldable pub change_peer : ℤ → Peer → Console S → Rc × Console S
  change_peer index p t = elim (get_peer env t.config index) [
    | none ↦ (fail, pc_write (codes "ERR invalid peer index\n") t)
    | some old ↦ save_peer_at index p t
  ]

  abbrev pub peer_usage : Bytes
  peer_usage = codes "ERR usage: peer <i> <name> <host> [broker-port] [bridge-port] [0|1]\n"

  unfoldable pub peer_args :
      Option Bytes
      → Option Bytes
      → Option Bytes
      → Option Bytes
      → Option Bytes
      → Option Bytes
      → Console S
      → Rc × Console S
  peer_args (some index) (some name) (some host) mqtt p2p enabled t =
      change_peer (atoi index) (peer_of name host mqtt p2p enabled) t
  peer_args _ _ _ mqtt p2p enabled t = (fail, pc_write peer_usage t)

  unfoldable pub cmd_peer : Bytes → Console S → Rc × Console S
  cmd_peer save t =
      let (index, save₁) = next_token save in
      let (name, save₂) = next_token save₁ in
      let (host, save₃) = next_token save₂ in
      let (mqtt, save₄) = next_token save₃ in
      let (p2p, save₅) = next_token save₄ in
      let (enabled, save₆) = next_token save₅ in peer_args index name host mqtt p2p enabled t

  unfoldable pub use_profile : ℕ → Console S → Rc × Console S
  use_profile profile t =
      let (rc, c) = apply_defaults env t.config profile in
      let t' = record t { config = c } in
      if is_ok rc
      then (ok, pc_write (codes "OK defaults applied; reboot to apply network/broker\n") t')
      else (fail, pc_write (codes "ERR defaults failed\n") t')

  unfoldable pub defaults_arg : Option Bytes → Console S → Rc × Console S
  defaults_arg none t = (fail, pc_write (codes "ERR usage: defaults small|large\n") t)
  defaults_arg (some profile) t =
      if equal profile (codes "small")
      then use_profile profile_small t
      else if equal profile (codes "large")
      then use_profile profile_large t
      else (fail, pc_write (codes "ERR unknown defaults profile\n") t)

  unfoldable pub cmd_defaults : Bytes → Console S → Rc × Console S
  cmd_defaults save t = defaults_arg (next_token save).0 t

  unfoldable pub do_reset : Console S → Rc × Console S
  do_reset t =
      let (rc, c) = reset_all env t.config in
      let t' = record t { config = c } in
      if is_ok rc
      then (ok, pc_write (codes "OK reset defaults; reboot to apply\n") t')
      else (fail, pc_write (codes "ERR reset failed\n") t')

  -- With a reboot callback it is called.
  unfoldable pub do_reboot : Bool → Console S → Rc × Console S
  do_reboot has_reboot t =
      let t' = pc_write (codes "OK rebooting\n") t in
      (ok, if has_reboot then record t' { reboots = t'.reboots + 1 } else t')
