-- ===== src/Console/Ports.antt =====
-- The port of a broker-port line, from its text to the settings.
use mqtt_field_bridge_app.Base.{
  ℕ, ◌%◌, ◌^◌, ◌<◌, ◌≡◌, ◌∙◌, refl, sym, ap, some, [], ◌∷◌, ◌++◌, Bytes, Bool, true, pos, ok, arith,
  codes, equal, ◌≤◌,
}
use mqtt_field_bridge_app.Config.{
  Settings, Platform, get_settings, set_settings, commit_settings, persist_save_settings,
}
use mqtt_field_bridge_app.Runtime.{P2p}
use mqtt_field_bridge_app.Console.Text.{
  is_delim, decimal, u16_of, numeric_menu_command, menu_number, int_max,
}
use mqtt_field_bridge_app.Console.State.{Console, pc_write}
use mqtt_field_bridge_app.Console.Commands.{
  save_and_report, with_token, cmd_broker_port, around, to_apply, save_failed,
}
use mqtt_field_bridge_app.Console.Dispatch.{
  command_of, page_command, setting_command, set_broker_port, run_command, handle_word, handle_line,
}
use mqtt_field_bridge_app.Console.Numbers.{atoi-decimal}
use mqtt_field_bridge_app.Console.Tokens.{next_token-word, next_token-last, decimal-IsWord, IsWord}

abbrev broker_port : Bytes
broker_port = codes "broker-port"

broker_port-IsWord : IsWord broker_port
unfolding is_delim
broker_port-IsWord = (
  λ e. cc,
  (refl, (refl, (refl, (refl, (refl, (refl, (refl, (refl, (refl, (refl, (refl, tt))))))))))),
)

broker_port_command : command_of broker_port ≡ set_broker_port
unfolding command_of page_command setting_command numeric_menu_command menu_number equal
broker_port_command = refl

space_delim : is_delim b' ' ≡ true
unfolding is_delim
space_delim = refl

u16_pos : (n : ℕ) → u16_of (pos n) ≡ n % 2 ^ 16
unfolding u16_of
u16_pos n = refl

-- The settings with another port of the broker.
abbrev pub with_mqtt_port : ℕ → Settings → Settings
with_mqtt_port port x = record x { broker = record x.broker { mqtt_port = port } }

-- The line `broker-port n` with n printed in decimal.
abbrev pub broker_port_line : ℕ → Bytes
broker_port_line n = broker_port ++ b' ' ∷ decimal n

module _ {S : Type 0} (env : Platform S) where
  cmd_broker_port-decimal :
      (n : ℕ) (t : Console S)
      → n ≤ int_max
      → cmd_broker_port env (decimal n) t
        ≡ save_and_report env
            (with_mqtt_port (n % 2 ^ 16) t.config.settings)
            (around (codes "OK saved broker-port=") (decimal (n % 2 ^ 16)) to_apply)
            save_failed
            t
  unfolding cmd_broker_port with_token get_settings
  cmd_broker_port-decimal n t fits =
      rw (next_token-last [] (decimal n) tt (decimal-IsWord n), with_token)
        (rw (atoi-decimal n fits, u16_pos n) refl)

  saved_settings :
      (x : Settings) (shown failed : Bytes) (t : Console S)
      → (save_and_report env x shown failed t).0 ≡ ok
      → ((save_and_report env x shown failed t).1.config.settings ≡ x)
        × ((save_and_report env x shown failed t).1.config.peers ≡ t.config.peers)
  unfolding save_and_report set_settings commit_settings persist_save_settings pc_write
  saved_settings x shown failed t done = ground arith

module _ {S : Type 0} (env : Platform S) (p2p : P2p) (has_reboot : Bool) where
  run_broker_port :
      (n : ℕ) (t : Console S)
      → handle_line env p2p has_reboot (some (broker_port_line n)) t
        ≡ cmd_broker_port env (decimal n) t
  unfolding handle_line handle_word run_command
  run_broker_port n t =
      rw
        (
          next_token-word [] broker_port b' ' (decimal n) tt broker_port-IsWord space_delim,
          handle_line,
        )
        (rw (broker_port_command, handle_word) refl)

  -- A line `broker-port n`, for an n that an int holds, that returns 0 sets the port to n modulo 2^16,
  -- which is n below 2^16, and changes no other setting and no peer.
  pub handle_line_broker_port :
      (n : ℕ) (t : Console S)
      → n ≤ int_max
      → let r = handle_line env p2p has_reboot (some (broker_port_line n)) t in
        r.0 ≡ ok
        → (r.1.config.settings ≡ with_mqtt_port (n % 2 ^ 16) t.config.settings)
          × (r.1.config.peers ≡ t.config.peers)
          × (n < 2 ^ 16 → r.1.config.settings.broker.mqtt_port ≡ n)
  handle_line_broker_port n t fits done =
      let e = run_broker_port n t ∙ cmd_broker_port-decimal env n t fits in
      let kept = saved_settings env _ _ _ t (ap (λ r. r.0) (sym e) ∙ done) in
      rw e (kept.0, kept.1, λ low. ap (λ (x : Settings). x.broker.mqtt_port) kept.0 ∙ below n low)
    where
      below : (n : ℕ) → n < 2 ^ 16 → n % 2 ^ 16 ≡ n
      below n low = omega arith
