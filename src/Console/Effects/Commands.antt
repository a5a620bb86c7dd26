-- ===== src/Console/Effects/Commands.antt =====
-- What the commands on the settings do.
use mqtt_field_bridge_app.Base.{arith, refl, inl, inr, Option-cases, Option, none, some, Bytes}
use mqtt_field_bridge_app.Config.{Platform, get_settings, network_mode_from_name}
use mqtt_field_bridge_app.Console.State.{Console, pc_write}
use mqtt_field_bridge_app.Console.Commands.{
  cmd_ip, cmd_mode, cmd_dhcp, set_broker, cmd_broker, cmd_broker_port, cmd_broker_fallback_port,
  cmd_broker_ip, cmd_bridge_port,
}
use mqtt_field_bridge_app.Console.Sized.{
  u16_of-bound, copied, with_network-IsSized, with_broker-IsSized, static_network-IsSized,
  same_addresses,
}
use mqtt_field_bridge_app.Console.Effects.{Does, shows, save_and_report-Does, with_token-Does}

module _ {S : Type 0} (env : Platform S) where
  pub cmd_ip-Does : (save : Bytes) (t : Console S) → Does env t (cmd_ip env save t)
  unfolding cmd_ip
  cmd_ip-Does save = with_token-Does env _ _ _ (λ token t.
      save_and_report-Does env _ _ _ t (λ h. static_network-IsSized t.config.settings h _ _ _))

  pub cmd_mode-Does : (save : Bytes) (t : Console S) → Does env t (cmd_mode env save t)
  unfolding cmd_mode pc_write
  cmd_mode-Does save = with_token-Does env _ _ _ (λ token t.
      elim (Option-cases (network_mode_from_name (some token))) [
        | inl e ↦ rw e (shows refl refl)
        | inr (mode, e) ↦ rw e (
            save_and_report-Does env _ _ _ t (λ h.
              with_network-IsSized t.config.settings h _ (same_addresses t.config.settings h _ _)
                h.dhcp_enabled))
      ])

  pub cmd_dhcp-Does : (t : Console S) → Does env t (cmd_dhcp env t)
  unfolding cmd_dhcp get_settings
  cmd_dhcp-Does t = save_and_report-Does env _ _ _ t (λ h.
      with_network-IsSized t.config.settings h _ (same_addresses t.config.settings h _ _)
        (omega arith))

  set_broker-Does :
      (p2p ip : Option Bytes) (mqtt : Bytes) (t : Console S)
      → Does env t (set_broker env p2p ip mqtt t.config.settings t)
  unfolding set_broker pc_write
  set_broker-Does none ip mqtt t = shows refl refl
  set_broker-Does (some p2p) none mqtt t = save_and_report-Does env _ _ _ t (λ h.
      with_broker-IsSized t.config.settings h _ _ _ _ _ h.broker_ip (u16_of-bound _)
        (u16_of-bound _) h.fallback_port h.broker_enabled)
  set_broker-Does (some p2p) (some ip) mqtt t = save_and_report-Does env _ _ _ t (λ h.
      with_broker-IsSized t.config.settings h _ _ _ _ _
        (copied t.config.settings.broker.broker_ip ip h.broker_ip) (u16_of-bound _) (u16_of-bound _)
        h.fallback_port h.broker_enabled)

  pub cmd_broker-Does : (save : Bytes) (t : Console S) → Does env t (cmd_broker env save t)
  unfolding cmd_broker
  cmd_broker-Does save = with_token-Does env _ _ _ (set_broker-Does _ _)

  pub cmd_broker_port-Does :
      (save : Bytes) (t : Console S) → Does env t (cmd_broker_port env save t)
  unfolding cmd_broker_port
  cmd_broker_port-Does save = with_token-Does env _ _ _ (λ token t.
      save_and_report-Does env _ _ _ t (λ h.
        with_broker-IsSized t.config.settings h _ _ _ _ _ h.broker_ip (u16_of-bound _) h.p2p_port
          h.fallback_port h.broker_enabled))

  pub cmd_broker_fallback_port-Does :
      (save : Bytes) (t : Console S) → Does env t (cmd_broker_fallback_port env save t)
  unfolding cmd_broker_fallback_port
  cmd_broker_fallback_port-Does save = with_token-Does env _ _ _ (λ token t.
      save_and_report-Does env _ _ _ t (λ h.
        with_broker-IsSized t.config.settings h _ _ _ _ _ h.broker_ip h.mqtt_port h.p2p_port
          (u16_of-bound _) h.broker_enabled))

  pub cmd_broker_ip-Does : (save : Bytes) (t : Console S) → Does env t (cmd_broker_ip env save t)
  unfolding cmd_broker_ip
  cmd_broker_ip-Does save = with_token-Does env _ _ _ (λ token t.
      save_and_report-Does env _ _ _ t (λ h.
        with_broker-IsSized t.config.settings h _ _ _ _ _
          (copied t.config.settings.broker.broker_ip token h.broker_ip) h.mqtt_port h.p2p_port
          h.fallback_port h.broker_enabled))

  pub cmd_bridge_port-Does :
      (save : Bytes) (t : Console S) → Does env t (cmd_bridge_port env save t)
  unfolding cmd_bridge_port
  cmd_bridge_port-Does save = with_token-Does env _ _ _ (λ token t.
      save_and_report-Does env _ _ _ t (λ h.
        with_broker-IsSized t.config.settings h _ _ _ _ _ h.broker_ip h.mqtt_port (u16_of-bound _)
          h.fallback_port h.broker_enabled))
