-- ===== src/Console/Lines.antt =====
-- What a line does: at most one operation on the configuration, and events of the status.
use mqtt_field_bridge_app.Base.{
  ℕ, zero, suc, refl, ◌∙◌, inl, inr, Bool, Bool-cases, Option, none, some, List, Bytes, ok,
}
use mqtt_field_bridge_app.Config.{kept, Platform, get_settings}
use mqtt_field_bridge_app.Runtime.{P2p, get_status, asked, on_event, IsRun-event}
use mqtt_field_bridge_app.Console.State.{
  Menu, render_menu, main, info, settings, device_network, broker, peer_bridge, system, Console,
  pc_write, clear_screen,
}
use mqtt_field_bridge_app.Console.Menus.{
  show_lines, enter_menu, print_help, print_menu, print_info_menu, print_settings_menu,
  print_network_menu, print_broker_menu, print_peer_bridge_menu, print_system_menu, print_usage_ip,
  print_usage_mode, print_usage_broker_port, print_usage_broker_fallback_port,
  print_usage_broker_ip, print_usage_broker_state, print_usage_peer, print_usage_bridge_port,
  print_usage_defaults,
}
use mqtt_field_bridge_app.Console.Show.{cmd_status, cmd_show, cmd_info}
use mqtt_field_bridge_app.Console.Control.{do_reboot}
use mqtt_field_bridge_app.Console.Dispatch.{
  Command, go_back, go_help, go_menu, go_info, go_settings, go_network, go_broker, go_peer_bridge,
  go_system, at_index, do_status, do_summary, do_show, set_ip, set_mode, set_dhcp,
  set_broker_legacy, set_broker_port, set_fallback_port, set_broker_ip, set_bridge_port,
  set_broker_state, set_peer_slot, set_defaults, reset_settings, restart, unknown, command_of,
  cmd_menu_index, run_command, handle_word, handle_line,
}
use mqtt_field_bridge_app.Console.Pages.{pc_writes-Shows, show_lines-Shows}
use mqtt_field_bridge_app.Console.Effects.{Acts, Does, shows}
use mqtt_field_bridge_app.Console.Effects.Commands.{
  cmd_ip-Does, cmd_mode-Does, cmd_dhcp-Does, cmd_broker-Does, cmd_broker_port-Does,
  cmd_broker_fallback_port-Does, cmd_broker_ip-Does, cmd_bridge_port-Does,
}
use mqtt_field_bridge_app.Console.Effects.Control.{
  cmd_broker_state-Does, cmd_peer-Does, cmd_defaults-Does, do_reset-Does,
}

module _ {S : Type 0} (env : Platform S) (p2p : P2p) (has_reboot : Bool) where
  shown : (ls : List Bytes) (t : Console S) → Does env t (ok, show_lines ls t)
  shown ls t = let same = show_lines-Shows ls t in shows same.0 same.1

  do_reboot-Does : (t : Console S) → Does env t (do_reboot env has_reboot t)
  unfolding do_reboot pc_write
  do_reboot-Does t = elim (Bool-cases has_reboot) [
    | inl e ↦ rw e (shows refl refl)
    | inr e ↦ rw e (shows refl refl)
  ]

  cmd_status-Does : (t : Console S) → Does env t (cmd_status env p2p t)
  unfolding cmd_status
  cmd_status-Does t =
      let same = show_lines-Shows _ (record t { status = get_status p2p t.status }) in
      record {
        acts = kept same.0;
        runs = IsRun-event (asked p2p) (same.1 ∙ unfold on_event in refl);
        sized = λ h. rw same.0 h;
      }

  cmd_show-Does : (t : Console S) → Does env t (cmd_show env p2p t)
  unfolding cmd_show get_settings
  cmd_show-Does t = shown _ t

  cmd_info-Does : (t : Console S) → Does env t (cmd_info env p2p t)
  unfolding cmd_info get_settings
  cmd_info-Does t =
      let same = show_lines-Shows _ (record t { status = get_status p2p t.status }) in
      record {
        acts = kept same.0;
        runs = IsRun-event (asked p2p) (same.1 ∙ unfold on_event in refl);
        sized = λ h. rw same.0 h;
      }

  print_help-Does : (t : Console S) → Does env t (ok, print_help t)
  unfolding print_help clear_screen pc_write
  print_help-Does t = let same = pc_writes-Shows _ (clear_screen t) in shows same.0 same.1

  cmd_menu_index-Does :
      (m : Menu) (index : ℕ) (t : Console S)
      → Does env t (cmd_menu_index env p2p has_reboot m index t)
  unfolding cmd_menu_index pc_write enter_menu render_menu clear_screen print_menu print_info_menu
      print_settings_menu print_network_menu print_broker_menu print_peer_bridge_menu
      print_system_menu print_usage_ip print_usage_mode print_usage_broker_port
      print_usage_broker_fallback_port print_usage_broker_ip print_usage_broker_state
      print_usage_peer print_usage_bridge_port print_usage_defaults
  cmd_menu_index-Does main zero t = shows refl refl
  cmd_menu_index-Does main (suc zero) t = shows refl refl
  cmd_menu_index-Does main (suc (suc zero)) t = shows refl refl
  cmd_menu_index-Does main (suc (suc (suc zero))) t = shows refl refl
  cmd_menu_index-Does main (suc (suc (suc (suc n)))) t = shows refl refl
  cmd_menu_index-Does info zero t = shows refl refl
  cmd_menu_index-Does info (suc zero) t = cmd_status-Does t
  cmd_menu_index-Does info (suc (suc zero)) t = cmd_info-Does t
  cmd_menu_index-Does info (suc (suc (suc zero))) t = cmd_show-Does t
  cmd_menu_index-Does info (suc (suc (suc (suc n)))) t = shows refl refl
  cmd_menu_index-Does settings zero t = shows refl refl
  cmd_menu_index-Does settings (suc zero) t = shows refl refl
  cmd_menu_index-Does settings (suc (suc zero)) t = shows refl refl
  cmd_menu_index-Does settings (suc (suc (suc zero))) t = shows refl refl
  cmd_menu_index-Does settings (suc (suc (suc (suc n)))) t = shows refl refl
  cmd_menu_index-Does device_network zero t = shows refl refl
  cmd_menu_index-Does device_network (suc zero) t = shown _ t
  cmd_menu_index-Does device_network (suc (suc zero)) t = shown _ t
  cmd_menu_index-Does device_network (suc (suc (suc zero))) t = cmd_dhcp-Does env t
  cmd_menu_index-Does device_network (suc (suc (suc (suc n)))) t = shows refl refl
  cmd_menu_index-Does broker zero t = shows refl refl
  cmd_menu_index-Does broker (suc zero) t = shown _ t
  cmd_menu_index-Does broker (suc (suc zero)) t = shown _ t
  cmd_menu_index-Does broker (suc (suc (suc zero))) t = shown _ t
  cmd_menu_index-Does broker (suc (suc (suc (suc zero)))) t = shown _ t
  cmd_menu_index-Does broker (suc (suc (suc (suc (suc n))))) t = shows refl refl
  cmd_menu_index-Does peer_bridge zero t = shows refl refl
  cmd_menu_index-Does peer_bridge (suc zero) t = shown _ t
  cmd_menu_index-Does peer_bridge (suc (suc zero)) t = shown _ t
  cmd_menu_index-Does peer_bridge (suc (suc (suc zero))) t = shown _ t
  cmd_menu_index-Does peer_bridge (suc (suc (suc (suc n)))) t = shows refl refl
  cmd_menu_index-Does system zero t = shows refl refl
  cmd_menu_index-Does system (suc zero) t = do_reset-Does env t
  cmd_menu_index-Does system (suc (suc zero)) t = do_reboot-Does t
  cmd_menu_index-Does system (suc (suc (suc n))) t = shows refl refl

  run_command-Does :
      (c : Command) (save : Bytes) (t : Console S)
      → Does env t (run_command env p2p has_reboot c save t)
  unfolding run_command pc_write enter_menu render_menu clear_screen print_menu print_info_menu
      print_settings_menu print_network_menu print_broker_menu print_peer_bridge_menu
      print_system_menu
  run_command-Does go_back save t = shows refl refl
  run_command-Does go_menu save t = shows refl refl
  run_command-Does go_info save t = shows refl refl
  run_command-Does go_settings save t = shows refl refl
  run_command-Does go_network save t = shows refl refl
  run_command-Does go_broker save t = shows refl refl
  run_command-Does go_peer_bridge save t = shows refl refl
  run_command-Does go_system save t = shows refl refl
  run_command-Does unknown save t = shows refl refl
  run_command-Does go_help save t = print_help-Does t
  run_command-Does (at_index index) save t = cmd_menu_index-Does t.current_menu index t
  run_command-Does do_status save t = cmd_status-Does t
  run_command-Does do_summary save t = cmd_info-Does t
  run_command-Does do_show save t = cmd_show-Does t
  run_command-Does set_ip save t = cmd_ip-Does env save t
  run_command-Does set_mode save t = cmd_mode-Does env save t
  run_command-Does set_dhcp save t = cmd_dhcp-Does env t
  run_command-Does set_broker_legacy save t = cmd_broker-Does env save t
  run_command-Does set_broker_port save t = cmd_broker_port-Does env save t
  run_command-Does set_fallback_port save t = cmd_broker_fallback_port-Does env save t
  run_command-Does set_broker_ip save t = cmd_broker_ip-Does env save t
  run_command-Does set_bridge_port save t = cmd_bridge_port-Does env save t
  run_command-Does set_broker_state save t = cmd_broker_state-Does env save t
  run_command-Does set_peer_slot save t = cmd_peer-Does env save t
  run_command-Does set_defaults save t = cmd_defaults-Does env save t
  run_command-Does reset_settings save t = do_reset-Does env t
  run_command-Does restart save t = do_reboot-Does t

  handle_word-Does :
      (o : Option Bytes) (save : Bytes) (t : Console S)
      → Does env t (handle_word env p2p has_reboot o save t)
  unfolding handle_word
  handle_word-Does none save t = shows refl refl
  handle_word-Does (some cmd) save t = run_command-Does (command_of cmd) save t

  pub handle_line-Does :
      (line : Option Bytes) (t : Console S) → Does env t (handle_line env p2p has_reboot line t)
  unfolding handle_line
  handle_line-Does none t = shows refl refl
  handle_line-Does (some line) t = handle_word-Does _ _ t

  -- A line, or its absence, leaves the configuration as it is, or it calls one operation of
  -- product_config.c and returns what that returned.
  pub handle_line-Acts :
      (line : Option Bytes) (t : Console S) → Acts env t (handle_line env p2p has_reboot line t)
  handle_line-Acts line t = (handle_line-Does line t).acts
