-- ===== src/Console/Dispatch.antt =====
-- product_console_handle_line: the command word selects what is done with the rest of the line.
use mqtt_field_bridge_app.Base.{
  ℕ, zero, suc, Bool, ◌&&◌, ◌||◌, Option, none, some, List, [], ◌∷◌, Bytes, String, Rc, ok, fail,
  ltb, ◌^◌, if◌then◌else◌, codes, equal,
}
use mqtt_field_bridge_app.Config.{Platform}
use mqtt_field_bridge_app.Runtime.{P2p}
use mqtt_field_bridge_app.Console.Text.{next_token, numeric_menu_command}
use mqtt_field_bridge_app.Console.State.{
  Menu, main, info, settings, device_network, broker, peer_bridge, system, Console, pc_write,
}
use mqtt_field_bridge_app.Console.Menus.{
  print_menu, print_info_menu, print_settings_menu, print_network_menu, print_broker_menu,
  print_peer_bridge_menu, print_system_menu, print_help, print_usage_ip, print_usage_mode,
  print_usage_broker_port, print_usage_broker_fallback_port, print_usage_broker_ip,
  print_usage_broker_state, print_usage_peer, print_usage_bridge_port, print_usage_defaults,
}
use mqtt_field_bridge_app.Console.Show.{cmd_status, cmd_show, cmd_info}
use mqtt_field_bridge_app.Console.Commands.{
  cmd_ip, cmd_mode, cmd_dhcp, cmd_broker, cmd_broker_port, cmd_broker_fallback_port, cmd_broker_ip,
  cmd_bridge_port,
}
use mqtt_field_bridge_app.Console.Control.{
  cmd_broker_state, cmd_peer, cmd_defaults, do_reset, do_reboot,
}

-- What a command word asks for; the strcmp ladder of product_console_handle_line, in its order.
pub data Command : Type 0 where
  go_back go_help go_menu go_info go_settings go_network go_broker go_peer_bridge go_system :
      Command
  at_index : ℕ → Command
  do_status do_summary do_show set_ip set_mode set_dhcp set_broker_legacy set_broker_port : Command
  set_fallback_port set_broker_ip set_bridge_port set_broker_state set_peer_slot : Command
  set_defaults reset_settings restart unknown : Command

abbrev pub is_word : Bytes → String → Bool
is_word cmd word = equal cmd (codes word)

unfoldable pub setting_command : Bytes → Command
setting_command cmd =
    if is_word cmd "ip"
    then set_ip
    else if is_word cmd "mode"
    then set_mode
    else if is_word cmd "dhcp"
    then set_dhcp
    else if is_word cmd "broker"
    then set_broker_legacy
    else if is_word cmd "broker-port"
    then set_broker_port
    else if is_word cmd "broker-fallback-port" || is_word cmd "fallback-port"
    then set_fallback_port
    else if is_word cmd "broker-ip"
    then set_broker_ip
    else if is_word cmd "bridge-port"
    then set_bridge_port
    else if is_word cmd "broker-state"
    then set_broker_state
    else if is_word cmd "peer"
    then set_peer_slot
    else if is_word cmd "defaults"
    then set_defaults
    else if is_word cmd "reset"
    then reset_settings
    else if is_word cmd "reboot"
    then restart
    else unknown

unfoldable pub page_command : Bytes → Command
page_command cmd =
    if is_word cmd "help" || is_word cmd "?"
    then go_help
    else if is_word cmd "menu"
    then go_menu
    else if is_word cmd "info"
    then go_info
    else if is_word cmd "settings"
    then go_settings
    else if is_word cmd "device-network" || is_word cmd "network"
    then go_network
    else if is_word cmd "local-broker" || is_word cmd "broker-setting" || is_word cmd "broker-ui"
    then go_broker
    else if is_word cmd "peer-bridge" || is_word cmd "peer-ui"
    then go_peer_bridge
    else if is_word cmd "system"
    then go_system
    else if is_word cmd "status"
    then do_status
    else if is_word cmd "summary"
    then do_summary
    else if is_word cmd "show"
    then do_show
    else setting_command cmd

-- `index > 0` for an `int` in 32 bits.
abbrev pub is_positive : ℕ → Bool
is_positive index = ltb 0 index && ltb index (2 ^ 31)

unfoldable pub command_of : Bytes → Command
command_of cmd =
    if is_word cmd "0" || is_word cmd "back"
    then go_back
    else if is_positive (numeric_menu_command cmd)
    then at_index (numeric_menu_command cmd)
    else page_command cmd

module _ {S : Type 0} where
  abbrev pub done : (Console S → Console S) → Console S → Rc × Console S
  done f t = (ok, f t)

  abbrev pub refuse : String → Console S → Rc × Console S
  refuse message t = (fail, pc_write (codes message) t)

module _ {S : Type 0} (env : Platform S) (p2p : P2p) (has_reboot : Bool) where
  -- cmd_menu_index, by the menu and the index. A menu outside the enum cannot be stored, so the
  -- outer default branch has no clause.
  unfoldable pub cmd_menu_index : Menu → ℕ → Console S → Rc × Console S
  cmd_menu_index main (suc zero) t = done print_info_menu t
  cmd_menu_index main (suc (suc zero)) t = done print_settings_menu t
  cmd_menu_index main (suc (suc (suc zero))) t = done print_system_menu t
  cmd_menu_index main _ t = refuse "ERR unknown menu index; try menu\n" t
  cmd_menu_index info (suc zero) t = cmd_status env p2p t
  cmd_menu_index info (suc (suc zero)) t = cmd_info env p2p t
  cmd_menu_index info (suc (suc (suc zero))) t = cmd_show env p2p t
  cmd_menu_index info _ t = refuse "ERR unknown info index; try info\n" t
  cmd_menu_index settings (suc zero) t = done print_network_menu t
  cmd_menu_index settings (suc (suc zero)) t = done print_broker_menu t
  cmd_menu_index settings (suc (suc (suc zero))) t = done print_peer_bridge_menu t
  cmd_menu_index settings _ t = refuse "ERR unknown settings index; try settings\n" t
  cmd_menu_index device_network (suc zero) t = done print_usage_mode t
  cmd_menu_index device_network (suc (suc zero)) t = done print_usage_ip t
  cmd_menu_index device_network (suc (suc (suc zero))) t = cmd_dhcp env t
  cmd_menu_index device_network _ t = refuse "ERR unknown network index; try device-network\n" t
  cmd_menu_index broker (suc zero) t = done print_usage_broker_port t
  cmd_menu_index broker (suc (suc zero)) t = done print_usage_broker_fallback_port t
  cmd_menu_index broker (suc (suc (suc zero))) t = done print_usage_broker_ip t
  cmd_menu_index broker (suc (suc (suc (suc zero)))) t = done print_usage_broker_state t
  cmd_menu_index broker _ t = refuse "ERR unknown local broker index; try local-broker\n" t
  cmd_menu_index peer_bridge (suc zero) t = done print_usage_bridge_port t
  cmd_menu_index peer_bridge (suc (suc zero)) t = done print_usage_peer t
  cmd_menu_index peer_bridge (suc (suc (suc zero))) t = done print_usage_defaults t
  cmd_menu_index peer_bridge _ t = refuse "ERR unknown peer index; try peer-bridge\n" t
  cmd_menu_index system (suc zero) t = do_reset env t
  cmd_menu_index system (suc (suc zero)) t = do_reboot env has_reboot t
  cmd_menu_index system _ t = refuse "ERR unknown system index; try system\n" t

  unfoldable pub run_command : Command → Bytes → Console S → Rc × Console S
  run_command go_back save t = done print_menu t
  run_command (at_index index) save t = cmd_menu_index t.current_menu index t
  run_command go_help save t = done print_help t
  run_command go_menu save t = done print_menu t
  run_command go_info save t = done print_info_menu t
  run_command go_settings save t = done print_settings_menu t
  run_command go_network save t = done print_network_menu t
  run_command go_broker save t = done print_broker_menu t
  run_command go_peer_bridge save t = done print_peer_bridge_menu t
  run_command go_system save t = done print_system_menu t
  run_command do_status save t = cmd_status env p2p t
  run_command do_summary save t = cmd_info env p2p t
  run_command do_show save t = cmd_show env p2p t
  run_command set_ip save t = cmd_ip env save t
  run_command set_mode save t = cmd_mode env save t
  run_command set_dhcp save t = cmd_dhcp env t
  run_command set_broker_legacy save t = cmd_broker env save t
  run_command set_broker_port save t = cmd_broker_port env save t
  run_command set_fallback_port save t = cmd_broker_fallback_port env save t
  run_command set_broker_ip save t = cmd_broker_ip env save t
  run_command set_bridge_port save t = cmd_bridge_port env save t
  run_command set_broker_state save t = cmd_broker_state env save t
  run_command set_peer_slot save t = cmd_peer env save t
  run_command set_defaults save t = cmd_defaults env save t
  run_command reset_settings save t = do_reset env t
  run_command restart save t = do_reboot env has_reboot t
  run_command unknown save t = refuse "ERR unknown command; try help\n" t

  unfoldable pub handle_word : Option Bytes → Bytes → Console S → Rc × Console S
  handle_word none save t = (ok, t)
  handle_word (some cmd) save t = run_command (command_of cmd) save t

  -- A NULL line is refused; an empty one is taken.
  unfoldable pub handle_line : Option Bytes → Console S → Rc × Console S
  handle_line none t = (fail, t)
  handle_line (some line) t = let (cmd, save) = next_token line in handle_word cmd save t

  unfoldable pub handle_lines : List Bytes → Console S → Console S
  handle_lines [] t = t
  handle_lines (line ∷ lines) t = handle_lines lines (handle_line (some line) t).1
