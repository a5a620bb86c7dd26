-- ===== src/Console/Menus.antt =====
-- The menus and the usage texts of product_console.c.
use mqtt_field_bridge_app.Base.{List, [], ◌∷◌, Bytes, codes}
use mqtt_field_bridge_app.Console.State.{
  Menu, main, info, settings, device_network, broker, peer_bridge, system, MenuItem, Console,
  pc_writes, clear_screen, print_back_to_menu, render_menu,
}

module _ {S : Type 0} where
  -- Enters a menu and shows it on a cleared screen.
  unfoldable pub enter_menu : Menu → Bytes → List MenuItem → Bytes → Console S → Console S
  enter_menu menu title items footer t =
      render_menu title items footer (clear_screen (record t { current_menu = menu }))

  unfoldable pub print_menu : Console S → Console S
  print_menu =
      enter_menu main (codes "Field Bridge CLI menu")
        (record { command = codes "info"; label = codes "runtime and saved values" }
          ∷ record { command = codes "settings"; label = codes "network, broker, bridge" }
          ∷ record { command = codes "system"; label = codes "reset and reboot" }
          ∷ [])
        (codes "Type a number to enter; 0 returns here")

  unfoldable pub print_info_menu : Console S → Console S
  print_info_menu =
      enter_menu info (codes "Info")
        (record { command = codes "status"; label = codes "runtime network/broker state" }
          ∷ record { command = codes "summary"; label = codes "runtime plus saved config" }
          ∷ record { command = codes "show"; label = codes "saved network/broker config" }
          ∷ [])
        (codes "Type a number; 0 returns to main menu")

  unfoldable pub print_settings_menu : Console S → Console S
  print_settings_menu =
      enter_menu settings (codes "Settings")
        (record { command = codes "device-network"; label = codes "device network setting" }
          ∷ record { command = codes "local-broker"; label = codes "local broker setting" }
          ∷ record { command = codes "peer-bridge"; label = codes "peer bridge setting" }
          ∷ [])
        (codes "Type a number to enter; 0 returns to main menu")

  unfoldable pub print_network_menu : Console S → Console S
  print_network_menu =
      enter_menu device_network (codes "Device Network Setting")
        (record { command = codes "mode auto|eth"; label = codes "set network mode" }
          ∷ record { command = codes "ip <addr> [gw] [mask]"; label = codes "set static IP" }
          ∷ record { command = codes "dhcp"; label = codes "enable DHCP" }
          ∷ [])
        (codes "Type the command with values; 0 returns to main menu")

  unfoldable pub print_broker_menu : Console S → Console S
  print_broker_menu =
      enter_menu broker (codes "Local Broker Setting")
        (record { command = codes "broker-port <port>"; label = codes "set local broker port" }
          ∷ record {
            command = codes "broker-fallback-port <port>";
            label = codes "set fallback MQTT port";
          }
          ∷ record { command = codes "broker-ip <ip>"; label = codes "set local broker IP" }
          ∷ record { command = codes "broker-state <0|1>"; label = codes "disable/enable broker" }
          ∷ [])
        (codes "Type the command with values; 0 returns to main menu")

  unfoldable pub print_peer_bridge_menu : Console S → Console S
  print_peer_bridge_menu =
      enter_menu peer_bridge (codes "Peer Bridge Setting")
        (record { command = codes "bridge-port <port>"; label = codes "set local bridge port" }
          ∷ record {
            command = codes "peer <i> <name> <host> [broker-port] [bridge-port] [0|1]";
            label = codes "set peer";
          }
          ∷ record { command = codes "defaults small|large"; label = codes "reset config profile" }
          ∷ [])
        (codes "Type the command with values; 0 returns to main menu")

  unfoldable pub print_system_menu : Console S → Console S
  print_system_menu =
      enter_menu system (codes "System")
        (record { command = codes "reset"; label = codes "reset all settings" }
          ∷ record { command = codes "reboot"; label = codes "restart device" }
          ∷ [])
        (codes "Type a number; 0 returns to main menu")

  -- A usage text: its lines on a cleared screen.
  unfoldable pub show_lines : List Bytes → Console S → Console S
  show_lines lines t = print_back_to_menu (pc_writes lines (clear_screen t))

  unfoldable pub print_usage_ip : Console S → Console S
  print_usage_ip = show_lines (
      codes "Device Network Setting\n"
      ∷ codes "------------------------------\n"
      ∷ codes "Command       : ip <addr> [gw] [mask]\n"
      ∷ codes "Example       : ip 10.88.0.2 10.88.0.1 255.255.255.0\n"
      ∷ codes "Effect        : save static IP; reboot to apply\n"
      ∷ [])

  unfoldable pub print_usage_mode : Console S → Console S
  print_usage_mode = show_lines (
      codes "Device Network Setting\n"
      ∷ codes "------------------------------\n"
      ∷ codes "Command       : mode auto|eth\n"
      ∷ codes "Auto          : Ethernet with configured defaults\n"
      ∷ codes "ETH           : Ethernet only; web UI/API allowed\n"
      ∷ codes "Effect        : save network mode; reboot to apply\n"
      ∷ [])

  unfoldable pub print_usage_broker_port : Console S → Console S
  print_usage_broker_port = show_lines (
      codes "Local Broker Setting\n"
      ∷ codes "------------------------------\n"
      ∷ codes "Command       : broker-port <port>\n"
      ∷ codes "Example       : broker-port 1883\n"
      ∷ codes "Meaning       : client connects to this broker port\n"
      ∷ codes "Effect        : save broker port; reboot to apply\n"
      ∷ [])

  unfoldable pub print_usage_broker_fallback_port : Console S → Console S
  print_usage_broker_fallback_port = show_lines (
      codes "Local Broker Setting\n"
      ∷ codes "------------------------------\n"
      ∷ codes "Command       : broker-fallback-port <port>\n"
      ∷ codes "Example       : broker-fallback-port 1884\n"
      ∷ codes "Meaning       : alternate MQTT port for client fallback\n"
      ∷ codes "Effect        : save fallback port; reboot to apply\n"
      ∷ [])

  unfoldable pub print_usage_broker_ip : Console S → Console S
  print_usage_broker_ip = show_lines (
      codes "Local Broker Setting\n"
      ∷ codes "------------------------------\n"
      ∷ codes "Command       : broker-ip <ip>\n"
      ∷ codes "Example       : broker-ip 10.88.0.2\n"
      ∷ codes "Meaning       : local broker IP advertised/used by this node\n"
      ∷ codes "Effect        : save broker IP; reboot to apply\n"
      ∷ [])

  unfoldable pub print_usage_broker_state : Console S → Console S
  print_usage_broker_state = show_lines (
      codes "Local Broker Setting\n"
      ∷ codes "------------------------------\n"
      ∷ codes "Command       : broker-state <0|1>\n"
      ∷ codes "Disable       : broker-state 0\n"
      ∷ codes "Enable        : broker-state 1\n"
      ∷ codes "Effect        : save broker state; reboot to apply\n"
      ∷ [])

  unfoldable pub print_usage_peer : Console S → Console S
  print_usage_peer = show_lines (
      codes "Peer Bridge Setting\n"
      ∷ codes "------------------------------\n"
      ∷ codes "Command       : peer <i> <name> <host> [broker-port] [bridge-port] [0|1]\n"
      ∷ codes "Example       : peer 1 node2 10.88.0.3 1883 4884 1\n"
      ∷ codes "Index         : peer slot number\n"
      ∷ codes "Host          : peer broker IP or host name\n"
      ∷ codes "Effect        : save bridge peer\n"
      ∷ [])

  unfoldable pub print_usage_bridge_port : Console S → Console S
  print_usage_bridge_port = show_lines (
      codes "Peer Bridge Setting\n"
      ∷ codes "------------------------------\n"
      ∷ codes "Command       : bridge-port <port>\n"
      ∷ codes "Example       : bridge-port 4884\n"
      ∷ codes "Meaning       : local port used for broker-to-broker bridge traffic\n"
      ∷ codes "Effect        : save local bridge port; reboot to apply\n"
      ∷ [])

  unfoldable pub print_usage_defaults : Console S → Console S
  print_usage_defaults = show_lines (
      codes "Peer Bridge Setting\n"
      ∷ codes "------------------------------\n"
      ∷ codes "Command       : defaults small|large\n"
      ∷ codes "Small profile : defaults small\n"
      ∷ codes "Large profile : defaults large\n"
      ∷ codes "Effect        : reset config profile; reboot to apply\n"
      ∷ [])

  unfoldable pub print_help : Console S → Console S
  print_help t =
      pc_writes
        (codes
            "commands: help menu back info settings system status summary show device-network local-broker peer-bridge mode ip dhcp broker-port broker-fallback-port broker-ip broker-state bridge-port peer defaults reset reboot\n"
          ∷ codes "  info                     show info menu\n"
          ∷ codes "  settings                 show settings menu\n"
          ∷ codes "  system                   show system menu\n"
          ∷ codes "  summary                  show runtime and saved network/broker config\n"
          ∷ codes "  mode auto|eth            save Ethernet network mode\n"
          ∷ codes "  ip <addr> [gw] [mask]    save static network IP, reboot to apply\n"
          ∷ codes "  dhcp                     enable DHCP, reboot to apply\n"
          ∷ codes "  broker-port <port>        save local broker client port\n"
          ∷ codes "  broker-fallback-port <port> save local fallback MQTT port\n"
          ∷ codes "  broker-ip <ip>            save local broker IP\n"
          ∷ codes "  broker-state <0|1>     disable/enable broker on next boot\n"
          ∷ codes "  bridge-port <port>        save local peer bridge port\n"
          ∷ codes "  peer <i> <name> <host> [broker-port] [bridge-port] [0|1]\n"
          ∷ codes "  defaults small|large      reset config profile\n"
          ∷ [])
        (clear_screen t)
