-- ===== src/Console/Show.antt =====
-- The commands of product_console.c that show the status and the configuration.
use mqtt_field_bridge_app.Base.{
  none, some, List, [], ◌∷◌, ◌++◌, Bytes, String, Rc, ok, fail, if◌then◌else◌, codes, cstr,
  is_nonempty,
}
use mqtt_field_bridge_app.Config.{Settings, Platform, get_settings, network_mode_name}
use mqtt_field_bridge_app.Runtime.{RuntimeStatus, P2p, get_status, firmware_version, config_version}
use mqtt_field_bridge_app.Console.Text.{decimal}
use mqtt_field_bridge_app.Console.State.{Console, pc_write}
use mqtt_field_bridge_app.Console.Menus.{show_lines}

-- A label, a value and the end of the line.
unfoldable pub shown : String → Bytes → Bytes
shown label value = codes label ++ (value ++ b'\n' ∷ [])

unfoldable pub status_lines : RuntimeStatus → List Bytes
status_lines s =
    codes "Status\n"
    ∷ codes "------------------------------\n"
    ∷ shown "Firmware      : " (cstr s.firmware)
    ∷ shown "Config ver    : " (decimal s.version)
    ∷ shown "Network       : " (cstr s.network_state)
    ∷ shown "IP            : " (cstr s.ip_addr)
    ∷ shown "Broker        : " (cstr s.broker_state)
    ∷ shown "Bridge        : " (cstr s.p2p_role)
    ∷ shown "Peers         : " (decimal s.connected_peers)
    ∷ shown "Remote subs   : " (decimal s.remote_subscriptions)
    ∷ shown "Error         : " (if is_nonempty s.last_error then cstr s.last_error else codes "-")
    ∷ []

unfoldable pub saved_lines : Settings → List Bytes
saved_lines x =
    codes "Saved config\n"
    ∷ codes "------------------------------\n"
    ∷ shown "Firmware      : " firmware_version
    ∷ shown "Config ver    : " (decimal config_version)
    ∷ shown "Device        : " (cstr x.system.device_name)
    ∷ shown "Mode          : " (network_mode_name x.network.mode)
    ∷ shown "ETH IP        : " (cstr x.network.device_ip)
    ∷ shown "ETH Gateway   : " (cstr x.network.gateway)
    ∷ shown "ETH Netmask   : " (cstr x.network.netmask)
    ∷ shown "ETH DNS       : " (cstr x.network.dns)
    ∷ shown "ETH DHCP      : " (decimal x.network.dhcp_enabled)
    ∷ shown "Broker IP     : " (cstr x.broker.broker_ip)
    ∷ shown "Broker port   : " (decimal x.broker.mqtt_port)
    ∷ shown "Fallback port : " (decimal x.broker.fallback_port)
    ∷ shown "Bridge port   : " (decimal x.broker.p2p_port)
    ∷ shown "Bridge        : " (decimal x.broker.bridge_enabled)
    ∷ shown "Mesh          : " (decimal x.broker.mesh_enabled)
    ∷ []

unfoldable pub info_lines : RuntimeStatus → Settings → List Bytes
info_lines s x =
    codes "Runtime\n"
    ∷ codes "------------------------------\n"
    ∷ shown "Firmware      : " (cstr s.firmware)
    ∷ shown "Config ver    : " (decimal s.version)
    ∷ shown "Network       : " (cstr s.network_state)
    ∷ shown "IP            : " (cstr s.ip_addr)
    ∷ shown "Broker        : " (cstr s.broker_state)
    ∷ shown "Bridge        : " (cstr s.p2p_role)
    ∷ shown "Peers         : " (decimal s.connected_peers)
    ∷ shown "Remote subs   : " (decimal s.remote_subscriptions)
    ∷ shown "Error         : " (if is_nonempty s.last_error then cstr s.last_error else codes "-")
    ∷ codes "\nConfig\n"
    ∷ codes "------------------------------\n"
    ∷ shown "Device        : " (cstr x.system.device_name)
    ∷ shown "Mode          : " (network_mode_name x.network.mode)
    ∷ shown "ETH DHCP      : " (decimal x.network.dhcp_enabled)
    ∷ shown "ETH IP        : " (cstr x.network.device_ip)
    ∷ shown "ETH Gateway   : " (cstr x.network.gateway)
    ∷ shown "ETH Netmask   : " (cstr x.network.netmask)
    ∷ shown "ETH DNS       : " (cstr x.network.dns)
    ∷ shown "Broker IP     : " (cstr x.broker.broker_ip)
    ∷ shown "Broker port   : " (decimal x.broker.mqtt_port)
    ∷ shown "Fallback port : " (decimal x.broker.fallback_port)
    ∷ shown "Bridge port   : " (decimal x.broker.p2p_port)
    ∷ shown "Broker        : " (decimal x.broker.broker_enabled)
    ∷ shown "Bridge        : " (decimal x.broker.bridge_enabled)
    ∷ shown "Mesh          : " (decimal x.broker.mesh_enabled)
    ∷ []

module _ {S : Type 0} (env : Platform S) (p2p : P2p) where
  -- product_runtime_get_status also refreshes the status that it returns.
  unfoldable pub cmd_status : Console S → Rc × Console S
  cmd_status t =
      let s = get_status p2p t.status in (ok, show_lines (status_lines s) (record t { status = s }))

  unfoldable pub cmd_show : Console S → Rc × Console S
  cmd_show t = elim (get_settings env t.config) [
    | none ↦ (fail, pc_write (codes "ERR config unavailable\n") t)
    | some x ↦ (ok, show_lines (saved_lines x) t)
  ]

  unfoldable pub cmd_info : Console S → Rc × Console S
  cmd_info t =
      let s = get_status p2p t.status in
      let t' = record t { status = s } in
      elim (get_settings env t.config) [
        | none ↦ (fail, pc_write (codes "ERR info unavailable\n") t')
        | some x ↦ (ok, show_lines (info_lines s x) t')
      ]
