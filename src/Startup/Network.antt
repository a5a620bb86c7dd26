-- ===== src/Startup/Network.antt =====
-- main.c between the start of the Ethernet and the start of the broker. The status lamp is left out.
use mqtt_field_bridge_app.Base.{
  ℕ, not, ◌&&◌, ◌||◌, Option, none, some, Bytes, ◌==◌, if◌then◌else◌, codes, zeros, cstr, equal,
  snprintf, is_nonempty,
}
use mqtt_field_bridge_app.Config.{
  Settings, Platform, Config, host_max, mode_auto, mode_eth, set_settings,
}
use mqtt_field_bridge_app.Runtime.{RuntimeStatus, network_start, network_ready, broker_failed}

-- The result is the address and the active mode. What stands in a local array behind its terminator
-- is not read; here it is zeros.
unfoldable pub start_broker_network : Settings → Bytes → Option (Bytes × ℕ)
start_broker_network settings eth_ip_addr =
    let ip_addr = snprintf (zeros host_max) host_max (cstr eth_ip_addr) in
    if settings.network.mode == mode_eth
    then some (ip_addr, mode_eth)
    else if settings.network.mode == mode_auto
    then some (ip_addr, mode_eth)
    else none

-- The address that the network got is used where it is known, by the broker too unless that has one
-- of its own.
unfoldable pub with_ip : Bytes → Settings → Settings
with_ip ip_addr s =
    let n = record s.network { device_ip = snprintf s.network.device_ip host_max (cstr ip_addr) } in
    let b = record s.broker { broker_ip = snprintf s.broker.broker_ip host_max (cstr ip_addr) } in
    if not (s.network.dhcp_enabled == 0)
      || not (is_nonempty s.broker.broker_ip)
      || equal (cstr s.broker.broker_ip) (codes "0.0.0.0")
    then record s { network = n; broker = b }
    else record s { network = n }

-- `runtime_settings`, from the saved settings, the address and the active mode.
unfoldable pub active_settings : Settings → Bytes → ℕ → Settings
active_settings s ip_addr active_mode =
    let configured_ip = snprintf (zeros host_max) host_max (cstr s.network.device_ip) in
    let known = is_nonempty ip_addr && active_mode == mode_eth in
    let s₁ = if known then with_ip ip_addr s else s in
    let static =
      not (s.network.dhcp_enabled == 0)
      && is_nonempty configured_ip
      && equal (cstr ip_addr) (cstr configured_ip) in
    let dhcp = if static then 0 else s₁.network.dhcp_enabled in
    record s₁ { network = record s₁.network { dhcp_enabled = dhcp; mode = active_mode } }

-- The broker is enabled at power-on on an Ethernet, whatever was saved.
unfoldable pub power_on_settings : Settings → Settings
power_on_settings runtime =
    if runtime.network.mode == mode_eth && runtime.broker.broker_enabled == 0
    then record runtime { broker = record runtime.broker { broker_enabled = 1 } }
    else runtime

module _ {S : Type 0} (env : Platform S) where
  -- The save of the settings that power-on has enabled; its result is not looked at.
  unfoldable pub power_on : Settings → Config S → Config S
  power_on runtime c =
      if runtime.network.mode == mode_eth && runtime.broker.broker_enabled == 0
      then (set_settings env c (some (power_on_settings runtime))).1
      else c

  -- From start_broker_network to the settings that the broker is started with.
  unfoldable pub network_phase :
      Settings → Bytes → Config S → RuntimeStatus → Option Settings × Config S × RuntimeStatus
  network_phase settings eth_ip_addr c s = elim (start_broker_network settings eth_ip_addr) [
    | none ↦ (none, c, broker_failed (some (codes "network start failed")) s)
    | some (ip_addr, active_mode) ↦
        let runtime = active_settings settings ip_addr active_mode in
        let s' = network_start (some runtime) s in
        if network_ready s'
        then (some (power_on_settings runtime), power_on runtime c, s')
        else (none, c, broker_failed (some (codes "network not ready")) s')
  ]
