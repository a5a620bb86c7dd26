-- ===== src/Console/Commands.antt =====
-- The commands of product_console.c that change the configuration. Each takes what is left of the
-- line behind the command word.
use mqtt_field_bridge_app.Base.{
  ℕ, Option, none, some, [], ◌++◌, Bytes, Rc, ok, fail, ◌==◌, if◌then◌else◌, codes, cstr,
  is_nonempty, snprintf,
}
use mqtt_field_bridge_app.Config.{
  Peer, NetworkSettings, Settings, Platform, zero_peer, host_max, name_max, is_ok, get_settings,
  set_settings, network_mode_from_name, network_mode_name,
}
use mqtt_field_bridge_app.Console.Text.{next_token, atoi, u16_of, u8_of, decimal}
use mqtt_field_bridge_app.Console.State.{Console, pc_write}

unfoldable pub copy_arg : Bytes → ℕ → Option Bytes → Bytes
copy_arg dst cap none = if cap == 0 then dst else snprintf dst cap []
copy_arg dst cap (some src) = if cap == 0 then dst else snprintf dst cap src

abbrev pub default_gateway : Bytes
default_gateway = codes "192.168.127.5"

abbrev pub default_netmask : Bytes
default_netmask = codes "255.255.0.0"

-- The steps of cmd_ip on the network settings.
unfoldable pub with_gateway : Option Bytes → NetworkSettings → NetworkSettings
with_gateway (some gw) n = record n {
  gateway = copy_arg n.gateway host_max (some gw);
  dns = copy_arg n.dns host_max (some gw);
}
with_gateway none n = if is_nonempty n.gateway then n else record n {
  gateway = copy_arg n.gateway host_max (some default_gateway);
  dns = copy_arg n.dns host_max (some default_gateway);
}

unfoldable pub with_netmask : Option Bytes → NetworkSettings → NetworkSettings
with_netmask (some mask) n = record n { netmask = copy_arg n.netmask host_max (some mask) }
with_netmask none n =
    if is_nonempty n.netmask
    then n
    else record n { netmask = copy_arg n.netmask host_max (some default_netmask) }

unfoldable pub with_dns : NetworkSettings → NetworkSettings
with_dns n = if is_nonempty n.dns then n else record n {
  dns =
      copy_arg n.dns host_max
        (some (if is_nonempty n.gateway then cstr n.gateway else default_gateway));
}

unfoldable pub static_network :
    Bytes → Option Bytes → Option Bytes → NetworkSettings → NetworkSettings
static_network ip gw mask n =
    let n' = record n { device_ip = copy_arg n.device_ip host_max (some ip) } in
    record (with_dns (with_netmask mask (with_gateway gw n'))) { dhcp_enabled = 0 }

-- The number in a token, or a default where there is none.
unfoldable pub port_or : Option Bytes → ℕ → ℕ
port_or none d = d
port_or (some token) d = u16_of (atoi token)

unfoldable pub flag_or : Option Bytes → ℕ → ℕ
flag_or none d = d
flag_or (some token) d = u8_of (atoi token)

-- The peer that cmd_peer builds in a zeroed struct.
unfoldable pub peer_of : Bytes → Bytes → Option Bytes → Option Bytes → Option Bytes → Peer
peer_of name host mqtt p2p enabled = record {
  name = copy_arg zero_peer.name name_max (some name);
  host = copy_arg zero_peer.host host_max (some host);
  mqtt_port = port_or mqtt 1883;
  p2p_port = port_or p2p 4884;
  enabled = flag_or enabled 1;
}

-- A message of three parts.
unfoldable pub around : Bytes → Bytes → Bytes → Bytes
around before value after = before ++ (value ++ after)

abbrev pub to_apply : Bytes
to_apply = codes "; reboot to apply\n"

abbrev pub save_failed : Bytes
save_failed = codes "ERR save failed\n"

module _ {S : Type 0} (env : Platform S) where
  -- The end of the commands that change the settings: they are set, and one of two texts is shown.
  unfoldable pub save_and_report : Settings → Bytes → Bytes → Console S → Rc × Console S
  save_and_report x done failed t =
      let (rc, c) = set_settings env t.config (some x) in
      let t' = record t { config = c } in
      if is_ok rc then (ok, pc_write done t') else (fail, pc_write failed t')

  -- The start of those commands: the usage text without a first token or settings.
  unfoldable pub with_token :
      Bytes
      → Option Bytes
      → (Bytes → Settings → Console S → Rc × Console S)
      → Console S
      → Rc × Console S
  with_token usage none change t = (fail, pc_write usage t)
  with_token usage (some token) change t = elim (get_settings env t.config) [
    | none ↦ (fail, pc_write usage t)
    | some x ↦ change token x t
  ]

  unfoldable pub cmd_ip : Bytes → Console S → Rc × Console S
  cmd_ip save t =
      let (ip, save₁) = next_token save in
      let (gw, save₂) = next_token save₁ in
      let (mask, save₃) = next_token save₂ in
      with_token (codes "ERR usage: ip <addr> [gw] [mask]\n") ip
        (λ addr x.
          let n = static_network addr gw mask x.network in
          save_and_report (record x { network = n })
            (around (codes "OK saved static ip=") (cstr n.device_ip) (
              around (codes " gw=") (cstr n.gateway) (
                around (codes " mask=") (cstr n.netmask)
                  (around (codes " dns=") (cstr n.dns) to_apply))))
            save_failed)
        t

  unfoldable pub cmd_mode : Bytes → Console S → Rc × Console S
  cmd_mode save t =
      with_token (codes "ERR usage: mode auto|eth\n") (next_token save).0
        (λ name x t'. elim (network_mode_from_name (some name)) [
          | none ↦ (fail, pc_write (codes "ERR usage: mode auto|eth\n") t')
          | some mode ↦
              save_and_report (record x { network = record x.network { mode = mode } })
                (around (codes "OK saved mode=") (network_mode_name mode) to_apply)
                (codes "ERR save mode failed\n") t'
        ])
        t

  unfoldable pub cmd_dhcp : Console S → Rc × Console S
  cmd_dhcp t = elim (get_settings env t.config) [
    | none ↦ (fail, pc_write (codes "ERR config unavailable\n") t)
    | some x ↦
        save_and_report (record x { network = record x.network { dhcp_enabled = 1 } })
          (codes "OK saved DHCP enabled; reboot to apply\n") save_failed t
  ]

  -- The change of cmd_broker, with its second token.
  unfoldable pub set_broker :
      Option Bytes → Option Bytes → Bytes → Settings → Console S → Rc × Console S
  set_broker none ip mqtt x t = (
    fail,
    pc_write (codes "ERR legacy usage: broker <broker-port> <bridge-port> [broker-ip]\n") t,
  )
  set_broker (some p2p) ip mqtt x t =
      let b = record x.broker { mqtt_port = u16_of (atoi mqtt); p2p_port = u16_of (atoi p2p) } in
      let addr : Bytes = elim ip [
        | none ↦ b.broker_ip
        | some a ↦ copy_arg b.broker_ip host_max (some a)
      ] in
      save_and_report (record x { broker = record b { broker_ip = addr } })
        (codes "OK saved broker config; reboot to apply\n") save_failed t

  unfoldable pub cmd_broker : Bytes → Console S → Rc × Console S
  cmd_broker save t =
      let (mqtt, save₁) = next_token save in
      let (p2p, save₂) = next_token save₁ in
      let (ip, save₃) = next_token save₂ in
      with_token (codes "ERR legacy usage: broker <broker-port> <bridge-port> [broker-ip]\n") mqtt
        (set_broker p2p ip) t

  unfoldable pub cmd_broker_port : Bytes → Console S → Rc × Console S
  cmd_broker_port save =
      with_token (codes "ERR usage: broker-port <port>\n") (next_token save).0 (λ token x.
        let port = u16_of (atoi token) in
        save_and_report (record x { broker = record x.broker { mqtt_port = port } })
          (around (codes "OK saved broker-port=") (decimal port) to_apply) save_failed)

  unfoldable pub cmd_broker_fallback_port : Bytes → Console S → Rc × Console S
  cmd_broker_fallback_port save =
      with_token (codes "ERR usage: broker-fallback-port <port>\n") (next_token save).0 (λ token x.
        let port = u16_of (atoi token) in
        save_and_report (record x { broker = record x.broker { fallback_port = port } })
          (around (codes "OK saved broker-fallback-port=") (decimal port) to_apply) save_failed)

  unfoldable pub cmd_broker_ip : Bytes → Console S → Rc × Console S
  cmd_broker_ip save =
      with_token (codes "ERR usage: broker-ip <ip>\n") (next_token save).0 (λ token x.
        let ip = copy_arg x.broker.broker_ip host_max (some token) in
        save_and_report (record x { broker = record x.broker { broker_ip = ip } })
          (around (codes "OK saved broker-ip=") (cstr ip) to_apply) save_failed)

  unfoldable pub cmd_bridge_port : Bytes → Console S → Rc × Console S
  cmd_bridge_port save =
      with_token (codes "ERR usage: bridge-port <port>\n") (next_token save).0 (λ token x.
        let port = u16_of (atoi token) in
        save_and_report (record x { broker = record x.broker { p2p_port = port } })
          (around (codes "OK saved bridge-port=") (decimal port) to_apply) save_failed)
