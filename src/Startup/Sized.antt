-- ===== src/Startup/Sized.antt =====
-- The settings behind the start have the sizes of the C records.
use mqtt_field_bridge_app.Base.{
  ℕ, ◌<◌, inl, inr, Bool, Bool-cases, Option-cases, not, ◌&&◌, ◌||◌, Option, none, some, Bytes,
  arith, ◌==◌, if◌then◌else◌, codes, cstr, equal, is_nonempty, snprintf, IsTerminated,
  snprintf-IsTerminated,
}
use mqtt_field_bridge_app.Config.{
  Settings, Platform, Config, host_max, mode_eth, init, get_settings, IsSized, IsSizedStore,
  set_settings-IsSized, init-IsSized, set_settings-Holds,
}
use mqtt_field_bridge_app.Bridge.{Mesh}
use mqtt_field_bridge_app.Runtime.{RuntimeStatus, network_start, network_ready}
use mqtt_field_bridge_app.StatusIo.{StatusIo}
use mqtt_field_bridge_app.Ethernet.{EthDriver}
use mqtt_field_bridge_app.Startup.Network.{
  start_broker_network, with_ip, active_settings, power_on_settings, power_on, network_phase,
}
use mqtt_field_bridge_app.Startup.Service.{Node, fail_with}
use mqtt_field_bridge_app.Startup.Boot.{
  Ending, ready, rebooting, gave_up, is_linked, eth_address, first_node, connect, main,
}

printed :
    (dst text : Bytes)
    → IsTerminated host_max dst
    → IsTerminated host_max (snprintf dst host_max text)
printed dst text h = snprintf-IsTerminated dst host_max text (omega arith) h.0

-- With the addresses, the DHCP flag, the mode and the broker's flag of the start.
started-IsSized :
    (s : Settings) (device_ip broker_ip : Bytes) (dhcp mode enabled : ℕ)
    → IsSized s
    → IsTerminated host_max device_ip
    → IsTerminated host_max broker_ip
    → dhcp < 256
    → enabled < 256
    → IsSized (record s {
      network = record s.network { device_ip = device_ip; dhcp_enabled = dhcp; mode = mode };
      broker = record s.broker { broker_ip = broker_ip; broker_enabled = enabled };
    })
started-IsSized s device_ip broker_ip dhcp mode enabled h hd hb small one = record {
  device_name = h.device_name;
  device_ip = hd;
  gateway = h.gateway;
  netmask = h.netmask;
  dns = h.dns;
  broker_ip = hb;
  site_id = h.site_id;
  topic_prefix = h.topic_prefix;
  dhcp_enabled = small;
  mqtt_port = h.mqtt_port;
  p2p_port = h.p2p_port;
  fallback_port = h.fallback_port;
  broker_enabled = one;
  bridge_enabled = h.bridge_enabled;
  mesh_enabled = h.mesh_enabled;
}

with_ip-IsSized : (ip_addr : Bytes) (s : Settings) → IsSized s → IsSized (with_ip ip_addr s)
unfolding with_ip
with_ip-IsSized ip_addr s h =
    let device = printed s.network.device_ip (cstr ip_addr) h.device_ip in
    let broker = printed s.broker.broker_ip (cstr ip_addr) h.broker_ip in
    elim (Bool-cases (
      not (s.network.dhcp_enabled == 0)
      || not (is_nonempty s.broker.broker_ip)
      || equal (cstr s.broker.broker_ip) (codes "0.0.0.0"))) [
        | inl e ↦ rw e (
            started-IsSized s _ _ s.network.dhcp_enabled s.network.mode s.broker.broker_enabled h
              device broker h.dhcp_enabled h.broker_enabled)
        | inr e ↦ rw e (
            started-IsSized s _ s.broker.broker_ip s.network.dhcp_enabled s.network.mode
              s.broker.broker_enabled h device h.broker_ip h.dhcp_enabled h.broker_enabled)
      ]

with_flag-IsSized :
    (s : Settings) (b : Bool) (mode : ℕ)
    → IsSized s
    → IsSized (record s {
      network = record s.network {
        dhcp_enabled = if b then 0 else s.network.dhcp_enabled;
        mode = mode;
      };
    })
with_flag-IsSized s b mode h =
    let small : (if b then 0 else s.network.dhcp_enabled) < 256 =
      let old = h.dhcp_enabled in ground arith in
    started-IsSized s s.network.device_ip s.broker.broker_ip _ mode s.broker.broker_enabled h
      h.device_ip h.broker_ip small h.broker_enabled

active_settings-IsSized :
    (s : Settings) (ip_addr : Bytes) (mode : ℕ)
    → IsSized s
    → IsSized (active_settings s ip_addr mode)
unfolding active_settings
active_settings-IsSized s ip_addr mode h =
    elim (Bool-cases (is_nonempty ip_addr && mode == mode_eth)) [
      | inl e ↦ rw (e, active_settings) (with_flag-IsSized _ _ mode (with_ip-IsSized ip_addr s h))
      | inr e ↦ rw (e, active_settings) (with_flag-IsSized s _ mode h)
    ]

power_on_settings-IsSized : (s : Settings) → IsSized s → IsSized (power_on_settings s)
unfolding power_on_settings
power_on_settings-IsSized s h =
    elim (Bool-cases (s.network.mode == mode_eth && s.broker.broker_enabled == 0)) [
      | inl e ↦ rw e (
          started-IsSized s s.network.device_ip s.broker.broker_ip s.network.dhcp_enabled
            s.network.mode 1 h h.device_ip h.broker_ip h.dhcp_enabled (omega arith))
      | inr e ↦ rw e h
    ]

-- Settings where there are some.
AllSized : Option Settings → Type 0
AllSized none = Unit
AllSized (some x) = IsSized x

module _ {S : Type 0} (env : Platform S) {Holds : S → Type 0} (laws : IsSizedStore env Holds) where
  -- The settings in memory and the store have the sizes of the C records.
  abbrev pub HasSizedConfig : Config S → Type 0
  HasSizedConfig c = IsSized c.settings × Holds c.store

  power_on-IsSized :
      (x : Settings) (c : Config S)
      → IsSized x
      → HasSizedConfig c
      → HasSizedConfig (power_on env x c)
  unfolding power_on
  power_on-IsSized x c hx h =
      let y = power_on_settings x in
      let sizes = set_settings-IsSized env c y h.0 (power_on_settings-IsSized x hx) in
      elim (Bool-cases (x.network.mode == mode_eth && x.broker.broker_enabled == 0)) [
        | inl e ↦ rw e (sizes, set_settings-Holds env laws c y sizes h.1)
        | inr e ↦ rw e h
      ]

  network_phase-IsSized :
      (x : Settings) (eth_ip_addr : Bytes) (c : Config S) (s : RuntimeStatus)
      → IsSized x
      → HasSizedConfig c
      → let r = network_phase env x eth_ip_addr c s in AllSized r.0 × HasSizedConfig r.1
  unfolding network_phase AllSized
  network_phase-IsSized x eth_ip_addr c s hx h =
      elim (Option-cases (start_broker_network x eth_ip_addr)) [
        | inl e ↦ rw (e, network_phase) (tt, h)
        | inr ((ip_addr, active_mode), e) ↦
            let runtime = active_settings x ip_addr active_mode in
            let hr = active_settings-IsSized x ip_addr active_mode hx in
            elim (Bool-cases (network_ready (network_start (some runtime) s))) [
              | inl e' ↦
                  rw (e, network_phase, e')
                    (power_on_settings-IsSized runtime hr, power_on-IsSized runtime c hr h)
              | inr e' ↦ rw (e, network_phase, e') (tt, h)
            ]
      ]

-- The settings in hand, where main comes to its loop.
unfoldable pub InHand : Ending → Type 0
InHand (ready x) = IsSized x
InHand rebooting = Unit
InHand gave_up = Unit

module _ {S T : Type 0} (env : Platform S) {Holds : S → Type 0} (laws : IsSizedStore env Holds)
    (mesh : Mesh T) (has_led : Bool) where
  connect-IsSized :
      (now : ℕ) (settings : Settings) (ip_addr : Bytes) (t : Node S T)
      → IsSized settings
      → HasSizedConfig env laws t.config
      → let r = connect env mesh has_led now settings ip_addr t in
        InHand r.0 × HasSizedConfig env laws r.1.config
  unfolding connect InHand AllSized
  connect-IsSized now settings ip_addr t hx h =
      let phase = network_phase-IsSized env laws settings ip_addr t.config t.status hx h in
      elim (Option-cases (network_phase env settings ip_addr t.config t.status).0) [
        | inl e ↦ rw (e, connect) (tt, phase.1)
        | inr (x, e) ↦ rw (e, connect) ((rw e at phase.0), phase.1)
      ]

  -- Over such a store main leaves settings of the sizes of the C records, in memory, in the store and
  -- in hand.
  pub main-IsSized :
      (driver : EthDriver) (link : ℕ → Bool) (now : ℕ) (c : Config S) (table : T) (lamp : StatusIo)
      → Holds c.store
      → let r = main env mesh has_led driver link now c table lamp in
        InHand r.0 × HasSizedConfig env laws r.1.config
  unfolding main first_node get_settings fail_with InHand
  main-IsSized driver link now c table lamp held =
      let settings = (init env c).settings in
      let h = init-IsSized env laws c held in
      let t = first_node env mesh has_led now c table lamp in
      elim (Bool-cases (is_linked driver link settings)) [
        | inl e ↦ rw (e, main) (connect-IsSized now settings (eth_address driver settings) t h.0 h)
        | inr e ↦ rw (e, main) (tt, h)
      ]
