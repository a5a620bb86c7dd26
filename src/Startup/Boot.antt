-- ===== src/Startup/Boot.antt =====
-- main of main.c up to its loop, in the build for the W5500. What follows a start of the web server
-- that fails is only logged, and the thread of the console is not part of the node.
use mqtt_field_bridge_app.Base.{
  ℕ, ◌≡◌, ◌⊎◌, inl, inr, refl, Bool, true, false, Bool-cases, Option-cases, ◌&&◌, Option, none,
  some, [], Bytes, Rc, ok, if◌then◌else◌, codes, zeros,
}
use mqtt_field_bridge_app.Config.{
  Settings, Platform, Config, host_max, is_ok, init, get_settings, IsWellFormed, init-IsWellFormed,
  validate_settings, IsValid,
}
use mqtt_field_bridge_app.Bridge.{Mesh, bridge_control_init}
use mqtt_field_bridge_app.Runtime.{
  runtime_init, network_ready, IsRun, IsRun-event, failed, on_event,
}
use mqtt_field_bridge_app.StatusIo.{StatusIo, status_io_init, set_error}
use mqtt_field_bridge_app.Ethernet.{EthDriver, product_ethernet_start}
use mqtt_field_bridge_app.Startup.Link.{wait_for_w5500_link_stable}
use mqtt_field_bridge_app.Startup.Network.{network_phase}
use mqtt_field_bridge_app.Startup.PowerOn.{network_phase_started, started_with}
use mqtt_field_bridge_app.Startup.Service.{Node, fail_with}
use mqtt_field_bridge_app.Startup.Runs.{network_phase-IsRun}

-- How it ends: in a reboot, with a result of -1, or in the loop, with the settings in hand.
pub data Ending : Type 0 where
  rebooting gave_up : Ending
  ready : Settings → Ending

abbrev pub w5500_link_timeout_ms : ℕ
w5500_link_timeout_ms = 15000

abbrev pub or_no_address : Option Bytes → Bytes
or_no_address none = []
or_no_address (some ip_addr) = ip_addr

abbrev pub stable : Option Rc → Bool
stable none = false
stable (some rc) = is_ok rc

-- The Ethernet was started, and its link is stable; `link` are the samples of the link.
unfoldable pub is_linked : EthDriver → (ℕ → Bool) → Settings → Bool
is_linked driver link settings =
    is_ok (product_ethernet_start driver (some settings) (some (zeros host_max))).0
    && stable (wait_for_w5500_link_stable link w5500_link_timeout_ms)

-- The address that the driver writes.
unfoldable pub eth_address : EthDriver → Settings → Bytes
eth_address driver settings =
    or_no_address (product_ethernet_start driver (some settings) (some (zeros host_max))).1

-- In the loop with settings that validate and have the broker enabled: the network is ready, the
-- configuration is well-formed, and no thread of the broker was created.
pub record IsReady {S T : Type 0} (r : Ending × Node S T) : Type 0 where
  pub settings : Settings
  pub boot : r.0 ≡ ready settings
  pub valid : validate_settings (some settings) ≡ ok
  pub enabled : settings.broker.broker_enabled ≡ 1
  pub network : network_ready r.1.status ≡ true
  pub form : IsWellFormed r.1.config
  pub threads : r.1.threads ≡ 0
  pub flag : r.1.broker_thread_started ≡ 0

module _ {S T : Type 0} (env : Platform S) (mesh : Mesh T) (has_led : Bool) where
  -- The variables before the phases of the network.
  unfoldable pub first_node : ℕ → Config S → T → StatusIo → Node S T
  first_node now c table lamp = record {
    config = init env c;
    status = runtime_init.status;
    table = table;
    lamp = status_io_init has_led false false now lamp;
    broker_thread_started = 0;
    threads = 0;
  }

  -- From the network to the loop.
  unfoldable pub connect : ℕ → Settings → Bytes → Node S T → Ending × Node S T
  connect now settings ip_addr t =
      let (started, c, status) = network_phase env settings ip_addr t.config t.status in
      let t' = record t { config = c; status = status } in
      elim started [
        | none ↦ (gave_up, record t' { lamp = set_error has_led false false now t.lamp })
        | some x ↦ (ready x, record t' { table = bridge_control_init mesh env c t.table })
      ]

  unfoldable pub main : EthDriver → (ℕ → Bool) → ℕ → Config S → T → StatusIo → Ending × Node S T
  main driver link now c table lamp =
      let t = first_node now c table lamp in
      elim (get_settings env t.config) [
        | none ↦ (gave_up, fail_with has_led (codes "settings unavailable") now t)
        | some settings ↦
            if is_linked driver link settings
            then connect now settings (eth_address driver settings) t
            else (rebooting, fail_with has_led (codes "ethernet link unavailable") now t)
      ]

  connect-IsReady :
      (now : ℕ) (settings : Settings) (ip_addr : Bytes) (t : Node S T)
      → IsValid settings
      → IsWellFormed t.config
      → t.threads ≡ 0
      → t.broker_thread_started ≡ 0
      → IsReady (connect now settings ip_addr t)
  unfolding connect
  connect-IsReady now settings ip_addr t valid form none_yet flag =
      let (started, valid', enabled, network, form') =
        network_phase_started env settings ip_addr t.config t.status valid form in
      rw (started, connect)
        (record {
          settings = started_with settings ip_addr;
          boot = refl;
          valid = valid';
          enabled = enabled;
          network = network;
          form = form';
          threads = none_yet;
          flag = flag;
        })

  connect-IsRun :
      (now : ℕ) (settings : Settings) (ip_addr : Bytes) (t : Node S T)
      → IsRun t.status (connect now settings ip_addr t).1.status
  unfolding connect
  connect-IsRun now settings ip_addr t =
      let runs = network_phase-IsRun env settings ip_addr t.config t.status in
      elim (Option-cases (network_phase env settings ip_addr t.config t.status).0) [
        | inl e ↦ rw (e, connect) runs
        | inr (x, e) ↦ rw (e, connect) runs
      ]

  -- However main ends, it leaves a status that events of the status made of the first one.
  pub main-IsRun :
      (driver : EthDriver) (link : ℕ → Bool) (now : ℕ) (c : Config S) (table : T) (lamp : StatusIo)
      → IsRun runtime_init.status (main driver link now c table lamp).1.status
  unfolding main first_node get_settings fail_with
  main-IsRun driver link now c table lamp =
      let settings = (init env c).settings in
      let t = first_node now c table lamp in
      elim (Bool-cases (is_linked driver link settings)) [
        | inl e ↦ rw (e, main) (connect-IsRun now settings (eth_address driver settings) t)
        | inr e ↦
            rw (e, main)
              (IsRun-event (failed (some (codes "ethernet link unavailable")))
                (unfold on_event in refl))
      ]

  -- Whatever the store, the board and the memory before, main never gives up: it reboots exactly if
  -- the Ethernet does not start or its link stays unstable, and else it comes to its loop with
  -- settings that validate and have the broker enabled, a network that is ready, a well-formed
  -- configuration and no thread of the broker.
  pub main_ends :
      (driver : EthDriver) (link : ℕ → Bool) (now : ℕ) (c : Config S) (table : T) (lamp : StatusIo)
      → let r = main driver link now c table lamp in
        ((is_linked driver link (init env c).settings ≡ false) × (r.0 ≡ rebooting))
        ⊎ ((is_linked driver link (init env c).settings ≡ true) × IsReady r)
  unfolding main first_node get_settings
  main_ends driver link now c table lamp =
      let form = init-IsWellFormed env c in
      let settings = (init env c).settings in
      let t = first_node now c table lamp in
      elim (Bool-cases (is_linked driver link settings)) [
        | inl e ↦ inr (
          e,
          rw (e, main)
              (connect-IsReady now settings (eth_address driver settings) t form.valid form refl
                refl),
        )
        | inr e ↦ inl (e, rw (e, main) refl)
      ]
