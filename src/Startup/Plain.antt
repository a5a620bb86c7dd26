-- ===== src/Startup/Plain.antt =====
-- main of main.c in the builds without the W5500, on Zephyr and on Linux. The result of broker_init is
-- given; what follows a start of the web server that fails is only logged.
use mqtt_field_bridge_app.Base.{
  ℕ, ◌+◌, ◌≡◌, inl, inr, refl, Bool, false, Bool-cases, not, ◌&&◌, Option, none, some, Bytes, Rc,
  ◌==◌, if◌then◌else◌, codes, zeros, cstr, arith,
}
use mqtt_field_bridge_app.Config.{
  Settings, Platform, Config, host_max, is_ok, init, get_settings, init-IsWellFormed, IsWellFormed,
  IsValid, validate_settings,
}
use mqtt_field_bridge_app.Bridge.{Mesh, bridge_control_init}
use mqtt_field_bridge_app.Runtime.{broker_started, broker_failed, set_broker_enabled}
use mqtt_field_bridge_app.StatusIo.{StatusIo, set_running, set_error}
use mqtt_field_bridge_app.Ethernet.{EthDriver, product_ethernet_start}
use mqtt_field_bridge_app.Startup.Network.{network_phase}
use mqtt_field_bridge_app.Startup.PowerOn.{network_phase_started, started_with}
use mqtt_field_bridge_app.Startup.Service.{Node, Broker, fail_with}
use mqtt_field_bridge_app.Startup.Entry.{fallback_of}
use mqtt_field_bridge_app.Startup.Boot.{eth_address, first_node}
use mqtt_field_bridge_app.Startup.Threads.{accepts}

-- How it ends: without a network, with only the console; with the broker disabled; with a result of
-- -1, or asleep for good; with the broker's thread; or in the broker's loop, with the port that a
-- second listener is asked for.
pub data PlainEnding : Type 0 where
  provisioning disabled failed thread : PlainEnding
  running : Option ℕ → PlainEnding

-- The Ethernet was started, and has its link.
unfoldable pub is_up : EthDriver → Bool → Settings → Bool
is_up driver link_ready settings =
    is_ok (product_ethernet_start driver (some settings) (some (zeros host_max))).0 && link_ready

module _ {S T : Type 0} (env : Platform S) (mesh : Mesh T) (has_led on_linux : Bool)
    (broker : Broker) (init_rc : Rc) where
  -- The end of main, behind the checks of the broker's address and port.
  unfoldable pub run_broker : ℕ → Settings → Node S T → PlainEnding × Node S T
  run_broker now settings t =
      if on_linux
      then if is_ok init_rc
        then (running (fallback_of (some settings)), record t { status = broker_started t.status })
        else (failed, fail_with has_led (codes "broker_init failed") now t)
      else (thread, record t { threads = t.threads + 1 })

  -- From bridge_control_init on.
  unfoldable pub start_broker : ℕ → Settings → Node S T → PlainEnding × Node S T
  start_broker now settings t =
      if settings.broker.broker_enabled == 0
      then (
        disabled,
        record t {
          status = (set_broker_enabled 0 t.status).1;
          lamp = set_running has_led false false 0 now t.lamp;
        },
      )
      else if not (is_ok (broker.set_bind_host (cstr settings.broker.broker_ip)))
      then (failed, fail_with has_led (codes "invalid broker bind ip") now t)
      else if not (is_ok (broker.set_listen_port settings.broker.mqtt_port))
      then (failed, fail_with has_led (codes "invalid broker listen port") now t)
      else run_broker now settings
          (record t { lamp = set_running has_led false false 1 now t.lamp })

  unfoldable pub plain_connect : ℕ → Settings → Bytes → Node S T → PlainEnding × Node S T
  plain_connect now settings ip_addr t =
      let (x, c, status) = network_phase env settings ip_addr t.config t.status in
      let t' = record t { config = c; status = status } in
      elim x [
        | none ↦ (failed, record t' { lamp = set_error has_led false false now t.lamp })
        | some runtime ↦
            start_broker now runtime (record t' { table = bridge_control_init mesh env c t.table })
      ]

  unfoldable pub plain_main :
      EthDriver → Bool → ℕ → Config S → T → StatusIo → PlainEnding × Node S T
  plain_main driver link_ready now c table lamp =
      let t = first_node env mesh has_led now c table lamp in
      elim (get_settings env t.config) [
        | none ↦ (failed, fail_with has_led (codes "settings unavailable") now t)
        | some settings ↦
            if is_up driver link_ready settings
            then plain_connect now settings (eth_address driver settings) t
            else (
              provisioning,
              record t {
                status = broker_failed (some (codes "UART provisioning required")) t.status;
                lamp = set_running has_led false false 0 now t.lamp;
              },
            )
      ]

  -- How main ends with the broker enabled.
  abbrev pub ending_of : Settings → PlainEnding
  ending_of x =
      if accepts broker x
      then if on_linux
        then if is_ok init_rc then running (some x.broker.fallback_port) else failed
        else thread
      else failed

  start_broker_ends :
      (now : ℕ) (x : Settings) (t : Node S T)
      → IsValid x
      → x.broker.broker_enabled ≡ 1
      → let r = start_broker now x t in (r.0 ≡ ending_of x) × (r.1.config ≡ t.config)
  unfolding start_broker run_broker fail_with fallback_of validate_settings
  start_broker_ends now x t valid enabled = ground arith

  plain_connect_ends :
      (now : ℕ) (settings : Settings) (ip_addr : Bytes) (t : Node S T)
      → IsValid settings
      → IsWellFormed t.config
      → let r = plain_connect now settings ip_addr t in
        (r.0 ≡ ending_of (started_with settings ip_addr)) × IsWellFormed r.1.config
  unfolding plain_connect
  plain_connect_ends now settings ip_addr t valid form =
      let (started, valid', enabled, network, form') =
        network_phase_started env settings ip_addr t.config t.status valid form in
      let (x, c, status) = network_phase env settings ip_addr t.config t.status in
      let t' = record t {
        config = c;
        status = status;
        table = bridge_control_init mesh env c t.table;
      } in
      let ends = start_broker_ends now (started_with settings ip_addr) t' valid' enabled in
      rw (started, plain_connect) (ends.0, rw ends.1 form')

  -- Whatever the store, the board and the memory before, main in the builds without the W5500 leaves a
  -- well-formed configuration; without a link it waits for provisioning, and with one it never finds
  -- the broker disabled: it comes to run the broker with the second port, or on Zephyr to create its
  -- thread, exactly if the broker module takes the settings, and on Linux broker_init succeeds.
  pub plain_main_ends :
      (driver : EthDriver) (link_ready : Bool) (now : ℕ) (c : Config S) (table : T)
      (lamp : StatusIo)
      → let r = plain_main driver link_ready now c table lamp in
        let settings = (init env c).settings in
        IsWellFormed r.1.config
        × (r.0 ≡ (
            if is_up driver link_ready settings
            then ending_of (started_with settings (eth_address driver settings))
            else provisioning))
  unfolding plain_main first_node get_settings
  plain_main_ends driver link_ready now c table lamp =
      let form = init-IsWellFormed env c in
      let settings = (init env c).settings in
      let t = first_node env mesh has_led now c table lamp in
      elim (Bool-cases (is_up driver link_ready settings)) [
        | inl e ↦
            let ends =
              plain_connect_ends now settings (eth_address driver settings) t form.valid form in
            rw (e, plain_main) (ends.1, ends.0)
        | inr e ↦ rw (e, plain_main) (form, refl)
      ]
