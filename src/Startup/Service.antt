-- ===== src/Startup/Service.antt =====
-- The broker's thread and the main loop behind it, in the build for the W5500. What the other threads
-- do between two rounds of the loop is a step of its own.
use mqtt_field_bridge_app.Base.{
  ℕ, zero, suc, ◌+◌, ◌-◌, Bool, false, not, ◌&&◌, Option, none, some, List, [], ◌∷◌, Bytes, pos, Rc,
  ok, fail, ltb, ◌==◌, if◌then◌else◌, codes, cstr,
}
use mqtt_field_bridge_app.Config.{
  Settings, Platform, Config, peer_max, is_ok, get_peer, get_settings,
}
use mqtt_field_bridge_app.Bridge.{Mesh, apply_peers}
use mqtt_field_bridge_app.Runtime.{
  RuntimeStatus, P2p, broker_failed, broker_start_requested, get_status,
}
use mqtt_field_bridge_app.StatusIo.{StatusIo, set_running, set_error}

-- What the threads share, the static flag, and the number of calls of k_thread_create.
pub record Node (S T : Type 0) : Type 0 where
  pub config : Config S
  pub status : RuntimeStatus
  pub table : T
  pub lamp : StatusIo
  pub broker_thread_started : ℕ
  pub threads : ℕ

-- What the broker module returns for a host and a port.
pub record Broker : Type 0 where
  pub set_bind_host : Bytes → Rc
  pub set_listen_port : ℕ → Rc

-- The local variables of the loop.
pub record Timers : Type 0 where
  pub broker_started_ms : ℕ
  pub peer_zero_since_ms : ℕ
  pub peer_zero_last_log_ms : ℕ

-- What a round finds: the broker module, the mesh, and the clock at each call of k_uptime_get.
pub record Round : Type 0 where
  pub broker : Broker
  pub p2p : P2p
  pub now : ℕ
  pub then_now : ℕ
  pub last_now : ℕ

abbrev pub mesh_peer_loss_grace_ms : ℕ
mesh_peer_loss_grace_ms = 90000

abbrev pub mesh_peer_loss_log_ms : ℕ
mesh_peer_loss_log_ms = 60000

-- A round, or what the other threads leave of what they share.
pub data Step (S T : Type 0) : Type 0 where
  looped : Round → Step S T
  others : Config S → RuntimeStatus → T → StatusIo → Step S T

-- The times of a loss of all mesh peers, for the log.
unfoldable pub watch_peers : Round → ℕ → Timers → Timers
watch_peers round connected_peers timers =
    if not (connected_peers == 0)
    then record timers { peer_zero_since_ms = 0; peer_zero_last_log_ms = 0 }
    else if timers.peer_zero_since_ms == 0
    then record timers {
      peer_zero_since_ms = round.then_now;
      peer_zero_last_log_ms = round.then_now;
    }
    else if ltb mesh_peer_loss_log_ms (round.then_now - timers.peer_zero_last_log_ms)
    then record timers { peer_zero_last_log_ms = round.last_now }
    else timers

module _ {S : Type 0} (env : Platform S) where
  -- The loop over the slots: `n` rounds from slot `i`.
  unfoldable pub count_enabled : Config S → ℕ → ℕ → ℕ → ℕ
  count_enabled c zero i count = count
  count_enabled c (suc n) i count = elim (get_peer env c (pos i)) [
    | none ↦ count_enabled c n (i + 1) count
    | some peer ↦ count_enabled c n (i + 1) (if peer.enabled == 0 then count else count + 1)
  ]

  unfoldable pub enabled_peer_count : Config S → ℕ
  enabled_peer_count c = count_enabled c peer_max 0 0

module _ {S T : Type 0} (has_led : Bool) where
  -- The broker failed with an error, and the lamp shows it.
  unfoldable pub fail_with : Bytes → ℕ → Node S T → Node S T
  fail_with error now t = record t {
    status = broker_failed (some error) t.status;
    lamp = set_error has_led false false now t.lamp;
  }

module _ {S T : Type 0} (env : Platform S) (mesh : Mesh T) (has_led : Bool) where
  unfoldable pub start_broker_service : Broker → ℕ → Option Settings → Node S T → Rc × Node S T
  start_broker_service broker now none t =
      if not (t.broker_thread_started == 0)
      then (ok, t)
      else (fail, fail_with has_led (codes "settings unavailable") now t)
  start_broker_service broker now (some settings) t =
      if not (t.broker_thread_started == 0)
      then (ok, t)
      else if not (is_ok (broker.set_bind_host (cstr settings.broker.broker_ip)))
      then (fail, fail_with has_led (codes "invalid broker bind ip") now t)
      else if not (is_ok (broker.set_listen_port settings.broker.mqtt_port))
      then (fail, fail_with has_led (codes "invalid broker listen port") now t)
      else (
        ok,
        record t {
          table = (apply_peers mesh env t.config t.table).1;
          lamp = set_running has_led false false 1 now t.lamp;
          threads = t.threads + 1;
          broker_thread_started = 1;
        },
      )

  -- One round, with the settings that the program started with.
  unfoldable pub main_round : Settings → Round → Node S T × Timers → Node S T × Timers
  main_round settings round (t, timers) =
      if t.broker_thread_started == 0
      then elim (get_settings env t.config) [
        | none ↦ (fail_with has_led (codes "settings unavailable") round.now t, timers)
        | some requested ↦
            let (rc, t') = start_broker_service round.broker round.now (some requested) t in
            if is_ok rc
            then (t', record timers { broker_started_ms = round.then_now; peer_zero_since_ms = 0 })
            else (t', timers)
      ]
      else if broker_start_requested t.status
      then elim (get_settings env t.config) [
        | none ↦ (t, timers)
        | some requested ↦
            ((start_broker_service round.broker round.now (some requested) t).1, timers)
      ]
      else if not (settings.broker.mesh_enabled == 0)
          && ltb 0 (enabled_peer_count env t.config)
          && ltb 0 timers.broker_started_ms
          && ltb mesh_peer_loss_grace_ms (round.now - timers.broker_started_ms)
      then (let status = get_status round.p2p t.status in
          (record t { status = status }, watch_peers round status.connected_peers timers))
      else (t, timers)

  unfoldable pub on_step : Settings → Step S T → Node S T × Timers → Node S T × Timers
  on_step settings (looped r) st = main_round settings r st
  on_step settings (others config status table lamp) (t, timers) =
      (record t { config = config; status = status; table = table; lamp = lamp }, timers)

  unfoldable pub on_steps : Settings → List (Step S T) → Node S T × Timers → Node S T × Timers
  on_steps settings [] st = st
  on_steps settings (step ∷ steps) st = on_steps settings steps (on_step settings step st)
