-- ===== src/Startup/Runs.antt =====
-- What the rounds of the loop, the broker's thread and the long press do to the configuration and to
-- the runtime status.
use mqtt_field_bridge_app.Base.{
  ℕ, ◌-◌, ◌≡◌, refl, inl, inr, Bool, Bool-cases, Option-cases, not, ◌&&◌, some, Bytes, Rc, ok, fail,
  ltb, ◌==◌, cstr, codes,
}
use mqtt_field_bridge_app.Config.{
  Settings, Platform, Config, is_ok, get_settings, reset_all, IsWellFormed, reset_all-IsWellFormed,
}
use mqtt_field_bridge_app.Bridge.{Mesh}
use mqtt_field_bridge_app.Runtime.{
  RuntimeStatus, network_start, network_ready, network, broker_start_requested, IsRun, IsRun-kept,
  IsRun-event, IsRun-both, started, failed, enable, asked, on_event,
}
use mqtt_field_bridge_app.Startup.Network.{start_broker_network, active_settings, network_phase}
use mqtt_field_bridge_app.Startup.Service.{
  Node, Broker, Timers, Round, enabled_peer_count, mesh_peer_loss_grace_ms, fail_with,
  start_broker_service, main_round,
}
use mqtt_field_bridge_app.Startup.Entry.{broker_service_entry, status_config_reset_press}

-- The configuration is as before, and the status is what some events left.
pub record Serves {S T : Type 0} (t t' : Node S T) : Type 0 where
  pub config : t'.config ≡ t.config
  pub runs : IsRun t.status t'.status

module _ {S T : Type 0} {t t' : Node S T} where
  unchanged : t'.config ≡ t.config → t'.status ≡ t.status → Serves t t'
  unchanged e same = record { config = e; runs = IsRun-kept same }

module _ {S T : Type 0} (has_led : Bool) where
  fail_with-Serves :
      (error : Bytes) (now : ℕ) (t : Node S T) → Serves t (fail_with has_led error now t)
  unfolding fail_with
  fail_with-Serves error now t = record {
    config = refl;
    runs = IsRun-event (failed (some error)) (unfold on_event in refl);
  }

module _ {S T : Type 0} (env : Platform S) (mesh : Mesh T) (has_led : Bool) where
  start_broker_service-Serves :
      (broker : Broker) (now : ℕ) (x : Settings) (t : Node S T)
      → Serves t (start_broker_service env mesh has_led broker now (some x) t).1
  unfolding start_broker_service
  start_broker_service-Serves broker now x t = elim (Bool-cases (t.broker_thread_started == 0)) [
    | inl e₁ ↦ elim (Bool-cases (is_ok (broker.set_bind_host (cstr x.broker.broker_ip)))) [
      | inl e₂ ↦ elim (Bool-cases (is_ok (broker.set_listen_port x.broker.mqtt_port))) [
        | inl e₃ ↦ rw (e₁, start_broker_service, e₂, e₃) (unchanged refl refl)
        | inr e₃ ↦ rw (e₁, start_broker_service, e₂, e₃) (fail_with-Serves has_led _ now t)
      ]
      | inr e₂ ↦ rw (e₁, start_broker_service, e₂) (fail_with-Serves has_led _ now t)
    ]
    | inr e₁ ↦ rw (e₁, start_broker_service) (unchanged refl refl)
  ]

  pub main_round-Serves :
      (settings : Settings) (r : Round) (t : Node S T) (timers : Timers)
      → Serves t (main_round env mesh has_led settings r (t, timers)).0
  unfolding main_round get_settings
  main_round-Serves settings r t timers =
      let start = start_broker_service-Serves r.broker r.now t.config.settings t in
      let rc =
        (start_broker_service env mesh has_led r.broker r.now (some t.config.settings) t).0 in
      elim (Bool-cases (t.broker_thread_started == 0)) [
        | inl e₁ ↦ elim (Bool-cases (is_ok rc)) [
          | inl e₂ ↦ rw (e₁, main_round, e₂) start
          | inr e₂ ↦ rw (e₁, main_round, e₂) start
        ]
        | inr e₁ ↦ elim (Bool-cases (broker_start_requested t.status)) [
          | inl e₂ ↦ rw (e₁, e₂, main_round) start
          | inr e₂ ↦
              elim (Bool-cases (
                not (settings.broker.mesh_enabled == 0)
                && ltb 0 (enabled_peer_count env t.config)
                && ltb 0 timers.broker_started_ms
                && ltb mesh_peer_loss_grace_ms (r.now - timers.broker_started_ms))) [
                  | inl e₃ ↦
                      rw (e₁, e₂, main_round, e₃)
                        record {
                          config = refl;
                          runs = IsRun-event (asked r.p2p) (unfold on_event in refl);
                        }
                  | inr e₃ ↦ rw (e₁, e₂, main_round, e₃) (unchanged refl refl)
                ]
        ]
      ]

module _ {S T : Type 0} (env : Platform S) (has_led : Bool) where
  pub broker_service_entry-Serves :
      (rc : Rc) (now : ℕ) (t : Node S T) → Serves t (broker_service_entry env has_led rc now t).0
  unfolding broker_service_entry
  broker_service_entry-Serves fail now t = fail_with-Serves has_led _ now t
  broker_service_entry-Serves ok now t = record {
    config = refl;
    runs = IsRun-event started (unfold on_event in refl);
  }

  pub broker_service_entry-threads :
      (rc : Rc) (now : ℕ) (t : Node S T)
      → let t' = (broker_service_entry env has_led rc now t).0 in
        (t'.threads ≡ t.threads) × (t'.broker_thread_started ≡ t.broker_thread_started)
  unfolding broker_service_entry fail_with
  broker_service_entry-threads fail now t = (refl, refl)
  broker_service_entry-threads ok now t = (refl, refl)

  pub status_config_reset_press-threads :
      (now : ℕ) (t : Node S T)
      → let t' = (status_config_reset_press env has_led now t).0 in
        (t'.threads ≡ t.threads) × (t'.broker_thread_started ≡ t.broker_thread_started)
  unfolding status_config_reset_press
  status_config_reset_press-threads now t = elim (Bool-cases (is_ok (reset_all env t.config).0)) [
    | inl e ↦ rw e (refl, refl)
    | inr e ↦ rw e (refl, refl)
  ]

  pub status_config_reset_press-IsWellFormed :
      (now : ℕ) (t : Node S T) → IsWellFormed (status_config_reset_press env has_led now t).0.config
  unfolding status_config_reset_press
  status_config_reset_press-IsWellFormed now t =
      elim (Bool-cases (is_ok (reset_all env t.config).0)) [
        | inl e ↦ rw e (reset_all-IsWellFormed env t.config)
        | inr e ↦ rw e (reset_all-IsWellFormed env t.config)
      ]

  pub status_config_reset_press-IsRun :
      (now : ℕ) (t : Node S T)
      → IsRun t.status (status_config_reset_press env has_led now t).0.status
  unfolding status_config_reset_press
  status_config_reset_press-IsRun now t = elim (Bool-cases (is_ok (reset_all env t.config).0)) [
    | inl e ↦ rw e (IsRun-event (enable 0) (unfold on_event in refl))
    | inr e ↦ rw e (IsRun-kept refl)
  ]

module _ {S : Type 0} (env : Platform S) where
  pub network_phase-IsRun :
      (x : Settings) (eth_ip_addr : Bytes) (c : Config S) (s : RuntimeStatus)
      → IsRun s (network_phase env x eth_ip_addr c s).2
  unfolding network_phase
  network_phase-IsRun x eth_ip_addr c s = elim (Option-cases (start_broker_network x eth_ip_addr)) [
    | inl e ↦
        rw (e, network_phase)
          (IsRun-event (failed (some (codes "network start failed"))) (unfold on_event in refl))
    | inr ((ip_addr, active_mode), e) ↦
        let runtime = active_settings x ip_addr active_mode in
        let s' = network_start (some runtime) s in
        let starts : IsRun s s' = IsRun-event (network (some runtime)) (unfold on_event in refl) in
        elim (Bool-cases (network_ready s')) [
          | inl e' ↦ rw (e, network_phase, e') starts
          | inr e' ↦
              rw (e, network_phase, e')
                (IsRun-both s s' _ starts (
                  IsRun-event (failed (some (codes "network not ready")))
                    (unfold on_event in refl)))
        ]
  ]
