-- ===== src/Startup/Threads.antt =====
-- The broker's thread, over the rounds of main's loop: start_broker_service and main_round.
use mqtt_field_bridge_app.Base.{
  ℕ, suc, ◌≡◌, refl, inl, inr, Bool, true, false, Bool-cases, not, ◌&&◌, ◌||◌, ◌+◌, some, List, [],
  ◌∷◌, ok, ◌==◌, if◌then◌else◌, cstr, arith, ltb, ◌-◌,
}
use mqtt_field_bridge_app.Config.{Settings, Platform, is_ok, get_settings}
use mqtt_field_bridge_app.Bridge.{Mesh, apply_peers}
use mqtt_field_bridge_app.Runtime.{broker_start_requested}
use mqtt_field_bridge_app.StatusIo.{set_running}
use mqtt_field_bridge_app.Startup.Service.{
  Node, Broker, Timers, Round, Step, looped, others, start_broker_service, main_round, fail_with,
  on_step, on_steps, enabled_peer_count, mesh_peer_loss_grace_ms,
}

-- The broker module takes the host and the port of these settings.
abbrev pub accepts : Broker → Settings → Bool
accepts broker x =
    is_ok (broker.set_bind_host (cstr x.broker.broker_ip))
    && is_ok (broker.set_listen_port x.broker.mqtt_port)

module _ {S T : Type 0} (env : Platform S) (mesh : Mesh T) (has_led : Bool) where
  start_broker_service-threads :
      (broker : Broker) (now : ℕ) (x : Settings) (t : Node S T)
      → t.broker_thread_started ≡ 0
      → let (rc, t') = start_broker_service env mesh has_led broker now (some x) t in
        (t'.threads ≡ (if accepts broker x then suc t.threads else t.threads))
        × (t'.broker_thread_started ≡ (if accepts broker x then 1 else 0))
  unfolding start_broker_service fail_with
  start_broker_service-threads broker now x t h = ground arith

  -- A service that was started stays as it is.
  start_broker_service_again :
      (broker : Broker) (now : ℕ) (x : Settings) (t : Node S T)
      → t.broker_thread_started ≡ 1
      → start_broker_service env mesh has_led broker now (some x) t ≡ (ok, t)
  unfolding start_broker_service
  start_broker_service_again broker now x t h = ground arith

  abbrev pub IsStarted : ℕ → Node S T → Type 0
  IsStarted n t = (t.threads ≡ n) × (t.broker_thread_started ≡ 1)

  -- Behind the start of the thread, a round that finds the broker requested changes nothing: the broker
  -- stays requested.
  pub main_round_requested :
      (settings : Settings) (r : Round) (t : Node S T) (timers : Timers)
      → t.broker_thread_started ≡ 1
      → broker_start_requested t.status ≡ true
      → main_round env mesh has_led settings r (t, timers) ≡ (t, timers)
  unfolding main_round get_settings
  main_round_requested settings r t timers h e =
      let running : (t.broker_thread_started == 0) ≡ false = ground (arith, h) in
      let again = start_broker_service_again r.broker r.now t.config.settings t h in
      rw (running, e, main_round, again) refl

  pub main_round-IsStarted :
      (settings : Settings) (r : Round) (t : Node S T) (timers : Timers) (n : ℕ)
      → IsStarted n t
      → IsStarted n (main_round env mesh has_led settings r (t, timers)).0
  unfolding main_round get_settings
  main_round-IsStarted settings r t timers n h =
      let running : (t.broker_thread_started == 0) ≡ false = ground (arith, h.1) in
      elim (Bool-cases (broker_start_requested t.status)) [
        | inl e ↦ rw (main_round_requested settings r t timers h.1 e) h
        | inr e ↦
            elim (Bool-cases (
              not (settings.broker.mesh_enabled == 0)
              && ltb 0 (enabled_peer_count env t.config)
              && ltb 0 timers.broker_started_ms
              && ltb mesh_peer_loss_grace_ms (r.now - timers.broker_started_ms))) [
                | inl e' ↦ rw (running, e, main_round, e') h
                | inr e' ↦ rw (running, e, main_round, e') h
              ]
      ]

  on_steps-IsStarted :
      (settings : Settings) (steps : List (Step S T)) (st : Node S T × Timers) (n : ℕ)
      → IsStarted n st.0
      → IsStarted n (on_steps env mesh has_led settings steps st).0
  unfolding on_steps on_step
  on_steps-IsStarted settings [] st n h = h
  on_steps-IsStarted settings (looped r ∷ steps) (t, timers) n h =
      on_steps-IsStarted settings steps _ n (main_round-IsStarted settings r t timers n h)
  on_steps-IsStarted settings (others config status table lamp ∷ steps) (t, timers) n h =
      on_steps-IsStarted settings steps _ n h

  -- A round in which the broker module takes the current settings.
  unfoldable pub some_accepted : Settings → List (Step S T) → Node S T × Timers → Bool
  some_accepted settings [] st = false
  some_accepted settings (looped r ∷ steps) (t, timers) =
      let rest =
        some_accepted settings steps (main_round env mesh has_led settings r (t, timers)) in
      accepts r.broker t.config.settings || rest
  some_accepted settings (others config status table lamp ∷ steps) (t, timers) =
      some_accepted settings steps
        (on_step env mesh has_led settings (others config status table lamp) (t, timers))

  pub main_round-threads :
      (settings : Settings) (r : Round) (t : Node S T) (timers : Timers)
      → t.broker_thread_started ≡ 0
      → let t' = (main_round env mesh has_led settings r (t, timers)).0 in
        let yes = accepts r.broker t.config.settings in
        (t'.threads ≡ (if yes then suc t.threads else t.threads))
        × (t'.broker_thread_started ≡ (if yes then 1 else 0))
  unfolding main_round get_settings
  main_round-threads settings r t timers h =
      let waiting : (t.broker_thread_started == 0) ≡ true = ground (arith, h) in
      let start = start_broker_service-threads r.broker r.now t.config.settings t h in
      let rc =
        (start_broker_service env mesh has_led r.broker r.now (some t.config.settings) t).0 in
      elim (Bool-cases (is_ok rc)) [
        | inl e ↦ rw (waiting, main_round, e) start
        | inr e ↦ rw (waiting, main_round, e) start
      ]

  -- A node with its thread, and the seeds that it applied.
  abbrev pub with_service : ℕ → Node S T → Node S T
  with_service now t = record t {
    table = (apply_peers mesh env t.config t.table).1;
    lamp = set_running has_led false false 1 now t.lamp;
    threads = t.threads + 1;
    broker_thread_started = 1;
  }

  start_broker_service-accepts :
      (broker : Broker) (now : ℕ) (x : Settings) (t : Node S T)
      → t.broker_thread_started ≡ 0
      → accepts broker x ≡ true
      → start_broker_service env mesh has_led broker now (some x) t ≡ (ok, with_service now t)
  unfolding start_broker_service
  start_broker_service-accepts broker now x t h taken = ground arith

  pub main_round-accepts :
      (settings : Settings) (r : Round) (t : Node S T) (timers : Timers)
      → t.broker_thread_started ≡ 0
      → accepts r.broker t.config.settings ≡ true
      → (main_round env mesh has_led settings r (t, timers)).0 ≡ with_service r.now t
  unfolding main_round get_settings
  main_round-accepts settings r t timers h taken =
      let waiting : (t.broker_thread_started == 0) ≡ true = ground (arith, h) in
      let start = start_broker_service-accepts r.broker r.now t.config.settings t h taken in
      rw (waiting, main_round, start) refl

  -- Over any rounds of the loop, whatever the other threads do between them, the broker's thread is
  -- created once if the broker module takes the current settings in some round, and else never; the
  -- flag says which.
  pub on_steps-threads :
      (settings : Settings) (steps : List (Step S T)) (st : Node S T × Timers)
      → st.0.threads ≡ 0
      → st.0.broker_thread_started ≡ 0
      → let t' = (on_steps env mesh has_led settings steps st).0 in
        let yes = some_accepted settings steps st in
        (t'.threads ≡ (if yes then 1 else 0)) × (t'.broker_thread_started ≡ (if yes then 1 else 0))
  unfolding on_steps on_step some_accepted
  on_steps-threads settings [] (t, timers) none_yet waiting = (none_yet, waiting)
  on_steps-threads settings (looped r ∷ steps) (t, timers) none_yet waiting =
      let first = main_round-threads settings r t timers waiting in
      let st' = main_round env mesh has_led settings r (t, timers) in
      elim (Bool-cases (accepts r.broker t.config.settings)) [
        | inl e ↦ rw (e, some_accepted) (on_steps-IsStarted settings steps st' 1 (ground arith))
        | inr e ↦
            rw (e, some_accepted)
              (on_steps-threads settings steps st' (ground arith) (ground arith))
      ]
  on_steps-threads settings (others config status table lamp ∷ steps) (t, timers) none_yet waiting =
      on_steps-threads settings steps _ none_yet waiting
