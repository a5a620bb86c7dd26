-- ===== src/System/Service.antt =====
-- How the broker comes up: a round of main's loop, and the thread that it creates.
use mqtt_field_bridge_app.Base.{
  ℕ, ◌+◌, ◌<◌, ◌≡◌, refl, true, false, ok, arith, cstr, ap, snprintf, equal, codes,
}
use mqtt_field_bridge_app.Bridge.{apply_peers}
use mqtt_field_bridge_app.Runtime.{broker_start_requested, broker_started, copy_str}
use mqtt_field_bridge_app.Startup.{Node, Round, accepts, main_round-accepts, broker_service_entry}
use mqtt_field_bridge_app.System.{System, node_of, with_node}
use mqtt_field_bridge_app.System.Steps.{
  Build, on_round, with_round, on_entry, loop_round, thread_entry, Reach, later,
}
use mqtt_field_bridge_app.System.Safety.{Reach-IsSound}

module _ {S T : Type 0} (b : Build S T) where
  -- From every reachable state without the broker's thread: a round in which the broker module takes
  -- the current settings creates it and applies the peers, the thread can then be entered, and where
  -- broker_init succeeds the broker runs and no start of it is requested.
  pub broker_comes_up :
      (r : Round) (now : ℕ) (s : System S T)
      → Reach b s
      → s.threads ≡ 0
      → accepts r.broker s.config.settings ≡ true
      → let s₁ = on_round b r s in
        let s₂ = on_entry b ok now s₁ in
        Reach b s₂
        × (s₂.threads ≡ 1)
        × (s₂.table ≡ (apply_peers b.mesh b.env s.config s.table).1)
        × (cstr s₂.runtime.status.broker_state ≡ codes "running")
        × (broker_start_requested s₂.runtime.status ≡ false)
  unfolding on_round on_entry with_round with_node node_of broker_service_entry broker_started
      copy_str snprintf cstr broker_start_requested equal
  broker_comes_up r now s h none_yet taken =
      let sound = Reach-IsSound b h in
      let flag : s.broker_thread_started ≡ 0 = omega (arith, sound.flag, none_yet) in
      let round =
        main_round-accepts b.env b.mesh b.has_led s.settings r (node_of s) s.timers flag taken in
      let s₁ = on_round b r s in
      let created : s₁.threads ≡ s.threads + 1 = rw round refl in
      let fresh : s₁.entered < s₁.threads = omega (arith, created, sound.entered) in
      (
        later (later h (loop_round r)) (thread_entry ok now fresh),
        omega (arith, created, none_yet),
        ap (λ (t : Node S T). t.table) round,
        refl,
        refl,
      )
