-- ===== src/System/Moves.antt =====
-- The moves of the threads, and the invariant.
use mqtt_field_bridge_app.Base.{
  ℕ, ◌+◌, ◌≤◌, ◌<◌, ◌≡◌, inl, inr, Bool, true, Bool-cases, Option, Bytes, Rc, ◌⊎◌, ◌∙◌, ◌==◌, arith,
}
use mqtt_field_bridge_app.Config.{Settings, Effect-IsWellFormed}
use mqtt_field_bridge_app.Runtime.{P2p, IsRun-both}
use mqtt_field_bridge_app.Console.{handle_line-Does}
use mqtt_field_bridge_app.Http.{
  Transaction, Request, zephyr_dynamic_handler-IsAct, zephyr_dynamic_handler-IsExclusive,
  IsAct-IsWellFormed,
}
use mqtt_field_bridge_app.StatusIo.{button_work_handler}
use mqtt_field_bridge_app.Startup.{
  Node, Timers, Round, main_round, main_round-Serves, broker_service_entry,
  broker_service_entry-Serves, broker_service_entry-threads, status_config_reset_press,
  status_config_reset_press-IsWellFormed, status_config_reset_press-IsRun,
  status_config_reset_press-threads, main_round-threads, main_round-IsStarted,
}
use mqtt_field_bridge_app.System.{
  System, console_of, with_console, server_of, with_server, node_of, with_node,
}
use mqtt_field_bridge_app.System.Invariant.{
  IsSound, One, with_others-IsSound, with_node-IsSound, same_threads-IsSound,
}
use mqtt_field_bridge_app.System.Steps.{
  Build, on_line, on_call, with_round, on_round, on_entry, pressed, on_sample,
}

flag_cases : (threads flag : ℕ) → One threads flag → (flag ≡ 0) ⊎ (flag ≡ 1)
flag_cases threads flag h = ground arith

module _ {S T : Type 0} (b : Build S T) where
  main_round-One :
      (settings : Settings) (r : Round) (t : Node S T) (timers : Timers)
      → One t.threads t.broker_thread_started
      → let t' = (main_round b.env b.mesh b.has_led settings r (t, timers)).0 in
        One t'.threads t'.broker_thread_started × (t.threads ≤ t'.threads)
  main_round-One settings r t timers h = elim (flag_cases t.threads t.broker_thread_started h) [
    | inl e ↦
        let first = main_round-threads b.env b.mesh b.has_led settings r t timers e in
        ground (arith, h)
    | inr e ↦
        let kept = main_round-IsStarted b.env b.mesh b.has_led settings r t timers 1 (h.0 ∙ e, e) in
        ground (arith, h)
  ]

  pub on_line-IsSound :
      (p2p : P2p) (input : Option Bytes) (s : System S T)
      → IsSound s
      → IsSound (on_line b p2p input s)
  unfolding on_line with_console console_of
  on_line-IsSound p2p input s h =
      let does = handle_line-Does b.env p2p true input (console_of s) in
      record {
        valid = h.valid;
        enabled = h.enabled;
        form = Effect-IsWellFormed b.env _ _ _ does.acts h.form;
        status = IsRun-both _ _ _ h.status does.runs;
        slots = h.slots;
        flag = h.flag;
        single = h.single;
        entered = h.entered;
      }

  pub on_call-IsSound :
      (p2p : P2p) (client : ℕ) (transaction : Transaction) (request : Request) (s : System S T)
      → IsSound s
      → IsSound (on_call b p2p client transaction request s)
  unfolding on_call with_server server_of
  on_call-IsSound p2p client transaction request s h =
      let act =
        zephyr_dynamic_handler-IsAct b.env b.mesh p2p client transaction request s.slots
          (server_of s) in
      record {
        valid = h.valid;
        enabled = h.enabled;
        form = IsAct-IsWellFormed b.env b.mesh p2p _ _ act h.form;
        status = IsRun-both _ _ _ h.status act.runs;
        slots =
            zephyr_dynamic_handler-IsExclusive b.env b.mesh p2p 2 client transaction request s.slots
              (server_of s) h.slots;
        flag = h.flag;
        single = h.single;
        entered = h.entered;
      }

  pub on_round-IsSound : (r : Round) (s : System S T) → IsSound s → IsSound (on_round b r s)
  unfolding on_round with_round with_node node_of
  on_round-IsSound r s h =
      let (t, timers) = main_round b.env b.mesh b.has_led s.settings r (node_of s, s.timers) in
      let serves = main_round-Serves b.env b.mesh b.has_led s.settings r (node_of s) s.timers in
      let one = main_round-One s.settings r (node_of s) s.timers (h.flag, h.single) in
      let after = with_node-IsSound t s h (rw serves.config h.form) serves.runs one.0 one.1 in
      with_others-IsSound t.lamp t.table s.reboots timers (with_node t s) after

  pub on_entry-IsSound :
      (rc : Rc) (now : ℕ) (s : System S T)
      → s.entered < s.threads
      → IsSound s
      → IsSound (on_entry b rc now s)
  unfolding on_entry with_node node_of
  on_entry-IsSound rc now s fresh h =
      let serves = broker_service_entry-Serves b.env b.has_led rc now (node_of s) in
      let threads = broker_service_entry-threads b.env b.has_led rc now (node_of s) in
      let t = (broker_service_entry b.env b.has_led rc now (node_of s)).0 in
      let after = same_threads-IsSound t s h (rw serves.config h.form) serves.runs threads in
      record {
        valid = after.valid;
        enabled = after.enabled;
        form = after.form;
        status = after.status;
        slots = after.slots;
        flag = after.flag;
        single = after.single;
        entered = omega (arith, threads.0, fresh);
      }

  pressed-IsSound :
      (now : ℕ) (s : System S T)
      → IsSound s
      → IsSound (pressed b (status_config_reset_press b.env b.has_led now (node_of s)) s)
  unfolding pressed with_node node_of
  pressed-IsSound now s h =
      let (t, reboot) = status_config_reset_press b.env b.has_led now (node_of s) in
      let after =
        same_threads-IsSound t s h
          (status_config_reset_press-IsWellFormed b.env b.has_led now (node_of s))
          (status_config_reset_press-IsRun b.env b.has_led now (node_of s))
          (status_config_reset_press-threads b.env b.has_led now (node_of s)) in
      elim (Bool-cases reboot) [
        | inl e ↦
            rw (e, pressed)
              (with_others-IsSound t.lamp t.table (s.reboots + 1) s.timers (with_node t s) after)
        | inr e ↦ rw (e, pressed) after
      ]

  pub on_sample-IsSound :
      (down : Bool) (now : ℕ) (s : System S T) → IsSound s → IsSound (on_sample b down now s)
  unfolding on_sample pressed with_node node_of
  on_sample-IsSound down now s h =
      let lamp = button_work_handler b.has_led b.has_button true down now s.lamp in
      let s' = record s { lamp = lamp } in
      elim (Bool-cases (lamp.reset_calls == s.lamp.reset_calls)) [
        | inl e ↦ rw (e, on_sample) (with_others-IsSound lamp s.table s.reboots s.timers s h)
        | inr e ↦
            rw (e, on_sample)
              (pressed-IsSound now s' (with_others-IsSound lamp s.table s.reboots s.timers s h))
      ]
