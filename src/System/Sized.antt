-- ===== src/System/Sized.antt =====
-- The settings of the node have the sizes of the C records.
use mqtt_field_bridge_app.Base.{ℕ, inl, inr, true, Bool-cases, ◌==◌}
use mqtt_field_bridge_app.Config.{
  Config, IsSized, IsSizedStore, is_ok, reset_all, reset_all-IsSized, reset_all-Holds, Effect-Holds,
}
use mqtt_field_bridge_app.Console.{handle_line-Does}
use mqtt_field_bridge_app.Http.{zephyr_dynamic_handler-IsAct}
use mqtt_field_bridge_app.StatusIo.{button_work_handler}
use mqtt_field_bridge_app.Startup.{
  main-IsSized, InHand, main_round-Serves, broker_service_entry-Serves, status_config_reset_press,
}
use mqtt_field_bridge_app.System.{
  System, console_of, with_console, server_of, with_server, node_of, with_node, started,
}
use mqtt_field_bridge_app.System.Steps.{
  Build, on_line, on_call, with_round, on_round, on_entry, on_tick, pressed, on_sample, Starts,
  begins, again, Step, console_line, http_call, loop_round, thread_entry, lamp_tick, button_sample,
  seeds_changed, power_on, Reach, start, later,
}

-- Those in memory, those that main runs with, and those in the store.
pub record HasSizes {S T : Type 0} (Holds : S → Type 0) (s : System S T) : Type 0 where
  pub memory : IsSized s.config.settings
  pub in_hand : IsSized s.settings
  pub stored : Holds s.config.store

module _ {S T : Type 0} (b : Build S T) where
  -- The store at the first power-on.
  unfoldable pub first_store : {s : System S T} → Reach b s → S
  first_store (start {c} starts) = c.store
  first_store (later before step) = first_store before

module _ {S T : Type 0} (b : Build S T) {Holds : S → Type 0} (laws : IsSizedStore b.env Holds) where
  Starts-HasSizes :
      {c : Config S} {s : System S T} → Starts b c s → Holds c.store → HasSizes Holds s
  unfolding started InHand
  Starts-HasSizes (begins driver link now c table lamp e) h =
      let sizes = main-IsSized b.env laws b.mesh b.has_led driver link now c table lamp h in
      record { memory = sizes.1.0; in_hand = rw e at sizes.0; stored = sizes.1.1 }
  Starts-HasSizes (again driver link now c table lamp e rest) h =
      let sizes = main-IsSized b.env laws b.mesh b.has_led driver link now c table lamp h in
      Starts-HasSizes rest sizes.1.1

  pressed-HasSizes :
      (now : ℕ) (s : System S T)
      → HasSizes Holds s
      → HasSizes Holds (pressed b (status_config_reset_press b.env b.has_led now (node_of s)) s)
  unfolding pressed with_node node_of status_config_reset_press
  pressed-HasSizes now s h =
      let sizes = reset_all-IsSized b.env s.config in
      let held = reset_all-Holds b.env laws s.config h.stored in
      elim (Bool-cases (is_ok (reset_all b.env s.config).0)) [
        | inl e ↦ rw e record { memory = sizes; in_hand = h.in_hand; stored = held }
        | inr e ↦ rw e record { memory = sizes; in_hand = h.in_hand; stored = held }
      ]

  Step-HasSizes : {s s' : System S T} → Step b s s' → HasSizes Holds s → HasSizes Holds s'
  unfolding on_line with_console console_of on_call with_server server_of on_round with_round
      with_node node_of on_entry on_tick on_sample
  Step-HasSizes {s} (console_line p2p input) h =
      let does = handle_line-Does b.env p2p true input (console_of s) in
      let sizes = does.sized h.memory in
      record {
        memory = sizes;
        in_hand = h.in_hand;
        stored = Effect-Holds b.env laws does.acts sizes h.stored;
      }
  Step-HasSizes {s} (http_call p2p client transaction request) h =
      let act =
        zephyr_dynamic_handler-IsAct b.env b.mesh p2p client transaction request s.slots
          (server_of s) in
      let sizes = act.sized h.memory in
      record {
        memory = sizes;
        in_hand = h.in_hand;
        stored = Effect-Holds b.env laws act.acts.1 sizes h.stored;
      }
  Step-HasSizes {s} (loop_round r) h =
      let serves = main_round-Serves b.env b.mesh b.has_led s.settings r (node_of s) s.timers in
      record {
        memory = rw serves.config h.memory;
        in_hand = h.in_hand;
        stored = rw serves.config h.stored;
      }
  Step-HasSizes {s} (thread_entry rc now fresh) h =
      let serves = broker_service_entry-Serves b.env b.has_led rc now (node_of s) in
      record {
        memory = rw serves.config h.memory;
        in_hand = h.in_hand;
        stored = rw serves.config h.stored;
      }
  Step-HasSizes (lamp_tick now) h = record {
    memory = h.memory;
    in_hand = h.in_hand;
    stored = h.stored;
  }
  Step-HasSizes {s} (button_sample down now) h =
      let lamp = button_work_handler b.has_led b.has_button true down now s.lamp in
      let s' = record s { lamp = lamp } in
      let h' : HasSizes Holds s' = record {
        memory = h.memory;
        in_hand = h.in_hand;
        stored = h.stored;
      } in
      elim (Bool-cases (lamp.reset_calls == s.lamp.reset_calls)) [
        | inl e ↦ rw (e, on_sample) h'
        | inr e ↦ rw (e, on_sample) (pressed-HasSizes now s' h')
      ]
  Step-HasSizes (seeds_changed table) h = record {
    memory = h.memory;
    in_hand = h.in_hand;
    stored = h.stored;
  }
  Step-HasSizes (power_on starts) h = Starts-HasSizes starts h.stored

  -- Over a store that gives back what it holds, and that at the first power-on holds only records
  -- with terminated texts and with numbers that fit their types: in every state that the node
  -- reaches each text of its settings, of those in memory and of those that main runs with, is
  -- terminated in an array of its size, each number fits its type, and the store still holds only
  -- such records.
  pub Reach-HasSizes : {s : System S T} (h : Reach b s) → Holds (first_store b h) → HasSizes Holds s
  unfolding first_store
  Reach-HasSizes (start starts) held = Starts-HasSizes starts held
  Reach-HasSizes (later before step) held = Step-HasSizes step (Reach-HasSizes before held)
