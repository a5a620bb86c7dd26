-- ===== src/Tests/Lamps.antt =====
-- Tests of the lamp and the button.
use mqtt_field_bridge_app.Base.{◌+◌, ◌≡◌, ◌≢◌, ◌↔◌, ◌≤◌, refl, true, ℕ, All, List, [], ◌∷◌, arith}
use mqtt_field_bridge_app.StatusIo.{
  StatusIo, running, set_led, set_running, button_work_handler, pressed, held,
}
use mqtt_field_bridge_app.StatusIo.Press.{
  IoStep, sample, run, on_step, on_steps, on_steps_reset_calls, sample_calls_iff,
}
use mqtt_field_bridge_app.StatusIo.Works.{
  WorkEvent, edge, button_due, lamp_due, StaysDown, is_due, init_works, on_work, on_works,
}
use mqtt_field_bridge_app.StatusIo.Due.{on_works_due}

-- A node that runs since 2000 ms and was pressed at 3000 ms.
abbrev pressed_node : StatusIo
pressed_node = record {
  io_ready = 1;
  activity_led_on = 1;
  config_reset_reported = 0;
  status_state = running;
  last_toggle_ms = 2000;
  button_pressed_ms = 3000;
  led = 1;
  reset_calls = 0;
}

-- The press goes on behind the call.
abbrev long_press : List IoStep
long_press =
    sample true 12900 ∷ sample true 13000 ∷ run 0 13000 ∷ run 1 13100 ∷ sample true 30000 ∷ []

called_once : (on_steps true true true long_press pressed_node).reset_calls ≡ 1
unfolding on_steps on_step button_work_handler pressed held set_running set_led
called_once = refl

on_steps_reset_calls_example :
    (on_steps true true true long_press pressed_node).reset_calls ≤ pressed_node.reset_calls + 1
on_steps_reset_calls_example =
    on_steps_reset_calls true true true long_press pressed_node
      ((refl, omega arith), ((refl, omega arith), (tt, (tt, ((refl, omega arith), tt)))))

sample_calls_iff_example :
    ((button_work_handler true true true true 13000 pressed_node).reset_calls
      ≡ pressed_node.reset_calls + 1)
    ↔ ((pressed_node.io_ready ≢ 0)
        × (true ≡ true)
        × (true ≡ true)
        × (true ≡ true)
        × (pressed_node.status_state ≡ running)
        × (pressed_node.config_reset_reported ≡ 0)
        × (pressed_node.button_pressed_ms + 10000 ≤ 13000))
sample_calls_iff_example = sample_calls_iff true true true true 13000 pressed_node (omega arith)

on_works_due_example :
    let x =
      on_works true true true
        (edge 40 ∷ button_due true 50 ∷ lamp_due 100 ∷ [])
        (init_works true true true 0 pressed_node) in
    (is_due x.1.status_work ≡ true)
    × ((at : ℕ) (fs : List WorkEvent)
        → true ≡ true
        → All StaysDown fs
        → is_due (on_works true true true fs (on_work true true true (edge at) x)).1.button_work
          ≡ true)
on_works_due_example =
    on_works_due true true true 0 pressed_node (edge 40 ∷ button_due true 50 ∷ lamp_due 100 ∷ [])
