-- ===== src/StatusIo/Due.antt =====
-- The handlers of the lamp and of the button stay due.
use mqtt_field_bridge_app.Base.{
  ℕ, ◌≡◌, refl, inl, inr, Bool, true, Bool-cases, Option, none, some, List, [], ◌∷◌, ◌==◌, arith,
  All,
}
use mqtt_field_bridge_app.StatusIo.{
  StatusIo, set_led, blink, lamp_step, status_work_handler, pressed, held, button_work_handler,
  set_running, set_error, status_io_init, LampState, booting, stopped, running, faulty,
}
use mqtt_field_bridge_app.StatusIo.Works.{
  Works, schedule, schedule_lamp, init_works, run_status_work, run_button_work, button_isr,
  run_set_running, run_set_error, WorkEvent, lamp_due, button_due, edge, state, fault, is_due,
  StaysDown, on_work, on_works,
}

module _ (has_led has_button has_reset : Bool) where
  -- The lamp is set up and due.
  abbrev IsAlive : StatusIo × Works → Type 0
  IsAlive (s, w) = (s.io_ready ≡ 1) × (is_due w.status_work ≡ true)

  io_ready-lamp :
      (now : ℕ) (s : StatusIo)
      → (status_work_handler has_led has_button has_reset now s).io_ready ≡ s.io_ready
  unfolding status_work_handler
  io_ready-lamp now s = elim (Bool-cases (s.io_ready == 0)) [
    | inl e ↦ rw e refl
    | inr e ↦ rw e (at s.status_state)
  ]
    where
      at : (l : LampState) → (lamp_step has_led has_button has_reset l now s).io_ready ≡ s.io_ready
      at booting = unfold lamp_step blink set_led in ground arith
      at stopped = unfold lamp_step set_led in ground arith
      at running = unfold lamp_step blink set_led in ground arith
      at faulty = unfold lamp_step blink set_led in ground arith

  io_ready-button :
      (down : Bool) (now : ℕ) (s : StatusIo)
      → (button_work_handler has_led has_button has_reset down now s).io_ready ≡ s.io_ready
  unfolding button_work_handler held pressed
  io_ready-button down now s = ground arith

  due-schedule : (now : ℕ) (w : Option ℕ) → is_due (schedule now w) ≡ true
  unfolding schedule
  due-schedule now none = refl
  due-schedule now (some due) = refl

  on_work-IsAlive :
      (e : WorkEvent) (x : StatusIo × Works)
      → IsAlive x
      → IsAlive (on_work has_led has_button has_reset e x)
  unfolding on_work run_status_work run_button_work button_isr run_set_running run_set_error
      schedule_lamp set_running set_error set_led
  on_work-IsAlive (lamp_due now) (s, w) h = let same = io_ready-lamp now s in ground arith
  on_work-IsAlive (button_due down now) (s, w) h =
      let same = io_ready-button down now s in ground arith
  on_work-IsAlive (edge now) (s, w) h = h
  on_work-IsAlive (state is_running now) (s, w) h =
      let due = due-schedule now w.status_work in ground arith
  on_work-IsAlive (fault now) (s, w) h = let due = due-schedule now w.status_work in ground arith

  on_works-IsAlive :
      (es : List WorkEvent) (x : StatusIo × Works)
      → IsAlive x
      → IsAlive (on_works has_led has_button has_reset es x)
  unfolding on_works
  on_works-IsAlive [] x h = h
  on_works-IsAlive (e ∷ es) x h =
      on_works-IsAlive es (on_work has_led has_button has_reset e x) (on_work-IsAlive e x h)

  -- The button's work is due as well.
  abbrev IsPolled : StatusIo × Works → Type 0
  IsPolled (s, w) = IsAlive (s, w) × (is_due w.button_work ≡ true)

  on_work-IsPolled :
      (e : WorkEvent) (x : StatusIo × Works)
      → has_button ≡ true
      → StaysDown e
      → IsPolled x
      → IsPolled (on_work has_led has_button has_reset e x)
  unfolding on_work run_status_work run_button_work button_isr run_set_running run_set_error
      schedule_lamp set_running set_error
  on_work-IsPolled (lamp_due now) (s, w) b d (h, due) =
      (on_work-IsAlive (lamp_due now) (s, w) h, ground (arith, h.0, due))
  on_work-IsPolled (button_due down now) (s, w) b d (h, due) =
      (on_work-IsAlive (button_due down now) (s, w) h, ground (arith, h.0, b, d))
  on_work-IsPolled (edge now) (s, w) b d (h, due) = (h, due-schedule now w.button_work)
  on_work-IsPolled (state is_running now) (s, w) b d (h, due) =
      (on_work-IsAlive (state is_running now) (s, w) h, ground (arith, due))
  on_work-IsPolled (fault now) (s, w) b d (h, due) =
      (on_work-IsAlive (fault now) (s, w) h, ground (arith, due))

  on_works-IsPolled :
      (es : List WorkEvent) (x : StatusIo × Works)
      → has_button ≡ true
      → All StaysDown es
      → IsPolled x
      → IsPolled (on_works has_led has_button has_reset es x)
  unfolding on_works
  on_works-IsPolled [] x b d h = h
  on_works-IsPolled (e ∷ es) x b d h =
      on_works-IsPolled es (on_work has_led has_button has_reset e x) b d.1
        (on_work-IsPolled e x b d.0 h)

  init_works-IsAlive :
      (now : ℕ) (s : StatusIo) → IsAlive (init_works has_led has_button has_reset now s)
  unfolding init_works status_io_init set_led
  init_works-IsAlive now s = ground arith

  edge-IsPolled :
      (at : ℕ) (x : StatusIo × Works)
      → IsAlive x
      → IsPolled (on_work has_led has_button has_reset (edge at) x)
  unfolding on_work button_isr
  edge-IsPolled at (s, w) h = (h, due-schedule at w.button_work)

  -- After product_status_io_init and over any events, the lamp's work is due: the lamp never stops to be
  -- served. With a button, from an edge of its pin on its work is due as well, as long as no sample
  -- finds the button up: a press is sampled until it ends.
  pub on_works_due :
      (now : ℕ) (s : StatusIo) (es : List WorkEvent)
      → let x =
          on_works has_led has_button has_reset es
            (init_works has_led has_button has_reset now s) in
        (is_due x.1.status_work ≡ true)
        × ((at : ℕ) (fs : List WorkEvent)
            → has_button ≡ true
            → All StaysDown fs
            → is_due
                (on_works has_led has_button has_reset fs
                  (on_work has_led has_button has_reset (edge at) x)).1.button_work
              ≡ true)
  on_works_due now s es =
      let x =
        on_works has_led has_button has_reset es (init_works has_led has_button has_reset now s) in
      let alive = on_works-IsAlive es _ (init_works-IsAlive now s) in
      (alive.1, λ at fs b down. (on_works-IsPolled fs _ b down (edge-IsPolled at x alive)).1)
