-- ===== src/StatusIo/Works.antt =====
-- The work queue of product_status_io.c: when the handlers of the lamp and of the button are due.
-- k_work_schedule leaves a work that is due already.
use mqtt_field_bridge_app.Base.{
  ℕ, ◌+◌, ◌≡◌, Bool, true, false, not, ◌||◌, Option, none, some, List, [], ◌∷◌, Rc, ◌==◌,
  if◌then◌else◌,
}
use mqtt_field_bridge_app.Config.{is_ok}
use mqtt_field_bridge_app.StatusIo.{
  StatusIo, status_work_handler, button_work_handler, set_running, set_error, status_io_init,
}

abbrev pub status_period_ms : ℕ
status_period_ms = 100

abbrev pub button_period_ms : ℕ
button_period_ms = 100

-- The time at which each work is due.
pub record Works : Type 0 where
  pub status_work : Option ℕ
  pub button_work : Option ℕ

-- What the pin driver returns for the button.
pub record ButtonPin : Type 0 where
  pub is_ready : Bool
  pub configure : Rc
  pub configure_interrupt : Rc

unfoldable pub schedule : ℕ → Option ℕ → Option ℕ
schedule due none = some due
schedule due (some earlier) = some earlier

-- Activity is no longer shown.
unfoldable pub record_activity : StatusIo → StatusIo
record_activity s = s

unfoldable pub schedule_lamp : ℕ → StatusIo × Works → StatusIo × Works
schedule_lamp now (s, w) =
    if s.io_ready == 0 then (s, w) else (s, record w { status_work = schedule now w.status_work })

module _ (has_led has_button has_reset : Bool) where
  -- Whether the callback of the button's interrupt is added.
  unfoldable pub configure_button : ButtonPin → Bool
  configure_button pin =
      if not has_button
      then false
      else if not pin.is_ready
      then false
      else if not (is_ok pin.configure)
      then false
      else is_ok pin.configure_interrupt

  unfoldable pub button_isr : ℕ → StatusIo × Works → StatusIo × Works
  button_isr now (s, w) = (s, record w { button_work = schedule now w.button_work })

  -- The works are initialised, and the lamp's is due at once.
  unfoldable pub init_works : ℕ → StatusIo → StatusIo × Works
  init_works now s = (
    status_io_init has_led has_button has_reset now s,
    record { status_work = some now; button_work = none },
  )

  unfoldable pub run_status_work : ℕ → StatusIo × Works → StatusIo × Works
  run_status_work now (s, w) =
      let s' = status_work_handler has_led has_button has_reset now s in
      if s.io_ready == 0
      then (s', record w { status_work = none })
      else (s', record w { status_work = some (now + status_period_ms) })

  unfoldable pub run_button_work : Bool → ℕ → StatusIo × Works → StatusIo × Works
  run_button_work down now (s, w) =
      let s' = button_work_handler has_led has_button has_reset down now s in
      if s.io_ready == 0 || not has_button
      then (s', record w { button_work = none })
      else if down
      then (s', record w { button_work = some (now + button_period_ms) })
      else (s', record w { button_work = none })

  unfoldable pub run_set_running : ℕ → ℕ → StatusIo × Works → StatusIo × Works
  run_set_running is_running now (s, w) =
      schedule_lamp now (set_running has_led has_button has_reset is_running now s, w)

  unfoldable pub run_set_error : ℕ → StatusIo × Works → StatusIo × Works
  run_set_error now (s, w) = schedule_lamp now (set_error has_led has_button has_reset now s, w)

-- What happens behind product_status_io_init.
pub data WorkEvent : Type 0 where
  lamp_due : ℕ → WorkEvent
  button_due : Bool → ℕ → WorkEvent
  edge : ℕ → WorkEvent
  state : ℕ → ℕ → WorkEvent
  fault : ℕ → WorkEvent

abbrev pub is_due : Option ℕ → Bool
is_due none = false
is_due (some due) = true

-- No sample of the button finds it up.
abbrev pub StaysDown : WorkEvent → Type 0
StaysDown (button_due down now) = down ≡ true
StaysDown _ = Unit

module _ (has_led has_button has_reset : Bool) where
  unfoldable pub on_work : WorkEvent → StatusIo × Works → StatusIo × Works
  on_work (lamp_due now) x = run_status_work has_led has_button has_reset now x
  on_work (button_due down now) x = run_button_work has_led has_button has_reset down now x
  on_work (edge now) x = button_isr has_led has_button has_reset now x
  on_work (state is_running now) x = run_set_running has_led has_button has_reset is_running now x
  on_work (fault now) x = run_set_error has_led has_button has_reset now x

  unfoldable pub on_works : List WorkEvent → StatusIo × Works → StatusIo × Works
  on_works [] x = x
  on_works (e ∷ es) x = on_works es (on_work e x)
