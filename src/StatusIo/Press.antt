-- ===== src/StatusIo/Press.antt =====
-- A press of the button resets the configuration at most once.
use mqtt_field_bridge_app.Base.{
  ℕ, ◌+◌, ◌<◌, ◌≤◌, ◌≡◌, ◌≢◌, ◌↔◌, refl, inl, inr, Bool, true, ◌||◌, List, [], ◌∷◌, ◌==◌,
  if◌then◌else◌, Bool-cases, arith, All,
}
use mqtt_field_bridge_app.StatusIo.{
  is_running, LampState, booting, stopped, running, faulty, StatusIo, set_led, blink, lamp_step,
  status_work_handler, pressed, held, button_work_handler, set_running, set_error,
}

-- The calls that come from the work queue and the program, with their times.
pub data IoStep : Type 0 where
  lamp : ℕ → IoStep
  sample : Bool → ℕ → IoStep
  run : ℕ → ℕ → IoStep
  error : ℕ → IoStep

-- The button is down at each sample, and the time is not 0.
abbrev pub Down : IoStep → Type 0
Down (sample down now) = (down ≡ true) × (0 < now)
Down _ = Unit

running_iff : (l : LampState) → (is_running l ≡ true) ↔ (l ≡ running)
running_iff booting = (λ e. cc, λ e. cc)
running_iff stopped = (λ e. cc, λ e. cc)
running_iff running = (λ e. refl, λ e. refl)
running_iff faulty = (λ e. cc, λ e. cc)

module _ (has_led has_button has_reset : Bool) where
  unfoldable pub on_step : IoStep → StatusIo → StatusIo
  on_step (lamp now) s = status_work_handler has_led has_button has_reset now s
  on_step (sample down now) s = button_work_handler has_led has_button has_reset down now s
  on_step (run is_running now) s = set_running has_led has_button has_reset is_running now s
  on_step (error now) s = set_error has_led has_button has_reset now s

  unfoldable pub on_steps : List IoStep → StatusIo → StatusIo
  on_steps [] s = s
  on_steps (e ∷ es) s = on_steps es (on_step e s)

  -- The calls so far, and one where this press can still call.
  abbrev budget : StatusIo → ℕ
  budget s =
      s.reset_calls + (if s.button_pressed_ms == 0 || s.config_reset_reported == 0 then 1 else 0)

  budget-sample :
      (now : ℕ) (s : StatusIo)
      → 0 < now
      → budget (button_work_handler has_led has_button has_reset true now s) ≤ budget s
  unfolding button_work_handler held pressed
  budget-sample now s h = ground arith

  budget-blink :
      (period now : ℕ) (s : StatusIo)
      → budget (blink has_led has_button has_reset period now s) ≡ budget s
  unfolding blink set_led
  budget-blink period now s = ground arith

  budget-lamp :
      (now : ℕ) (s : StatusIo)
      → budget (status_work_handler has_led has_button has_reset now s) ≡ budget s
  unfolding status_work_handler lamp_step set_led
  budget-lamp now s = elim (Bool-cases (s.io_ready == 0)) [
    | inl e ↦ rw e
    | inr e ↦ rw e (at s.status_state)
  ]
    where
      at : (l : LampState) → budget (lamp_step has_led has_button has_reset l now s) ≡ budget s
      at booting = budget-blink _ now s
      at stopped = ground arith
      at running = budget-blink _ now s
      at faulty = budget-blink _ now s

  budget-on_step : (e : IoStep) (s : StatusIo) → Down e → budget (on_step e s) ≤ budget s
  unfolding on_step set_running set_error set_led
  budget-on_step (lamp now) s h = rw (budget-lamp now s) (omega arith)
  budget-on_step (sample down now) s h = rw h.0 (budget-sample now s h.1)
  budget-on_step (run r now) s h = ground arith
  budget-on_step (error now) s h = ground arith

  budget-on_steps :
      (es : List IoStep) (s : StatusIo) → All Down es → budget (on_steps es s) ≤ budget s
  unfolding on_steps
  budget-on_steps [] s h = omega arith
  budget-on_steps (e ∷ es) s h =
      omega (arith, budget-on_step e s h.0, budget-on_steps es (on_step e s) h.1)

  -- Over any steps in which the button is down at every sample, whatever the lamp and the program do
  -- between them, the reset callback is called at most once.
  pub on_steps_reset_calls :
      (es : List IoStep) (s : StatusIo)
      → All Down es
      → (on_steps es s).reset_calls ≤ s.reset_calls + 1
  on_steps_reset_calls es s h = ground (arith, budget-on_steps es s h)

  -- During a press, a sample calls the reset callback exactly if the lamp and the button are set
  -- up, there is a callback, the button is down, the node runs, and the press has lasted ten seconds
  -- and has not called before.
  pub sample_calls_iff :
      (down : Bool) (now : ℕ) (s : StatusIo)
      → 0 < s.button_pressed_ms
      → ((button_work_handler has_led has_button has_reset down now s).reset_calls
          ≡ s.reset_calls + 1)
        ↔ ((s.io_ready ≢ 0)
            × (has_button ≡ true)
            × (has_reset ≡ true)
            × (down ≡ true)
            × (s.status_state ≡ running)
            × (s.config_reset_reported ≡ 0)
            × (s.button_pressed_ms + 10000 ≤ now))
  unfolding button_work_handler held pressed
  sample_calls_iff down now s h = (
    λ called. ground (arith, running_iff s.status_state),
    λ c. ground (arith, running_iff s.status_state),
  )
