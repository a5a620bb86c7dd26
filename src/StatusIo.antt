-- ===== src/StatusIo.antt =====
-- product_status_io.c: the lamp and the button. The static variables are a record; k_uptime_get is
-- the argument `now`, and the work queue's calls are the steps of a run. What the reset callback does
-- stands outside; its calls are counted.
use mqtt_field_bridge_app.Base.{
  ℕ, zero, suc, ◌+◌, ◌-◌, Bool, true, false, not, ◌&&◌, ◌||◌, List, [], ◌∷◌, ltb, leb, ◌==◌,
  if◌then◌else◌,
}
pub mod Press
pub mod Works
pub mod Due

pub data LampState : Type 0 where
  booting stopped running faulty : LampState

pub record StatusIo : Type 0 where
  pub io_ready : ℕ
  pub activity_led_on : ℕ
  pub config_reset_reported : ℕ
  pub status_state : LampState
  pub last_toggle_ms : ℕ
  pub button_pressed_ms : ℕ
  pub led : ℕ
  pub reset_calls : ℕ

abbrev pub boot_blink_ms : ℕ
boot_blink_ms = 150

abbrev pub error_blink_ms : ℕ
error_blink_ms = 150

abbrev pub run_blink_ms : ℕ
run_blink_ms = 2000

abbrev pub config_reset_press_ms : ℕ
config_reset_press_ms = 10000

abbrev pub is_running : LampState → Bool
is_running running = true
is_running _ = false

-- What the build has: the pins, and a reset callback.
module _ (has_led has_button has_reset : Bool) where
  unfoldable pub set_led : ℕ → StatusIo → StatusIo
  set_led value s = if has_led then record s { led = value } else s

  unfoldable pub blink : ℕ → ℕ → StatusIo → StatusIo
  blink period now s =
      let on = if s.activity_led_on == 0 then 1 else 0 in
      if leb period (now - s.last_toggle_ms)
      then record (set_led on (record s { activity_led_on = on })) { last_toggle_ms = now }
      else s

  unfoldable pub lamp_step : LampState → ℕ → StatusIo → StatusIo
  lamp_step booting now s = blink boot_blink_ms now s
  lamp_step stopped now s = record (set_led 0 s) { activity_led_on = 0 }
  lamp_step faulty now s = blink error_blink_ms now s
  lamp_step running now s = blink run_blink_ms now s

  unfoldable pub status_work_handler : ℕ → StatusIo → StatusIo
  status_work_handler now s = if s.io_ready == 0 then s else lamp_step s.status_state now s

  -- The press that starts with this sample, or goes on.
  unfoldable pub pressed : ℕ → StatusIo → StatusIo
  pressed now s =
      if s.button_pressed_ms == 0
      then record s { button_pressed_ms = now; config_reset_reported = 0 }
      else s

  unfoldable pub held : ℕ → StatusIo → StatusIo
  held now s =
      if is_running s.status_state
        && s.config_reset_reported == 0
        && leb config_reset_press_ms (now - s.button_pressed_ms)
      then record s {
        config_reset_reported = 1;
        reset_calls = if has_reset then s.reset_calls + 1 else s.reset_calls;
      }
      else s

  -- `down` is a pin value above 0.
  unfoldable pub button_work_handler : Bool → ℕ → StatusIo → StatusIo
  button_work_handler down now s =
      if s.io_ready == 0 || not has_button
      then s
      else if down
      then held now (pressed now s)
      else record s { button_pressed_ms = 0; config_reset_reported = 0 }

  unfoldable pub set_running : ℕ → ℕ → StatusIo → StatusIo
  set_running is_running now s =
      let off = is_running == 0 in
      let on = if off then 0 else 1 in
      set_led on (record s {
        status_state = if off then stopped else running;
        activity_led_on = on;
        last_toggle_ms = now;
      })

  unfoldable pub set_error : ℕ → StatusIo → StatusIo
  set_error now s =
      set_led 1 (record s { status_state = faulty; activity_led_on = 1; last_toggle_ms = now })

  -- The set-up of the pins and of the work queue is left out: where it fails, the code goes on.
  unfoldable pub status_io_init : ℕ → StatusIo → StatusIo
  status_io_init now s =
      set_led 1 (record s { last_toggle_ms = now; status_state = booting; io_ready = 1 })
