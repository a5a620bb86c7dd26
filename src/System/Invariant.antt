-- ===== src/System/Invariant.antt =====
-- What a state of the node is meant to be, and what of a state does not bear on it.
use mqtt_field_bridge_app.Base.{ℕ, ◌≤◌, ◌≡◌, sym, some, ok, ◌∙◌, arith}
use mqtt_field_bridge_app.Config.{IsWellFormed, validate_settings}
use mqtt_field_bridge_app.Runtime.{runtime_init, IsRun, IsRun-both}
use mqtt_field_bridge_app.Http.{IsExclusive}
use mqtt_field_bridge_app.StatusIo.{StatusIo}
use mqtt_field_bridge_app.Startup.{Node, Timers}
use mqtt_field_bridge_app.System.{System, with_node}

-- The settings that main runs with validate and have the broker enabled; the settings in memory
-- validate too, and each slot has a peer; the status is what some events made of the first one; there
-- are two buffers, and no client has both; and the broker's thread exists if the flag says so, once,
-- and is entered once at most.
pub record IsSound {S T : Type 0} (s : System S T) : Type 0 where
  pub valid : validate_settings (some s.settings) ≡ ok
  pub enabled : s.settings.broker.broker_enabled ≡ 1
  pub form : IsWellFormed s.config
  pub status : IsRun runtime_init.status s.runtime.status
  pub slots : IsExclusive 2 s.slots
  pub flag : s.threads ≡ s.broker_thread_started
  pub single : s.threads ≤ 1
  pub entered : s.entered ≤ s.threads

-- The flag says whether the thread exists, and there is one at most.
abbrev pub One : ℕ → ℕ → Type 0
One threads flag = (threads ≡ flag) × (threads ≤ 1)

module _ {S T : Type 0} where
  -- What the invariant does not speak of may change.
  pub with_others-IsSound :
      (lamp : StatusIo) (table : T) (reboots : ℕ) (timers : Timers) (s : System S T)
      → IsSound s
      → IsSound (record s { lamp = lamp; table = table; reboots = reboots; timers = timers })
  with_others-IsSound lamp table reboots timers s h = record {
    valid = h.valid;
    enabled = h.enabled;
    form = h.form;
    status = h.status;
    slots = h.slots;
    flag = h.flag;
    single = h.single;
    entered = h.entered;
  }

  pub with_node-IsSound :
      (t : Node S T) (s : System S T)
      → IsSound s
      → IsWellFormed t.config
      → IsRun s.runtime.status t.status
      → One t.threads t.broker_thread_started
      → s.threads ≤ t.threads
      → IsSound (with_node t s)
  unfolding with_node
  with_node-IsSound t s h form runs one more = record {
    valid = h.valid;
    enabled = h.enabled;
    form = form;
    status = IsRun-both _ _ _ h.status runs;
    slots = h.slots;
    flag = one.0;
    single = one.1;
    entered = omega (arith, h.entered, more);
  }

  -- The threads are as before.
  pub same_threads-IsSound :
      (t : Node S T) (s : System S T)
      → IsSound s
      → IsWellFormed t.config
      → IsRun s.runtime.status t.status
      → (t.threads ≡ s.threads) × (t.broker_thread_started ≡ s.broker_thread_started)
      → IsSound (with_node t s)
  same_threads-IsSound t s h form runs (threads, flag) =
      with_node-IsSound t s h form runs
        (threads ∙ h.flag ∙ sym flag, omega (arith, threads, h.single)) (omega (arith, threads))
