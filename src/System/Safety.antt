-- ===== src/System/Safety.antt =====
-- The node from a power-on through any moves.
use mqtt_field_bridge_app.Base.{◌≡◌, sym, refl, inl, inr, ◌∙◌, arith}
use mqtt_field_bridge_app.Config.{Settings, Config}
use mqtt_field_bridge_app.Runtime.{runtime_init, IsRun}
use mqtt_field_bridge_app.Http.{held}
use mqtt_field_bridge_app.Startup.{Node, Ending, ready, rebooting, main_ends, main-IsRun, IsReady}
use mqtt_field_bridge_app.System.{System, started}
use mqtt_field_bridge_app.System.Invariant.{IsSound, with_others-IsSound}
use mqtt_field_bridge_app.System.Moves.{
  on_line-IsSound, on_call-IsSound, on_round-IsSound, on_entry-IsSound, on_sample-IsSound,
}
use mqtt_field_bridge_app.System.Steps.{
  Build, on_tick, Starts, begins, again, Step, console_line, http_call, loop_round, thread_entry,
  lamp_tick, button_sample, seeds_changed, power_on, Reach, start, later,
}

ready_or_not : (settings : Settings) (boot : Ending) → boot ≡ ready settings → boot ≡ rebooting → ⊥
ready_or_not settings boot e e' = cc

module _ {S T : Type 0} (b : Build S T) where
  started-IsSound :
      (settings : Settings) (r : Ending × Node S T)
      → r.0 ≡ ready settings
      → IsReady r
      → IsRun runtime_init.status r.1.status
      → IsSound (started settings r.1)
  unfolding started held
  started-IsSound settings r e h runs =
      let same : h.settings ≡ settings = let boot = h.boot in cc in
      record {
        valid = rw (sym same) h.valid;
        enabled = rw (sym same) h.enabled;
        form = h.form;
        status = runs;
        slots = (refl, λ d. omega arith);
        flag = h.threads ∙ sym h.flag;
        single = omega (arith, h.threads);
        entered = omega arith;
      }

  Starts-IsSound : {c : Config S} {s : System S T} → Starts b c s → IsSound s
  Starts-IsSound (begins driver link now c table lamp {settings} e) =
      elim (main_ends b.env b.mesh b.has_led driver link now c table lamp) [
        | inl (unlinked, stops) ↦ absurd (ready_or_not settings _ e stops)
        | inr (linked, h) ↦
            started-IsSound settings _ e h
              (main-IsRun b.env b.mesh b.has_led driver link now c table lamp)
      ]
  Starts-IsSound (again driver link now c table lamp e rest) = Starts-IsSound rest

  pub Step-IsSound : {s s' : System S T} → Step b s s' → IsSound s → IsSound s'
  Step-IsSound {s} (console_line p2p input) h = on_line-IsSound b p2p input s h
  Step-IsSound {s} (http_call p2p client transaction request) h =
      on_call-IsSound b p2p client transaction request s h
  Step-IsSound {s} (loop_round r) h = on_round-IsSound b r s h
  Step-IsSound {s} (thread_entry rc now fresh) h = on_entry-IsSound b rc now s fresh h
  Step-IsSound {s} (lamp_tick now) h =
      unfold on_tick in with_others-IsSound _ s.table s.reboots s.timers s h
  Step-IsSound {s} (button_sample down now) h = on_sample-IsSound b down now s h
  Step-IsSound {s} (seeds_changed table) h = with_others-IsSound s.lamp table s.reboots s.timers s h
  Step-IsSound (power_on starts) h = Starts-IsSound starts

  -- In every state that the node reaches, from whatever memory and store: the settings that main runs
  -- with, and those in memory, validate; each slot has a peer; the status is what some events made of
  -- the first one; no client has two buffers; and the broker's thread is created once at most, and
  -- entered once at most.
  pub Reach-IsSound : {s : System S T} → Reach b s → IsSound s
  Reach-IsSound (start starts) = Starts-IsSound starts
  Reach-IsSound (later before step) = Step-IsSound step (Reach-IsSound before)
