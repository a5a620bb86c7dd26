-- ===== src/Runtime/Runs.antt =====
-- A status that some events left, beside the status that they found.
use mqtt_field_bridge_app.Base.{◌≡◌, refl, sym, ap, ◌∙◌, List, [], ◌∷◌, ◌++◌}
use mqtt_field_bridge_app.Runtime.Status.{RuntimeStatus}
use mqtt_field_bridge_app.Runtime.Requests.{StatusEvent, on_event, on_events}

pub record IsRun (s s' : RuntimeStatus) : Type 0 where
  pub events : List StatusEvent
  pub outcome : s' ≡ on_events s events

pub on_events-append :
    (es fs : List StatusEvent) (s : RuntimeStatus)
    → on_events s (es ++ fs) ≡ on_events (on_events s es) fs
unfolding on_events
on_events-append [] fs s = refl
on_events-append (e ∷ es) fs s = on_events-append es fs (on_event s e)

module _ {s s' : RuntimeStatus} where
  pub IsRun-kept : s' ≡ s → IsRun s s'
  IsRun-kept e = record { events = []; outcome = unfold on_events in e }

  pub IsRun-event : (e : StatusEvent) → s' ≡ on_event s e → IsRun s s'
  IsRun-event e same = record { events = e ∷ []; outcome = unfold on_events in same }

pub IsRun-both : (s s' s'' : RuntimeStatus) → IsRun s s' → IsRun s' s'' → IsRun s s''
IsRun-both s s' s'' h k = record {
  events = h.events ++ k.events;
  outcome =
      k.outcome
      ∙ ap (λ t. on_events t k.events) h.outcome
      ∙ sym (on_events-append h.events k.events s);
}
