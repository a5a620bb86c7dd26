-- ===== src/Runtime/Requests.antt =====
-- The network state and the requests to start the broker, over sequences of events.
use mqtt_field_bridge_app.Base.{
  ℕ, suc, zero, ◌≡◌, refl, ◌∙◌, Bool, true, false, Option, none, some, List, [], ◌∷◌, Bytes, fail,
  arith, ltb, ◌==◌, cstr, snprintf, equal, Bool-cases, inl, inr,
}
use mqtt_field_bridge_app.Config.{Settings}
use mqtt_field_bridge_app.Runtime.Status.{
  RuntimeStatus, P2p, copy_str, network_start, network_ready, broker_started, broker_failed,
  set_broker_enabled, broker_start_requested, refresh_mesh, get_status,
}

abbrev pub is_given : Option Settings → Bool
is_given none = false
is_given (some x) = true

-- The network is ready after product_runtime_network_start exactly if it was given settings,
-- whatever they are and whatever the status was.
pub network_ready-network_start :
    (x : Option Settings) (s : RuntimeStatus) → network_ready (network_start x s) ≡ is_given x
unfolding network_ready network_start copy_str snprintf cstr equal
network_ready-network_start none s = refl
network_ready-network_start (some x) s = elim (Bool-cases (x.network.dhcp_enabled == 0)) [
  | inl e ↦ rw e
  | inr e ↦ rw e
]

-- What happens to the status while the program runs.
pub data StatusEvent : Type 0 where
  started : StatusEvent
  failed : Option Bytes → StatusEvent
  enable : ℕ → StatusEvent
  network : Option Settings → StatusEvent
  asked : P2p → StatusEvent

unfoldable pub on_event : RuntimeStatus → StatusEvent → RuntimeStatus
on_event s started = broker_started s
on_event s (failed error) = broker_failed error s
on_event s (enable v) = (set_broker_enabled v s).1
on_event s (network x) = network_start x s
on_event s (asked p2p) = get_status p2p s

unfoldable pub on_events : RuntimeStatus → List StatusEvent → RuntimeStatus
on_events s [] = s
on_events s (e ∷ es) = on_events (on_event s e) es

-- Whether a start is requested behind an event, if it was `before`.
abbrev pub requests : Bool → StatusEvent → Bool
requests before started = false
requests before (failed error) = false
requests before (enable zero) = false
requests before (enable (suc zero)) = true
requests before (enable (suc (suc v))) = before
requests before (network x) = before
requests before (asked p2p) = before

abbrev pub requests_all : Bool → List StatusEvent → Bool
requests_all before [] = before
requests_all before (e ∷ es) = requests_all (requests before e) es

refused : (v : ℕ) (s : RuntimeStatus) → set_broker_enabled (suc (suc v)) s ≡ (fail, s)
unfolding set_broker_enabled
refused v s = let e : ltb 1 (suc (suc v)) ≡ true = ground arith in rw e

broker_state-get_status :
    (p2p : P2p) (s : RuntimeStatus) → (get_status p2p s).broker_state ≡ s.broker_state
unfolding get_status refresh_mesh
broker_state-get_status p2p s = ground arith

on_event-requests :
    (s : RuntimeStatus) (e : StatusEvent)
    → broker_start_requested (on_event s e) ≡ requests (broker_start_requested s) e
unfolding on_event broker_start_requested broker_started broker_failed copy_str snprintf cstr equal
    network_start
on_event-requests s started = refl
on_event-requests s (failed error) = refl
on_event-requests s (enable zero) = unfold set_broker_enabled in refl
on_event-requests s (enable (suc zero)) = unfold set_broker_enabled in refl
on_event-requests s (enable (suc (suc v))) = rw (refused v s, on_event) refl
on_event-requests s (network none) = refl
on_event-requests s (network (some x)) = refl
on_event-requests s (asked p2p) = rw (broker_state-get_status p2p s, on_event) refl

-- Over any sequence of events, a start of the broker is requested exactly if the last event that
-- bears on it is an accepted request to enable, rather than a start, a failure or a disabling.
pub on_events-requests :
    (es : List StatusEvent) (s : RuntimeStatus)
    → broker_start_requested (on_events s es) ≡ requests_all (broker_start_requested s) es
unfolding on_events
on_events-requests [] s = refl
on_events-requests (e ∷ es) s = on_events-requests es (on_event s e) ∙ rw (on_event-requests s e)
