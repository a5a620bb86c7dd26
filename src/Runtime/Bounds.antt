-- ===== src/Runtime/Bounds.antt =====
-- No text of the status overruns its array, and each stays terminated.
use mqtt_field_bridge_app.Base.{
  ℕ, ◌<◌, ◌≡◌, false, ◌||◌, Option, none, some, List, [], ◌∷◌, Bytes, arith, ltb, ◌==◌, codes, cstr,
  snprintf, equal, length, Bool-cases, inl, inr, IsTerminated, snprintf-IsTerminated,
}
use mqtt_field_bridge_app.Config.{Settings, host_max}
use mqtt_field_bridge_app.Runtime.Status.{
  RuntimeStatus, P2p, runtime_init, state_max, version_max, error_max, copy_str, clear_text,
  network_start, broker_started, broker_failed, set_broker_enabled, refresh_mesh, get_status,
}
use mqtt_field_bridge_app.Runtime.Requests.{
  StatusEvent, started, failed, enable, network, asked, on_event, on_events,
}

pub record IsBounded (s : RuntimeStatus) : Type 0 where
  pub firmware : IsTerminated version_max s.firmware
  pub network_state : IsTerminated state_max s.network_state
  pub ip_addr : IsTerminated host_max s.ip_addr
  pub broker_state : IsTerminated state_max s.broker_state
  pub p2p_role : IsTerminated state_max s.p2p_role
  pub last_error : IsTerminated error_max s.last_error

copy_str-IsTerminated :
    (dst : Bytes) (cap : ℕ) (src : Option Bytes)
    → 0 < cap
    → length dst ≡ cap
    → IsTerminated cap (copy_str dst cap src)
unfolding copy_str
copy_str-IsTerminated dst cap none h len =
    let e : (cap == 0) ≡ false = ground arith in rw e (snprintf-IsTerminated dst cap [] h len)
copy_str-IsTerminated dst cap (some src) h len =
    let e : (cap == 0) ≡ false = ground arith in rw e (snprintf-IsTerminated dst cap src h len)

clear_text-IsTerminated :
    (cap : ℕ) (s : Bytes) → IsTerminated cap s → IsTerminated cap (clear_text s)
unfolding cstr
clear_text-IsTerminated cap [] h = h
clear_text-IsTerminated cap (c ∷ s) h = (h.0, omega (arith, h.0))

pub runtime_init-IsBounded : IsBounded runtime_init.status
unfolding runtime_init copy_str snprintf cstr
runtime_init-IsBounded = omega arith

network_start-IsBounded :
    (x : Option Settings) (s : RuntimeStatus) → IsBounded s → IsBounded (network_start x s)
unfolding network_start
network_start-IsBounded none s h = record {
  firmware = h.firmware;
  network_state = copy_str-IsTerminated s.network_state state_max _ (omega arith) h.network_state.0;
  ip_addr = h.ip_addr;
  broker_state = h.broker_state;
  p2p_role = h.p2p_role;
  last_error = copy_str-IsTerminated s.last_error error_max _ (omega arith) h.last_error.0;
}
network_start-IsBounded (some x) s h = record {
  firmware = h.firmware;
  network_state = copy_str-IsTerminated s.network_state state_max _ (omega arith) h.network_state.0;
  ip_addr = copy_str-IsTerminated s.ip_addr host_max _ (omega arith) h.ip_addr.0;
  broker_state = h.broker_state;
  p2p_role = h.p2p_role;
  last_error = clear_text-IsTerminated error_max s.last_error h.last_error;
}

copied :
    (s : Bytes) (cap : ℕ) (src : Option Bytes)
    → 0 < cap
    → IsTerminated cap s
    → IsTerminated cap (copy_str s cap src)
copied s cap src h t = copy_str-IsTerminated s cap src h t.0

broker_failed-IsBounded :
    (e : Option Bytes) (s : RuntimeStatus) → IsBounded s → IsBounded (broker_failed e s)
unfolding broker_failed
broker_failed-IsBounded e s h = record {
  firmware = h.firmware;
  network_state = h.network_state;
  ip_addr = h.ip_addr;
  broker_state = copied s.broker_state state_max _ (omega arith) h.broker_state;
  p2p_role = h.p2p_role;
  last_error = copied s.last_error error_max e (omega arith) h.last_error;
}

broker_started-IsBounded : (s : RuntimeStatus) → IsBounded s → IsBounded (broker_started s)
unfolding broker_started
broker_started-IsBounded s h = record {
  firmware = h.firmware;
  network_state = h.network_state;
  ip_addr = h.ip_addr;
  broker_state = copied s.broker_state state_max _ (omega arith) h.broker_state;
  p2p_role = copied s.p2p_role state_max _ (omega arith) h.p2p_role;
  last_error = clear_text-IsTerminated error_max s.last_error h.last_error;
}

set_broker_enabled-IsBounded :
    (v : ℕ) (s : RuntimeStatus) → IsBounded s → IsBounded (set_broker_enabled v s).1
unfolding set_broker_enabled
set_broker_enabled-IsBounded v s h = elim (Bool-cases (ltb 1 v)) [
  | inl e ↦ rw e h
  | inr e ↦ rw e (record {
    firmware = h.firmware;
    network_state = h.network_state;
    ip_addr = h.ip_addr;
    broker_state = copied s.broker_state state_max _ (omega arith) h.broker_state;
    p2p_role = h.p2p_role;
    last_error = h.last_error;
  })
]

refresh_mesh-IsBounded :
    (p2p : P2p) (s : RuntimeStatus) → IsBounded s → IsBounded (refresh_mesh p2p s)
unfolding refresh_mesh
refresh_mesh-IsBounded p2p s h =
    elim (Bool-cases (
      equal (cstr s.broker_state) (codes "running")
      || equal (cstr s.broker_state) (codes "requested"))) [
        | inl e ↦ rw e (keep _ _)
        | inr e ↦ rw e (keep 0 0)
      ]
  where
    keep : (m n : ℕ) → IsBounded (record s { connected_peers = m; remote_subscriptions = n })
    keep m n = record {
      firmware = h.firmware;
      network_state = h.network_state;
      ip_addr = h.ip_addr;
      broker_state = h.broker_state;
      p2p_role = h.p2p_role;
      last_error = h.last_error;
    }

pub get_status-IsBounded :
    (p2p : P2p) (s : RuntimeStatus) → IsBounded s → IsBounded (get_status p2p s)
unfolding get_status
get_status-IsBounded p2p s h = refresh_mesh-IsBounded p2p _ (record {
  firmware = copied s.firmware version_max _ (omega arith) h.firmware;
  network_state = h.network_state;
  ip_addr = h.ip_addr;
  broker_state = h.broker_state;
  p2p_role = h.p2p_role;
  last_error = h.last_error;
})

on_event-IsBounded : (s : RuntimeStatus) (e : StatusEvent) → IsBounded s → IsBounded (on_event s e)
unfolding on_event
on_event-IsBounded s started h = broker_started-IsBounded s h
on_event-IsBounded s (failed e) h = broker_failed-IsBounded e s h
on_event-IsBounded s (enable v) h = set_broker_enabled-IsBounded v s h
on_event-IsBounded s (network x) h = network_start-IsBounded x s h
on_event-IsBounded s (asked p2p) h = get_status-IsBounded p2p s h

on_events_keeps :
    (es : List StatusEvent) (s : RuntimeStatus) → IsBounded s → IsBounded (on_events s es)
unfolding on_events
on_events_keeps [] s h = h
on_events_keeps (e ∷ es) s h = on_events_keeps es (on_event s e) (on_event-IsBounded s e h)

-- Every text of the status keeps the size of its array and a terminator in it, from the start and
-- over any sequence of events, whatever texts they bring.
pub on_events-IsBounded : (es : List StatusEvent) → IsBounded (on_events runtime_init.status es)
on_events-IsBounded es = on_events_keeps es runtime_init.status runtime_init-IsBounded
