-- ===== src/Runtime/Numbers.antt =====
-- The two numbers of the status, which are a uint8_t and a uint16_t, and the mesh of a build without one.
use mqtt_field_bridge_app.Base.{
  ℕ, ◌^◌, ◌<◌, ◌≡◌, refl, inl, inr, Bool-cases, ◌||◌, Option, Option-cases, none, some, List, [],
  ◌∷◌, Bytes, arith, cstr, codes, equal,
}
use mqtt_field_bridge_app.Runtime.Status.{
  RuntimeStatus, P2p, runtime_init, network_start, broker_started, broker_failed,
  set_broker_enabled, refresh_mesh, get_status,
}
use mqtt_field_bridge_app.Runtime.Requests.{
  StatusEvent, started, failed, enable, network, asked, on_event, on_events,
}

-- What the weak functions p2p_peer_snapshot and p2p_router_stats report: no peer, and no subscription.
unfoldable pub weak_p2p : (Bytes → Option ℕ) → P2p
weak_p2p inet_pton = record { peer_snapshot = []; remote_subs = some 0; inet_pton = inet_pton }

-- Without a mesh the status shows no peer and no remote subscription, whatever it was.
pub get_status-weak_p2p :
    (inet_pton : Bytes → Option ℕ) (s : RuntimeStatus)
    → ((get_status (weak_p2p inet_pton) s).connected_peers ≡ 0)
      × ((get_status (weak_p2p inet_pton) s).remote_subscriptions ≡ 0)
unfolding get_status refresh_mesh weak_p2p
get_status-weak_p2p inet_pton s = ground arith

pub record IsNarrow (s : RuntimeStatus) : Type 0 where
  pub connected_peers : s.connected_peers < 2 ^ 8
  pub remote_subscriptions : s.remote_subscriptions < 2 ^ 16

refresh_mesh-IsNarrow : (p2p : P2p) (s : RuntimeStatus) → IsNarrow s → IsNarrow (refresh_mesh p2p s)
unfolding refresh_mesh
refresh_mesh-IsNarrow p2p s h =
    elim (Bool-cases (
      equal (cstr s.broker_state) (codes "running")
      || equal (cstr s.broker_state) (codes "requested"))) [
        | inl e ↦ elim (Option-cases p2p.remote_subs) [
          | inl e' ↦
              rw (e, e', refresh_mesh)
                record {
                  connected_peers = omega arith;
                  remote_subscriptions = h.remote_subscriptions;
                }
          | inr (subs, e') ↦
              rw (e, e', refresh_mesh)
                record { connected_peers = omega arith; remote_subscriptions = omega arith }
        ]
        | inr e ↦
            rw (e, refresh_mesh)
              record { connected_peers = omega arith; remote_subscriptions = omega arith }
      ]

pub get_status-IsNarrow : (p2p : P2p) (s : RuntimeStatus) → IsNarrow s → IsNarrow (get_status p2p s)
unfolding get_status
get_status-IsNarrow p2p s h =
    refresh_mesh-IsNarrow p2p _ (record {
      connected_peers = h.connected_peers;
      remote_subscriptions = h.remote_subscriptions;
    })

same_numbers :
    (s s' : RuntimeStatus)
    → s'.connected_peers ≡ s.connected_peers
    → s'.remote_subscriptions ≡ s.remote_subscriptions
    → IsNarrow s
    → IsNarrow s'
same_numbers s s' e e' h = record {
  connected_peers = omega (arith, e, h.connected_peers);
  remote_subscriptions = omega (arith, e', h.remote_subscriptions);
}

on_event-IsNarrow : (s : RuntimeStatus) (e : StatusEvent) → IsNarrow s → IsNarrow (on_event s e)
unfolding on_event broker_started broker_failed network_start
on_event-IsNarrow s started h = same_numbers s _ refl refl h
on_event-IsNarrow s (failed e) h = same_numbers s _ refl refl h
on_event-IsNarrow s (network none) h = same_numbers s _ refl refl h
on_event-IsNarrow s (network (some x)) h = same_numbers s _ refl refl h
on_event-IsNarrow s (asked p2p) h = get_status-IsNarrow p2p s h
on_event-IsNarrow s (enable v) h =
    same_numbers s _ (unfold set_broker_enabled in ground arith)
      (unfold set_broker_enabled in ground arith) h

numbers_kept : (es : List StatusEvent) (s : RuntimeStatus) → IsNarrow s → IsNarrow (on_events s es)
unfolding on_events
numbers_kept [] s h = h
numbers_kept (e ∷ es) s h = numbers_kept es (on_event s e) (on_event-IsNarrow s e h)

-- The numbers stay those of their types, from the start and over any events.
pub on_events-IsNarrow : (es : List StatusEvent) → IsNarrow (on_events runtime_init.status es)
on_events-IsNarrow es = numbers_kept es runtime_init.status runtime_init-IsNarrow
  where
    runtime_init-IsNarrow : IsNarrow runtime_init.status
    runtime_init-IsNarrow =
        unfold runtime_init in
        record { connected_peers = omega arith; remote_subscriptions = omega arith }
