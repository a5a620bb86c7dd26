-- ===== src/Tests/Services.antt =====
-- Tests of the bridge and the runtime status.
use mqtt_field_bridge_app.Base.{
  ◌≡◌, ◌≢◌, ◌↔◌, some, [], ◌∷◌, pos, codes, take, true, is_nonempty, ◌==◌, if◌then◌else◌, cstr,
}
use mqtt_field_bridge_app.Config.{
  Config, init, IsWellFormed, init-IsWellFormed, set_peer, set_peer-IsWellFormed,
}
use mqtt_field_bridge_app.Bridge.{apply_peers}
use mqtt_field_bridge_app.Bridge.Seeds.{eligible, add_all, apply_peers-add_all}
use mqtt_field_bridge_app.Runtime.{
  P2p, runtime_init, get_peer_statuses, numbered, get_peer_statuses-numbered, peer_status, Listed,
  peer_status_connected, on_events, requests_all, on_events-requests, broker_start_requested,
  IsBounded, on_events-IsBounded, enable, started,
}
use mqtt_field_bridge_app.Samples.{Memory, memory, blank, node2, one_seed}

-- A started node with one peer.
abbrev node : Config Memory
node = (set_peer memory (init memory blank) (pos 0) (some node2)).1

node-IsWellFormed : IsWellFormed node
node-IsWellFormed =
    set_peer-IsWellFormed memory (init memory blank) (pos 0) (some node2)
      (init-IsWellFormed memory blank)

apply_peers-add_all_example : apply_peers one_seed memory node [] ≡ (
    if node.settings.broker.bridge_enabled == 0
    then (0, [])
    else add_all one_seed (eligible one_seed node.peers) (0, []))
apply_peers-add_all_example = apply_peers-add_all one_seed memory node [] node-IsWellFormed

abbrev mesh_view : P2p
mesh_view = record { peer_snapshot = (7, 4884) ∷ []; remote_subs = some 3; inet_pton = λ s. some 7 }

get_peer_statuses-numbered_example :
    get_peer_statuses memory mesh_view runtime_init.status node (pos 1)
    ≡ some (take 1 (numbered mesh_view runtime_init.status 0 node.peers))
get_peer_statuses-numbered_example =
    get_peer_statuses-numbered memory mesh_view runtime_init.status node 0 node-IsWellFormed

peer_status_connected_example :
    (cstr (peer_status mesh_view runtime_init.status 0 node2).state ≡ codes "connected") ↔ (
      (node2.enabled ≢ 0)
      × (is_nonempty node2.host ≡ true)
      × (node2.p2p_port ≢ 0)
      × Listed mesh_view node2)
peer_status_connected_example = peer_status_connected mesh_view runtime_init.status 0 node2

on_events-requests_example :
    broker_start_requested (on_events runtime_init.status (enable 1 ∷ started ∷ enable 1 ∷ []))
    ≡ requests_all (broker_start_requested runtime_init.status) (enable 1 ∷ started ∷ enable 1 ∷ [])
on_events-requests_example =
    on_events-requests (enable 1 ∷ started ∷ enable 1 ∷ []) runtime_init.status

on_events-IsBounded_example :
    IsBounded (on_events runtime_init.status (enable 1 ∷ started ∷ enable 1 ∷ []))
on_events-IsBounded_example = on_events-IsBounded (enable 1 ∷ started ∷ enable 1 ∷ [])
