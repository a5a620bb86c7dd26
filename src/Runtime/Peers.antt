-- ===== src/Runtime/Peers.antt =====
-- product_runtime.c: what is reported of each peer slot.
use mqtt_field_bridge_app.Base.{
  ℕ, zero, suc, ◌+◌, ◌%◌, ◌^◌, Bool, not, ◌&&◌, ◌||◌, Option, none, some, List, [], ◌∷◌, Bytes, ℤ,
  pos, negsuc, ◌==◌, if◌then◌else◌, codes, zeros, cstr, is_nonempty,
}
use mqtt_field_bridge_app.Config.{Peer, Platform, Config, peer_max, name_max, host_max, get_peer}
use mqtt_field_bridge_app.Runtime.Status.{
  state_max, error_max, RuntimeStatus, PeerStatus, P2p, copy_str, broker_start_requested,
}

-- What snapshot_contains_peer returns: -1, 0 or 1.
pub data Match : Type 0 where
  no_address absent present : Match

unfoldable pub in_snapshot : List (ℕ × ℕ) → ℕ → ℕ → Match
in_snapshot [] addr port = absent
in_snapshot ((a, q) ∷ peers) addr port =
    let rest = in_snapshot peers addr port in if a == addr && q == port then present else rest

unfoldable pub snapshot_contains_peer : P2p → Peer → Match
snapshot_contains_peer p2p peer = elim (p2p.inet_pton (cstr peer.host)) [
  | none ↦ no_address
  | some addr ↦ in_snapshot p2p.peer_snapshot addr peer.p2p_port
]

-- The state and the error text of an enabled peer that has a host and a port.
unfoldable pub describe_match : Match → Bool → Bytes × Bytes
describe_match present requested = (codes "connected", [])
describe_match absent requested =
    if requested
    then (codes "connecting", codes "waiting for p2p snapshot")
    else (codes "disconnected", codes "not present in p2p snapshot")
describe_match no_address requested = (codes "unknown", codes "host is not an IPv4 snapshot key")

unfoldable pub describe_peer : P2p → Bool → Peer → Bytes × Bytes
describe_peer p2p requested peer =
    if peer.enabled == 0
    then (codes "disabled", [])
    else if not (is_nonempty peer.host) || peer.p2p_port == 0
    then (codes "unknown", codes "missing host or p2p port")
    else describe_match (snapshot_contains_peer p2p peer) requested

-- One entry, over the zeroed struct; an empty error text leaves the zeros.
unfoldable pub peer_status : P2p → RuntimeStatus → ℕ → Peer → PeerStatus
peer_status p2p s i peer =
    let (state, error) = describe_peer p2p (broker_start_requested s) peer in
    record {
      index = i % 2 ^ 8;
      name = copy_str (zeros name_max) name_max (some (cstr peer.name));
      host = copy_str (zeros host_max) host_max (some (cstr peer.host));
      p2p_port = peer.p2p_port;
      enabled = peer.enabled;
      state = copy_str (zeros state_max) state_max (some state);
      last_error = copy_str (zeros error_max) error_max (some error);
    }

module _ {S : Type 0} (env : Platform S) where
  -- The loop: `n` slots left from slot `i`, and room for `room` entries.
  unfoldable pub statuses_from : P2p → RuntimeStatus → Config S → ℕ → ℕ → ℕ → List PeerStatus
  statuses_from p2p s c zero i room = []
  statuses_from p2p s c (suc n) i zero = []
  statuses_from p2p s c (suc n) i (suc room) = elim (get_peer env c (pos i)) [
    | none ↦ statuses_from p2p s c n (i + 1) (suc room)
    | some peer ↦ peer_status p2p s i peer ∷ statuses_from p2p s c n (i + 1) room
  ]

  -- `none` is -1; otherwise the entries written, whose number is returned.
  unfoldable pub get_peer_statuses : P2p → RuntimeStatus → Config S → ℤ → Option (List PeerStatus)
  get_peer_statuses p2p s c (negsuc n) = none
  get_peer_statuses p2p s c (pos zero) = none
  get_peer_statuses p2p s c (pos (suc m)) = some (statuses_from p2p s c peer_max 0 (suc m))
