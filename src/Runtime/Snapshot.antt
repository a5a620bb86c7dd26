-- ===== src/Runtime/Snapshot.antt =====
-- What is reported of the peer slots.
use mqtt_field_bridge_app.Base.{
  ℕ, zero, suc, ◌+◌, ◌≡◌, ◌≢◌, ◌↔◌, inl, inr, refl, ap, Bool, true, false, ◌&&◌, some, List, [],
  ◌∷◌, Bytes, pos, arith, ◌==◌, codes, zeros, cstr, snprintf, length, take, get_elem?, is_nonempty,
  Bool-cases, Option-cases,
}
use mqtt_field_bridge_app.Config.{
  Peer, Platform, Config, peer_max, get_peer, IsWellFormed, get_peer-get_elem?,
}
use mqtt_field_bridge_app.Runtime.Status.{
  RuntimeStatus, PeerStatus, P2p, state_max, copy_str, broker_start_requested,
}
use mqtt_field_bridge_app.Runtime.Peers.{
  Match, no_address, absent, present, in_snapshot, snapshot_contains_peer, describe_match,
  describe_peer, peer_status, statuses_from, get_peer_statuses,
}

-- The entries of a list of peers, numbered from `i`.
abbrev pub numbered : P2p → RuntimeStatus → ℕ → List Peer → List PeerStatus
numbered p2p s i [] = []
numbered p2p s i (p ∷ ps) = peer_status p2p s i p ∷ numbered p2p s (i + 1) ps

module _ {S : Type 0} (env : Platform S) (p2p : P2p) (s : RuntimeStatus) (c : Config S) where
  statuses_from-numbered :
      (n i room : ℕ) (ps : List Peer)
      → ((k : ℕ) → get_peer env c (pos (i + k)) ≡ get_elem? ps k)
      → length ps ≡ n
      → statuses_from env p2p s c n i room ≡ take room (numbered p2p s i ps)
  unfolding statuses_from
  statuses_from-numbered zero i zero [] at len = refl
  statuses_from-numbered zero i (suc room) [] at len = refl
  statuses_from-numbered zero i room (p ∷ ps) at len = absurd (omega arith)
  statuses_from-numbered (suc n) i room [] at len = absurd (omega arith)
  statuses_from-numbered (suc n) i zero (p ∷ ps) at len = refl
  statuses_from-numbered (suc n) i (suc room) (p ∷ ps) at len =
      let e : i + 0 ≡ i = omega arith in
      let first : get_peer env c (pos i) ≡ some p = rw e at (at 0) in
      rw (first, statuses_from)
        (ap (◌∷◌ (peer_status p2p s i p)) (
          statuses_from-numbered n (i + 1) room ps
            (λ k. let e' : i + 1 + k ≡ i + suc k = omega arith in rw e' (at (suc k)))
            (omega arith)))

  -- With room for at least one entry, product_runtime_get_peer_statuses writes the entry of each
  -- slot in order, as many as fit.
  pub get_peer_statuses-numbered :
      (m : ℕ)
      → IsWellFormed c
      → get_peer_statuses env p2p s c (pos (suc m)) ≡ some (take (suc m) (numbered p2p s 0 c.peers))
  unfolding get_peer_statuses
  get_peer_statuses-numbered m h =
      ap some
        (statuses_from-numbered peer_max 0 (suc m) c.peers (get_peer-get_elem? env c h) h.slots)

in_snapshot-present :
    (l : List (ℕ × ℕ)) (addr port : ℕ)
    → in_snapshot l addr port ≡ present
    → (k : ℕ) × (get_elem? l k ≡ some (addr, port))
unfolding in_snapshot
in_snapshot-present [] addr port h = cc
in_snapshot-present ((a, q) ∷ l) addr port h = elim (Bool-cases (a == addr && q == port)) [
  | inl e ↦ (0, ground arith)
  | inr e ↦ let (k, found) = in_snapshot-present l addr port (ground arith) in (suc k, found)
]

present-in_snapshot :
    (l : List (ℕ × ℕ)) (addr port k : ℕ)
    → get_elem? l k ≡ some (addr, port)
    → in_snapshot l addr port ≡ present
unfolding in_snapshot
present-in_snapshot [] addr port k h = cc
present-in_snapshot ((a, q) ∷ l) addr port zero h = ground arith
present-in_snapshot ((a, q) ∷ l) addr port (suc k) h =
    ground (arith, present-in_snapshot l addr port k)

-- A text as the array of the state holds it.
abbrev as_state : Bytes → Bytes
as_state text = cstr (copy_str (zeros state_max) state_max (some text))

as_state-describe_match :
    (m : Match) (r : Bool) → as_state (describe_match m r).0 ≡ (describe_match m r).0
unfolding describe_match copy_str snprintf cstr
as_state-describe_match present r = refl
as_state-describe_match absent true = refl
as_state-describe_match absent false = refl
as_state-describe_match no_address r = refl

as_state-disabled : as_state (codes "disabled") ≡ codes "disabled"
unfolding copy_str snprintf cstr
as_state-disabled = refl

as_state-unknown : as_state (codes "unknown") ≡ codes "unknown"
unfolding copy_str snprintf cstr
as_state-unknown = refl

as_state-describe_peer :
    (p2p : P2p) (r : Bool) (p : Peer)
    → as_state (describe_peer p2p r p).0 ≡ (describe_peer p2p r p).0
unfolding describe_peer
as_state-describe_peer p2p r p = ground (
  arith,
  as_state-disabled,
  as_state-unknown,
  as_state-describe_match (snapshot_contains_peer p2p p) r,
)

connected_iff :
    (p2p : P2p) (r : Bool) (p : Peer)
    → ((describe_peer p2p r p).0 ≡ codes "connected") ↔ (
        (p.enabled ≢ 0)
        × (is_nonempty p.host ≡ true)
        × (p.p2p_port ≢ 0)
        × (snapshot_contains_peer p2p p ≡ present))
unfolding describe_peer describe_match
connected_iff p2p r p = (λ h. ground arith, λ h. ground arith)

-- The peer's host is an address that the mesh lists together with the peer's port.
abbrev pub Listed : P2p → Peer → Type 0
Listed p2p p =
    (addr : ℕ) × (k : ℕ) × (p2p.inet_pton (cstr p.host) ≡ some addr)
    × (get_elem? p2p.peer_snapshot k ≡ some (addr, p.p2p_port))

present-Listed : (p2p : P2p) (p : Peer) → snapshot_contains_peer p2p p ≡ present → Listed p2p p
unfolding snapshot_contains_peer
present-Listed p2p p h = elim (Option-cases (p2p.inet_pton (cstr p.host))) [
  | inl e ↦ absurd (ground arith)
  | inr (addr, e) ↦
      let (k, found) = in_snapshot-present p2p.peer_snapshot addr p.p2p_port (ground arith) in
      (addr, k, e, found)
]

Listed-present : (p2p : P2p) (p : Peer) → Listed p2p p → snapshot_contains_peer p2p p ≡ present
unfolding snapshot_contains_peer
Listed-present p2p p (addr, k, e, found) =
    rw (e, snapshot_contains_peer) (present-in_snapshot p2p.peer_snapshot addr p.p2p_port k found)

-- An entry of a slot says `connected` exactly if its peer is enabled, has a host that is an IPv4
-- address and a port, and the mesh lists that address and port.
pub peer_status_connected :
    (p2p : P2p) (s : RuntimeStatus) (i : ℕ) (p : Peer)
    → (cstr (peer_status p2p s i p).state ≡ codes "connected")
      ↔ ((p.enabled ≢ 0) × (is_nonempty p.host ≡ true) × (p.p2p_port ≢ 0) × Listed p2p p)
unfolding peer_status
peer_status_connected p2p s i p =
    let r = broker_start_requested s in
    let (there, back) = connected_iff p2p r p in
    rw (as_state-describe_peer p2p r p) (
      (λ h. let (a, b, d, m) = there h in (a, b, d, present-Listed p2p p m)),
      λ (a, b, d, m). back (a, b, d, Listed-present p2p p m),
    )
