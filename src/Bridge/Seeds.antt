-- ===== src/Bridge/Seeds.antt =====
-- The seeds in the mesh's table are those of the eligible peers.
use mqtt_field_bridge_app.Base.{
  ℕ, zero, suc, ◌+◌, ◌≤◌, ◌≡◌, refl, ◌∙◌, not, ◌||◌, Option, none, some, List, [], ◌∷◌, ◌++◌, pos,
  ok, fail, arith, ◌==◌, if◌then◌else◌, cstr, is_nonempty, length, length-append, get_elem?,
}
use mqtt_field_bridge_app.Config.{
  Peer, peer_max, Platform, Config, get_peer, get_settings, IsWellFormed, get_peer-get_elem?,
}
use mqtt_field_bridge_app.Bridge.{Mesh, add_seed, apply_peer, apply_slots, apply_peers}

-- An address and a port.
abbrev pub Seed : Type 0
Seed = ℕ × ℕ

module _ {T : Type 0} (mesh : Mesh T) where
  -- A peer that is enabled, has a host and both ports, and whose host is an IPv4 address.
  pub seed_of : Peer → Option Seed
  seed_of p =
      if p.enabled == 0 || not (is_nonempty p.host) || p.mqtt_port == 0 || p.p2p_port == 0
      then none
      else elim (mesh.inet_pton (cstr p.host)) [ none ↦ none | some addr ↦ some (addr, p.p2p_port) ]

  abbrev with_seed : Option Seed → List Seed → List Seed
  with_seed none seeds = seeds
  with_seed (some s) seeds = s ∷ seeds

  -- The seeds of the peers, in the order of the slots.
  abbrev pub eligible : List Peer → List Seed
  eligible [] = []
  eligible (p ∷ ps) = with_seed (seed_of p) (eligible ps)

  -- The seeds are offered one by one, and those that the table takes are counted.
  pub add_all : List Seed → ℕ × T → ℕ × T
  add_all [] st = st
  add_all ((addr, port) ∷ seeds) st = add_all seeds (add_seed mesh (some addr) port st)

  apply_peer-add_all :
      (p : Peer) (seeds : List Seed) (st : ℕ × T)
      → add_all seeds (apply_peer mesh (some p) st) ≡ add_all (with_seed (seed_of p) seeds) st
  unfolding apply_peer add_seed add_all seed_of
  apply_peer-add_all p seeds (n, t) = ground arith

  -- The slots from `i` on.
  apply_slots-add_all :
      {S : Type 0} (env : Platform S) (c : Config S) (n i : ℕ) (ps : List Peer) (st : ℕ × T)
      → ((k : ℕ) → get_peer env c (pos (i + k)) ≡ get_elem? ps k)
      → length ps ≡ n
      → apply_slots mesh env c n i st ≡ add_all (eligible ps) st
  unfolding apply_slots
  apply_slots-add_all env c zero i [] st at len = unfold add_all in refl
  apply_slots-add_all env c zero i (p ∷ ps) st at len = absurd (omega arith)
  apply_slots-add_all env c (suc n) i [] st at len = absurd (omega arith)
  apply_slots-add_all env c (suc n) i (p ∷ ps) st at len =
      let e : i + 0 ≡ i = omega arith in
      let first : get_peer env c (pos i) ≡ some p = rw e at (at 0) in
      rw first (
        apply_slots-add_all env c n (i + 1) ps _
          (λ k. let e' : i + 1 + k ≡ i + suc k = omega arith in rw e' (at (suc k))) (omega arith)
        ∙ apply_peer-add_all p (eligible ps) st)

  -- bridge_control_apply_peers clears the table; then, if the bridge is enabled, it offers the
  -- table the seeds of the eligible peers, in order, and returns how many it took.
  pub apply_peers-add_all :
      {S : Type 0} (env : Platform S) (c : Config S) (table : T)
      → IsWellFormed c
      → apply_peers mesh env c table ≡ (
          if c.settings.broker.bridge_enabled == 0
          then (0, mesh.seed_clear table)
          else add_all (eligible c.peers) (0, mesh.seed_clear table))
  unfolding apply_peers get_settings
  apply_peers-add_all env c table h = ground (
    arith,
    apply_slots-add_all env c peer_max 0 c.peers (0, mesh.seed_clear table)
        (get_peer-get_elem? env c h) h.slots,
  )

-- A table that holds the seeds it took, in order, and none after it was cleared.
pub record IsTable {T : Type 0} (mesh : Mesh T) (seeds : T → List Seed) : Type 0 where
  pub cleared : (t : T) → seeds (mesh.seed_clear t) ≡ []
  pub taken :
      (t : T) (addr port : ℕ)
      → (mesh.seed_add t addr port).0 ≡ ok
      → seeds (mesh.seed_add t addr port).1 ≡ seeds t ++ (addr, port) ∷ []
  pub refused :
      (t : T) (addr port : ℕ)
      → (mesh.seed_add t addr port).0 ≡ fail
      → seeds (mesh.seed_add t addr port).1 ≡ seeds t

module _ {T : Type 0} (mesh : Mesh T) {seeds : T → List Seed} (laws : IsTable mesh seeds) where
  -- The count is that of the seeds in the table.
  abbrev Counted : ℕ × T → Type 0
  Counted st = st.0 ≡ length (seeds st.1)

  add_seed-Counted :
      (a port : ℕ) (st : ℕ × T) → Counted st → Counted (add_seed mesh (some a) port st)
  unfolding add_seed
  add_seed-Counted a port (n, t) h =
      ground (
        arith,
        laws.taken t a port,
        laws.refused t a port,
        length-append (seeds t) ((a, port) ∷ []),
      )

  add_all-Counted :
      (offered : List Seed) (st : ℕ × T) → Counted st → Counted (add_all mesh offered st)
  unfolding add_all
  add_all-Counted [] st h = h
  add_all-Counted ((a, port) ∷ offered) st h =
      add_all-Counted offered (add_seed mesh (some a) port st) (add_seed-Counted a port st h)

  length-add_all :
      (offered : List Seed) (st : ℕ × T) → (add_all mesh offered st).0 ≤ st.0 + length offered
  unfolding add_all add_seed
  length-add_all [] st = omega arith
  length-add_all ((a, port) ∷ offered) (n, t) =
      ground (arith, length-add_all offered (add_seed mesh (some a) port (n, t)))

  length-eligible : (ps : List Peer) → length (eligible mesh ps) ≤ length ps
  length-eligible [] = omega arith
  length-eligible (p ∷ ps) = ground (arith, length-eligible ps)

  -- The number that bridge_control_apply_peers returns is that of the seeds in the table, whether or
  -- not it refused some, and at most that of the slots.
  pub apply_peers_count :
      {S : Type 0} (env : Platform S) (c : Config S) (table : T)
      → IsWellFormed c
      → ((apply_peers mesh env c table).0 ≡ length (seeds (apply_peers mesh env c table).1))
        × ((apply_peers mesh env c table).0 ≤ peer_max)
  apply_peers_count env c table h =
      let start =
        add_all-Counted (eligible mesh c.peers) (0, mesh.seed_clear table)
          (rw (laws.cleared table)) in
      let small = length-add_all (eligible mesh c.peers) (0, mesh.seed_clear table) in
      rw (apply_peers-add_all mesh env c table h)
        (ground (arith, start, small, length-eligible c.peers, laws.cleared table, h.slots))
