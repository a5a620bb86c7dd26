-- ===== src/Bridge.antt =====
-- bridge_control.c: the enabled peers become the static seeds of the peer-to-peer mesh.
use mqtt_field_bridge_app.Base.{
  ℕ, zero, suc, ◌+◌, Bool, not, ◌||◌, Option, none, some, Bytes, pos, Rc, ok, ◌==◌, if◌then◌else◌,
  cstr, is_nonempty,
}
use mqtt_field_bridge_app.Config.{Peer, peer_max, Platform, Config, is_ok, get_peer, get_settings}
pub mod Seeds

-- What bridge_control.c uses of other code: inet_pton for IPv4 (`some` is a result of 1), and the
-- static seed table of the mesh module, whose state is `T`.
pub record Mesh (T : Type 0) : Type 0 where
  pub inet_pton : Bytes → Option ℕ
  pub seed_clear : T → T
  pub seed_add : T → ℕ → ℕ → Rc × T

-- The weak functions of a build without the mesh module: no table, and every seed is taken.
unfoldable pub weak_mesh : (Bytes → Option ℕ) → Mesh Unit
weak_mesh inet_pton = record {
  inet_pton = inet_pton;
  seed_clear = λ table. table;
  seed_add = λ table addr p2p_port. (ok, table);
}

module _ {T : Type 0} (mesh : Mesh T) where
  open mesh use {inet_pton, seed_clear, seed_add}

  -- The end of the loop body: the address is looked up and added.
  unfoldable pub add_seed : Option ℕ → ℕ → ℕ × T → ℕ × T
  add_seed none port (enabled, table) = (enabled, table)
  add_seed (some addr) port (enabled, table) =
      let (rc, table') = seed_add table addr port in
      if is_ok rc then (enabled + 1, table') else (enabled, table')

  -- The loop body; each `continue` leaves the count and the table.
  unfoldable pub apply_peer : Option Peer → ℕ × T → ℕ × T
  apply_peer none st = st
  apply_peer (some peer) st =
      if peer.enabled == 0
      then st
      else if not (is_nonempty peer.host)
      then st
      else if peer.mqtt_port == 0 || peer.p2p_port == 0
      then st
      else add_seed (inet_pton (cstr peer.host)) peer.p2p_port st

  module _ {S : Type 0} (env : Platform S) where
    -- The loop over the slots: `n` rounds from slot `i`.
    unfoldable pub apply_slots : Config S → ℕ → ℕ → ℕ × T → ℕ × T
    apply_slots c zero i st = st
    apply_slots c (suc n) i st = apply_slots c n (i + 1) (apply_peer (get_peer env c (pos i)) st)

    -- The count that is returned, and the seed table.
    unfoldable pub apply_peers : Config S → T → ℕ × T
    apply_peers c table = elim (get_settings env c) [
      | none ↦ (0, seed_clear table)
      | some settings ↦
          if settings.broker.bridge_enabled == 0
          then (0, seed_clear table)
          else apply_slots c peer_max 0 (0, seed_clear table)
    ]

    unfoldable pub bridge_control_init : Config S → T → T
    bridge_control_init c table = (apply_peers c table).1
