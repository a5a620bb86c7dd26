-- ===== src/Console/Valid.antt =====
-- What the console leaves of the configuration: settings that validate, and, where no line failed,
-- nothing that the store does not hold.
use mqtt_field_bridge_app.Base.{
  ℕ, ◌<◌, ◌≡◌, sym, Bool, true, some, List, [], ◌∷◌, Bytes, pos, ok, ◌&&◌, arith,
}
use mqtt_field_bridge_app.Config.{
  Platform, IsPersistent, peer_max, is_ok, init, get_settings, get_peer, IsWellFormed, IsSynced,
  IsSynced-init, Effect-IsWellFormed, Effect-IsSynced,
}
use mqtt_field_bridge_app.Runtime.{P2p}
use mqtt_field_bridge_app.Console.State.{Console}
use mqtt_field_bridge_app.Console.Dispatch.{handle_line, handle_lines}
use mqtt_field_bridge_app.Console.Lines.{handle_line-Acts}

module _ {S : Type 0} (env : Platform S) (p2p : P2p) (has_reboot : Bool) where
  -- Each of the lines returned 0.
  unfoldable pub all_succeed : List Bytes → Console S → Bool
  all_succeed [] t = true
  all_succeed (line ∷ lines) t =
      let (rc, t') = handle_line env p2p has_reboot (some line) t in
      let rest = all_succeed lines t' in is_ok rc && rest

  -- Over any lines, whatever they hold and whichever saves fail, settings that validate stay settings
  -- that validate, and every slot keeps a peer.
  pub handle_lines-IsWellFormed :
      (lines : List Bytes) (t : Console S)
      → IsWellFormed t.config
      → IsWellFormed (handle_lines env p2p has_reboot lines t).config
  unfolding handle_lines
  handle_lines-IsWellFormed [] t h = h
  handle_lines-IsWellFormed (line ∷ lines) t h =
      let acts = handle_line-Acts env p2p has_reboot (some line) t in
      handle_lines-IsWellFormed lines _ (Effect-IsWellFormed env _ _ _ acts h)

module _ {S : Type 0} (env : Platform S) (laws : IsPersistent env) (p2p : P2p)
    (has_reboot : Bool) where
  pub handle_lines-IsSynced :
      (lines : List Bytes) (t : Console S)
      → IsSynced env t.config
      → all_succeed env p2p has_reboot lines t ≡ true
      → IsSynced env (handle_lines env p2p has_reboot lines t).config
  unfolding handle_lines all_succeed
  handle_lines-IsSynced [] t h all = h
  handle_lines-IsSynced (line ∷ lines) t h all =
      let acts = handle_line-Acts env p2p has_reboot (some line) t in
      let succeeds : (handle_line env p2p has_reboot (some line) t).0 ≡ ok = ground arith in
      handle_lines-IsSynced lines _ (Effect-IsSynced env laws _ _ (rw (sym succeeds) acts) h)
        (ground arith)

  -- Over a persistent store: if memory and store agree, each of the lines returns 0 and the store
  -- starts, then a new start reads back the settings and the peers that the lines left.
  pub handle_lines-init :
      (lines : List Bytes) (t : Console S)
      → IsSynced env t.config
      → all_succeed env p2p has_reboot lines t ≡ true
      → (env.store_init (handle_lines env p2p has_reboot lines t).config.store).0 ≡ ok
      → let c = (handle_lines env p2p has_reboot lines t).config in
        (get_settings env (init env c) ≡ get_settings env c)
        × ((k : ℕ) → k < peer_max → get_peer env (init env c) (pos k) ≡ get_peer env c (pos k))
  handle_lines-init lines t h all ready =
      IsSynced-init env laws _ (handle_lines-IsSynced lines t h all) ready
