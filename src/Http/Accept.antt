-- ===== src/Http/Accept.antt =====
-- The thread of the Linux server of provisioning_http.c: what accept returns, and the connections.
use mqtt_field_bridge_app.Base.{
  ℕ, ◌≡◌, refl, Option, none, some, List, [], ◌∷◌, Bytes, cstr, length, arith,
}
use mqtt_field_bridge_app.Config.{Platform, IsWellFormed}
use mqtt_field_bridge_app.Bridge.{Mesh}
use mqtt_field_bridge_app.Runtime.{P2p}
use mqtt_field_bridge_app.Http.Handlers.{Server}
use mqtt_field_bridge_app.Http.Linux.{handle_request}
use mqtt_field_bridge_app.Http.Wire.{receive, serve_once}
use mqtt_field_bridge_app.Http.Sessions.{handle_requests, handle_requests-IsWellFormed}

-- What comes in over a connection, and what its calls of send return.
pub record Connection : Type 0 where
  pub chunks : List Bytes
  pub sends : List ℕ

-- The requests of the connections that were accepted.
unfoldable pub received : List (Option Connection) → List Bytes
received [] = []
received (none ∷ accepted) = received accepted
received (some c ∷ accepted) = cstr (receive c.chunks []) ∷ received accepted

module _ {S T : Type 0} (env : Platform S) (mesh : Mesh T) (p2p : P2p) where
  -- The loop, over what accept returns: `none` is an error. What is sent over each connection before it
  -- is closed, and the state.
  unfoldable pub http_thread : List (Option Connection) → Server S T → List Bytes × Server S T
  http_thread [] s = ([], s)
  http_thread (none ∷ accepted) s = http_thread accepted s
  http_thread (some c ∷ accepted) s =
      let (sent, s') = serve_once env mesh p2p c.chunks c.sends s in
      let (rest, s'') = http_thread accepted s' in (sent ∷ rest, s'')

  -- The thread handles the requests one after the other, and answers each connection once.
  pub http_thread-handle_requests :
      (accepted : List (Option Connection)) (s : Server S T)
      → ((http_thread accepted s).1 ≡ handle_requests env mesh p2p (received accepted) s)
        × (length (http_thread accepted s).0 ≡ length (received accepted))
  unfolding http_thread received handle_requests serve_once
  http_thread-handle_requests [] s = (refl, refl)
  http_thread-handle_requests (none ∷ accepted) s = http_thread-handle_requests accepted s
  http_thread-handle_requests (some c ∷ accepted) s =
      let request = cstr (receive c.chunks []) in
      let rest = http_thread-handle_requests accepted (handle_request env mesh p2p request s).1 in
      (rest.0, omega (arith, rest.1))

  -- Whatever the connections bring, and whatever accept and send return, settings that validate stay
  -- settings that validate, and every slot keeps a peer.
  pub http_thread-IsWellFormed :
      (accepted : List (Option Connection)) (s : Server S T)
      → IsWellFormed s.config
      → IsWellFormed (http_thread accepted s).1.config
  http_thread-IsWellFormed accepted s h =
      let same = http_thread-handle_requests accepted s in
      rw same.0 (handle_requests-IsWellFormed env mesh p2p (received accepted) s h)
