-- ===== src/Http/Start.antt =====
-- The start of the servers of provisioning_http.c. What the calls of
-- sockets and threads return is given; an `int` that is an open file is its number.
use mqtt_field_bridge_app.Base.{
  ℕ, ◌+◌, ◌≡◌, refl, inl, inr, true, Bool-cases, Option-cases, ◌&&◌, Option, none, some, List, [],
  ◌∷◌, Rc, ok, fail, ◌==◌, if◌then◌else◌, arith,
}
use mqtt_field_bridge_app.Config.{is_ok}

-- The flag, and the number of servers of Zephyr that were started.
unfoldable pub zephyr_http_start : Rc → ℕ × ℕ → Rc × ℕ × ℕ
zephyr_http_start started_rc (started, servers) =
    if started == 0
    then if is_ok started_rc then (ok, 1, servers + 1) else (fail, started, servers)
    else (ok, started, servers)

-- The static variables of the Linux build, the sockets that are open, and the threads that run.
pub record Listener : Type 0 where
  pub started : ℕ
  pub listen_fd : Option ℕ
  pub open_fds : List ℕ
  pub threads : ℕ

-- What one call finds: the socket, if there is one, and the results for it.
pub record Sockets : Type 0 where
  pub socket : Option ℕ
  pub bind : Rc
  pub listen : Rc
  pub create : Rc

abbrev pub not_listening : Listener
not_listening = record { started = 0; listen_fd = none; open_fds = []; threads = 0 }

unfoldable pub close : ℕ → List ℕ → List ℕ
close fd [] = []
close fd (f ∷ fds) = let rest = close fd fds in if f == fd then fds else f ∷ rest

-- With an open socket.
unfoldable pub listen_on : ℕ → Sockets → Listener → Rc × Listener
listen_on fd calls l =
    let opened = fd ∷ l.open_fds in
    let closed = record l { listen_fd = none; open_fds = close fd opened } in
    if is_ok calls.bind && is_ok calls.listen
    then if is_ok calls.create
      then (
        ok,
        record { started = 1; listen_fd = some fd; open_fds = opened; threads = l.threads + 1 },
      )
      else (fail, closed)
    else (fail, closed)

unfoldable pub provisioning_http_start : Sockets → Listener → Rc × Listener
provisioning_http_start calls l =
    if l.started == 0
    then elim calls.socket [
      | none ↦ (fail, record l { listen_fd = none })
      | some fd ↦ listen_on fd calls l
    ]
    else (ok, l)

unfoldable pub http_starts : List Sockets → Listener → Listener
http_starts [] l = l
http_starts (calls ∷ rest) l = http_starts rest (provisioning_http_start calls l).1

-- The socket was made, bound and put to listen, and the thread created.
unfoldable pub started_fd : Sockets → Option ℕ
started_fd calls = elim calls.socket [
  | none ↦ none
  | some fd ↦ if is_ok calls.bind && is_ok calls.listen && is_ok calls.create then some fd else none
]

-- The socket of the first call for which all of that went well.
unfoldable pub first_fd : List Sockets → Option ℕ
first_fd [] = none
first_fd (calls ∷ rest) = elim (started_fd calls) [ none ↦ first_fd rest | some fd ↦ some fd ]

-- Nothing is held, or the one socket with the one thread that serves it.
unfoldable pub listener_of : Option ℕ → Listener
listener_of none = not_listening
listener_of (some fd) = record { started = 1; listen_fd = some fd; open_fds = fd ∷ []; threads = 1 }

close_opened : (fd : ℕ) → close fd (fd ∷ []) ≡ []
unfolding close
close_opened fd = let same : (fd == fd) ≡ true = ground arith in rw same refl

-- A call on a listener that holds nothing.
first_start :
    (calls : Sockets)
    → (provisioning_http_start calls not_listening).1 ≡ listener_of (started_fd calls)
unfolding provisioning_http_start listen_on started_fd listener_of
first_start calls = elim (Option-cases calls.socket) [
  | inl e ↦ rw (e, provisioning_http_start, started_fd) refl
  | inr (fd, e) ↦ elim (Bool-cases (is_ok calls.bind && is_ok calls.listen)) [
    | inl e' ↦ elim (Bool-cases (is_ok calls.create)) [
      | inl e'' ↦ rw (e, provisioning_http_start, started_fd) (ground arith)
      | inr e'' ↦ rw (e, provisioning_http_start, started_fd) (ground (arith, close_opened fd))
    ]
    | inr e' ↦ rw (e, provisioning_http_start, started_fd) (ground (arith, close_opened fd))
  ]
]

http_starts_again :
    (calls : List Sockets) (fd : ℕ)
    → http_starts calls (listener_of (some fd)) ≡ listener_of (some fd)
unfolding http_starts provisioning_http_start listener_of
http_starts_again [] fd = refl
http_starts_again (c ∷ calls) fd = http_starts_again calls fd

-- Over any number of calls of provisioning_http_start, with whatever results: if some call made, bound
-- and put to listen a socket and created the thread, the first such socket is the one that is open
-- and listened on, with one thread for it; otherwise no socket is open and no thread runs.
pub http_starts-first_fd :
    (calls : List Sockets) → http_starts calls not_listening ≡ listener_of (first_fd calls)
unfolding http_starts first_fd listener_of
http_starts-first_fd [] = refl
http_starts-first_fd (c ∷ calls) = elim (Option-cases (started_fd c)) [
  | inl e ↦ rw (first_start c, e, http_starts, first_fd) (http_starts-first_fd calls)
  | inr (fd, e) ↦ rw (first_start c, e, http_starts, first_fd) (http_starts_again calls fd)
]
