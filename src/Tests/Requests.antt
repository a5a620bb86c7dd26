-- ===== src/Tests/Requests.antt =====
-- Tests of the two servers.
use mqtt_field_bridge_app.Base.{
  ℕ, zero, suc, ◌≤◌, ◌<◌, ◌≡◌, ap, refl, true, false, Bool, not, ◌&&◌, some, none, List, [], ◌∷◌,
  ok, fail, Bytes, All, arith, ◌==◌, codes, cstr, equal, length, IsText, take,
}
use mqtt_field_bridge_app.Config.{init, init-IsWellFormed, IsWellFormed}
use mqtt_field_bridge_app.Runtime.{P2p, runtime_init}
use mqtt_field_bridge_app.Topics.{strncmp_eq}
use mqtt_field_bridge_app.Console.{skip_spaces, is_space, decimal, decimal_from}
use mqtt_field_bridge_app.Bridge.Seeds.{Seed}
use mqtt_field_bridge_app.Http.{
  IsWordText, IsLine, head_text, request_line, handle_request-request_line, scan_word, word_chars,
  linux_answer, linux_get, request_path, before_char, content_of, header_text, reason, Server, Call,
  data_final, aborted, http_post, http_get, handle_calls, handle_calls-IsWellFormed,
  handle_calls-IsExclusive, IsExclusive, empty_slots, held, has_slot, serve_once, Sockets,
  not_listening, listener_of, started_fd, first_fd, http_starts, http_starts-first_fd, http_thread,
  http_thread-IsWellFormed, serve_once-whole, joined, response_text, page_of, handle_request,
  is_complete, need_of, strstr, has_bytes,
}
use mqtt_field_bridge_app.Samples.{Memory, memory, blank, one_seed}

abbrev no_mesh : P2p
no_mesh = record { peer_snapshot = []; remote_subs = none; inet_pton = λ s. none }

abbrev server : Server Memory (List Seed)
server = record { config = init memory blank; runtime = runtime_init; table = []; reboots = 0 }

server-IsWellFormed : IsWellFormed server.config
server-IsWellFormed = init-IsWellFormed memory blank

-- The last request is refused.
abbrev requests : List Bytes
requests =
    codes "POST /config HTTP/1.1\r\n\r\n{\"mqtt_port\":8883,\"device_name\":\"gw-c\"}"
    ∷ codes "POST /peers/0 HTTP/1.1\r\n\r\n{\"host\":\"10.88.0.3\",\"enabled\":true}"
    ∷ codes "GET /status HTTP/1.1\r\n\r\n"
    ∷ codes "POST /config HTTP/1.1\r\n\r\n{\"mode\":\"wifi\"}"
    ∷ []

-- Two clients, the first of which goes away.
abbrev calls : List Call
calls =
    record {
      client = 7;
      transaction = data_final;
      request = record {
        method = http_post;
        url = codes "/config?x";
        content = some (codes "{\"mqtt_port\":8883}");
      };
    }
    ∷ record {
      client = 8;
      transaction = data_final;
      request = record { method = http_get; url = codes "/peers"; content = none };
    }
    ∷ record {
      client = 7;
      transaction = aborted;
      request = record { method = http_get; url = []; content = none };
    }
    ∷ []

handle_calls-IsWellFormed_example :
    IsWellFormed (handle_calls memory one_seed no_mesh calls empty_slots server).1.config
handle_calls-IsWellFormed_example =
    handle_calls-IsWellFormed memory one_seed no_mesh calls empty_slots server server-IsWellFormed

empty_slots-IsExclusive : IsExclusive 2 empty_slots
unfolding held
empty_slots-IsExclusive = (refl, λ d. omega arith)

handle_calls-IsExclusive_example :
    IsExclusive 2 (handle_calls memory one_seed no_mesh calls empty_slots server).0
handle_calls-IsExclusive_example =
    handle_calls-IsExclusive memory one_seed no_mesh 2 calls empty_slots server
      empty_slots-IsExclusive

held_by_7 : has_slot 7 (some 7 ∷ (some 8 ∷ [])) ≡ true
unfolding has_slot
held_by_7 = refl

abbrev text_test : Bytes → Bool
text_test [] = true
text_test (c ∷ s) = not (c == 0) && text_test s

text_test-IsText : (s : Bytes) → text_test s ≡ true → IsText s
text_test-IsText [] h = tt
text_test-IsText (c ∷ s) h = ((λ e. ground arith), text_test-IsText s (ground arith))

abbrev posted : Bytes
posted = codes "{\"broker_enabled\":0}"

-- A request in two parts, and calls of send that take one byte each.
abbrev parts : List Bytes
parts = codes "GET " ∷ (codes "x\r\n\r\n" ∷ [])

abbrev ones : ℕ → List ℕ
ones zero = []
ones (suc n) = 1 ∷ ones n

ones_positive : (n : ℕ) → All (λ k. 0 < k) (ones n)
ones_positive zero = tt
ones_positive (suc n) = (omega arith, ones_positive n)

parts_early : (n : ℕ) → n < length (joined parts) → is_complete (take n (joined parts)) ≡ false
unfolding is_complete has_bytes need_of strstr strncmp_eq cstr
parts_early zero h = refl
parts_early (suc zero) h = refl
parts_early (suc (suc zero)) h = refl
parts_early (suc (suc (suc zero))) h = refl
parts_early (suc (suc (suc (suc zero)))) h = refl
parts_early (suc (suc (suc (suc (suc zero))))) h = refl
parts_early (suc (suc (suc (suc (suc (suc zero)))))) h = refl
parts_early (suc (suc (suc (suc (suc (suc (suc zero))))))) h = refl
parts_early (suc (suc (suc (suc (suc (suc (suc (suc zero)))))))) h = refl
parts_early (suc (suc (suc (suc (suc (suc (suc (suc (suc n))))))))) h = absurd (omega arith)

parts_answer :
    response_text (handle_request memory one_seed no_mesh (joined parts) server).0
    ≡ codes
        "HTTP/1.1 404 Not Found\r\nConnection: close\r\nContent-Type: application/json\r\nContent-Length: 21\r\n\r\n{\"error\":\"not found\"}"
unfolding handle_request scan_word word_chars skip_spaces is_space linux_answer linux_get
    request_path before_char strncmp_eq equal page_of content_of header_text reason decimal
    decimal_from
parts_answer = refl

parts_enough :
    length (response_text (handle_request memory one_seed no_mesh (joined parts) server).0)
    ≤ length (ones 200)
parts_enough = omega (arith, ap length parts_answer)

serve_once-whole_example : serve_once memory one_seed no_mesh parts (ones 200) server ≡ (
  response_text (handle_request memory one_seed no_mesh (joined parts) server).0,
  (handle_request memory one_seed no_mesh (joined parts) server).1,
)
serve_once-whole_example =
    serve_once-whole memory one_seed no_mesh parts (ones 200) server
      (text_test-IsText (joined parts) refl) (omega arith, (omega arith, tt)) (omega arith)
      parts_early (ones_positive 200) parts_enough

abbrev none_of : (ℕ → Bool) → Bytes → Bool
none_of f [] = true
none_of f (c ∷ s) = not (f c) && none_of f s

none_of-All : (f : ℕ → Bool) (s : Bytes) → none_of f s ≡ true → All (λ c. f c ≡ false) s
none_of-All f [] h = tt
none_of-All f (c ∷ s) h = (ground arith, none_of-All f s (ground arith))

post_word : IsWordText 7 (codes "POST")
unfolding is_space
post_word = (omega arith, omega arith, none_of-All is_space (codes "POST") refl)

config_word : IsWordText 127 (codes "/config")
unfolding is_space
config_word = (omega arith, omega arith, none_of-All is_space (codes "/config") refl)

is_line : (l : Bytes) → 0 < length l → none_of (λ c. c == 13) l ≡ true → IsLine l
is_line l some_text h = (some_text, none_of-All (λ c. c == 13) l h)

abbrev post_line : Bytes
post_line = request_line (codes "POST") (codes "/config") (codes "HTTP/1.1")

handle_request-request_line_example :
    handle_request memory one_seed no_mesh
      (head_text (post_line ∷ codes "Host: x" ∷ []) posted)
      server
    ≡ linux_answer memory one_seed no_mesh (codes "POST") (codes "/config") posted server
handle_request-request_line_example =
    handle_request-request_line memory one_seed no_mesh (codes "POST") (codes "config")
      (codes "HTTP/1.1") (codes "Host: x" ∷ []) posted server post_word config_word
      (none_of-All (λ c. c == 63) (codes "config") refl)
      (is_line post_line (omega arith) refl, (is_line (codes "Host: x") (omega arith) refl, tt))

-- The port is taken at first; then it is free; then the server runs.
abbrev attempts : List Sockets
attempts =
    record { socket = some 5; bind = fail; listen = ok; create = ok }
    ∷ record { socket = some 6; bind = ok; listen = ok; create = ok }
    ∷ record { socket = some 7; bind = ok; listen = ok; create = ok }
    ∷ []

http_starts-first_fd_example : http_starts attempts not_listening ≡ listener_of (first_fd attempts)
http_starts-first_fd_example = http_starts-first_fd attempts

attempts_fd : first_fd attempts ≡ some 6
unfolding first_fd started_fd
attempts_fd = refl

http_thread-IsWellFormed_example :
    IsWellFormed
      (http_thread memory one_seed no_mesh
        (none ∷ some (record { chunks = parts; sends = [] }) ∷ [])
        server).1.config
http_thread-IsWellFormed_example =
    http_thread-IsWellFormed memory one_seed no_mesh
      (none ∷ some (record { chunks = parts; sends = [] }) ∷ []) server
      (init-IsWellFormed memory blank)
