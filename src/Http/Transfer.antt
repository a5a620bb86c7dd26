-- ===== src/Http/Transfer.antt =====
-- The connection of the Linux build: receive, send_all, http_send and serve_once.
use mqtt_field_bridge_app.Base.{
  ℕ, zero, suc, ◌+◌, ◌-◌, ◌^◌, ◌<◌, ◌≤◌, ◌≡◌, ◌∙◌, refl, sym, ap, inl, inr, true, false, Bool-cases,
  List, [], ◌∷◌, ◌++◌, Bytes, String, ok, leb, ◌==◌, All, arith, codes, cstr_self, IsText, length,
  length-append, length-take, length-drop, take, drop, append_assoc, append-nil, take-eq_self,
}
use mqtt_field_bridge_app.Config.{Platform}
use mqtt_field_bridge_app.Bridge.{Mesh}
use mqtt_field_bridge_app.Runtime.{P2p}
use mqtt_field_bridge_app.Console.{decimal}
use mqtt_field_bridge_app.Http.Handlers.{Server, Response}
use mqtt_field_bridge_app.Http.Linux.{handle_request}
use mqtt_field_bridge_app.Http.Pieces.{Part, most_of, length-pieces-le, length-decimal_from}
use mqtt_field_bridge_app.Http.Wire.{
  serve_once, content_of, is_complete, receive, send_all, header_text, http_send, header_size,
  reason, linux_req_buf_size,
}

-- The chunks one behind the other.
abbrev pub joined : List Bytes → Bytes
joined [] = []
joined (chunk ∷ chunks) = chunk ++ joined chunks

-- The bytes that serve_once hands on never exceed the buffer.
length-receive :
    (chunks : List Bytes) (req : Bytes)
    → length req < linux_req_buf_size
    → length (receive chunks req) < linux_req_buf_size
unfolding receive
length-receive [] req h = h
length-receive (chunk ∷ chunks) req h =
    let room = linux_req_buf_size - 1 - length req in
    let got = take room chunk in
    let len : length (req ++ got) < linux_req_buf_size =
      omega (arith, length-append req got, length-take room chunk) in
    let ih = length-receive chunks (req ++ got) len in ground arith

take-drop : (n : ℕ) (b : Bytes) → take n b ++ drop n b ≡ b
take-drop zero b = refl
take-drop (suc n) [] = refl
take-drop (suc n) (c ∷ b) = ap (◌∷◌ c) (take-drop n b)

take-append : (a b : Bytes) → take (length a) (a ++ b) ≡ a
take-append [] b = refl
take-append (c ∷ a) b = ap (◌∷◌ c) (take-append a b)

-- If each call of send takes at least one byte, and there are as many calls as bytes, then all bytes
-- are sent, in order.
send_all-whole :
    (buf : Bytes) (ns : List ℕ)
    → All (λ n. 0 < n) ns
    → length buf ≤ length ns
    → ((send_all buf ns).0 ≡ ok)
      × ((send_all buf ns).1 ≡ buf)
      × (All (λ n. 0 < n) (send_all buf ns).2)
      × (length ns ≤ length (send_all buf ns).2 + length buf)
unfolding send_all
send_all-whole [] ns all enough = (refl, refl, all, omega arith)
send_all-whole (c ∷ buf) [] all enough = absurd (omega arith)
send_all-whole (c ∷ buf) (n ∷ ns) all enough =
    let left = drop n (c ∷ buf) in
    let len : length left ≤ length ns = omega (arith, length-drop n (c ∷ buf), all.0, enough) in
    let (done, sent, positive, calls) = send_all-whole left ns all.1 len in
    let some_byte : (n == 0) ≡ false = ground (arith, all.0) in
    rw (some_byte, send_all)
      (
        done,
        ap (λ b. take n (c ∷ buf) ++ b) sent ∙ take-drop n (c ∷ buf),
        positive,
        omega (arith, calls, length-drop n (c ∷ buf), all.0),
      )

-- What is complete is the whole request.
all_joined :
    (req rest whole : Bytes)
    → req ++ rest ≡ whole
    → is_complete req ≡ true
    → ((n : ℕ) → n < length whole → is_complete (take n whole) ≡ false)
    → req ≡ whole
all_joined req [] whole e done early = sym (append-nil req) ∙ e
all_joined req (c ∷ rest) whole e done early =
    let shorter : length req < length whole =
      omega (arith, ap length e, length-append req (c ∷ rest)) in
    let start : take (length req) whole ≡ req = rw (sym e) (take-append req (c ∷ rest)) in
    let early' = early (length req) shorter in absurd cc

-- A request that fits the buffer, and that is complete with its last byte and not before, is received
-- whole, however it is split into chunks that are not empty.
pub receive-joined :
    (chunks : List Bytes) (req whole : Bytes)
    → req ++ joined chunks ≡ whole
    → All (λ chunk. 0 < length chunk) chunks
    → length whole < linux_req_buf_size
    → ((n : ℕ) → n < length whole → is_complete (take n whole) ≡ false)
    → receive chunks req ≡ whole
unfolding receive
receive-joined [] req whole e filled fits early = sym (append-nil req) ∙ e
receive-joined (chunk ∷ chunks) req whole e filled fits early =
    let len : length whole ≡ length req + (length chunk + length (joined chunks)) = omega (
      arith,
      ap length e,
      length-append req (chunk ++ joined chunks),
      length-append chunk (joined chunks),
    ) in
    let room : leb (linux_req_buf_size - 1) (length req) ≡ false = ground arith in
    let got : take (linux_req_buf_size - 1 - length req) chunk ≡ chunk =
      take-eq_self (linux_req_buf_size - 1 - length req) chunk (omega (arith, filled.0)) in
    let some_byte : (length chunk == 0) ≡ false = ground (arith, filled.0) in
    let e' : (req ++ chunk) ++ joined chunks ≡ whole = append_assoc req chunk (joined chunks) ∙ e in
    elim (Bool-cases (is_complete (req ++ chunk))) [
      | inl done ↦
          rw (room, receive, got, some_byte, done)
            (all_joined (req ++ chunk) (joined chunks) whole e' done early)
      | inr more ↦
          rw (room, receive, got, some_byte, more)
            (receive-joined chunks (req ++ chunk) whole e' filled.1 fits early)
    ]

http_send-whole :
    (code : ℕ) (ctype : String) (body : Bytes) (ns : List ℕ)
    → All (λ n. 0 < n) ns
    → length (header_text code ctype body) + length body ≤ length ns
    → http_send code ctype body ns ≡ header_text code ctype body ++ body
unfolding http_send
http_send-whole code ctype body ns all enough =
    let head = header_text code ctype body in
    let (done, sent, positive, calls) = send_all-whole head ns all (omega arith) in
    let (done', sent', positive', calls') =
      send_all-whole body (send_all head ns).2 positive (omega arith) in
    rw (sent, sent') refl

length-reason : (code : ℕ) → length (codes (reason code)) ≤ 18
unfolding reason
length-reason code = elim (Bool-cases (code == 200)) [
  | inl e ↦ rw (e, reason) (omega arith)
  | inr e ↦ elim (Bool-cases (code == 400)) [
    | inl e' ↦ rw (e, e', reason) (omega arith)
    | inr e' ↦ elim (Bool-cases (code == 405)) [
      | inl e'' ↦ rw (e, e', e'', reason) (omega arith)
      | inr e'' ↦ rw (e, e', e'', reason) (omega arith)
    ]
  ]
]

-- The header of a response fits its array, with a code of three digits, a content type of at most 24
-- characters and a length that an unsigned int holds.
pub length-header_text :
    (code : ℕ) (ctype : String) (body : Bytes)
    → code < 1000
    → length (codes ctype) ≤ 24
    → length body < 2 ^ 32
    → length (header_text code ctype body) < header_size
unfolding header_text decimal
length-header_text code ctype body three short long =
    let parts : List Part =
      ("HTTP/1.1 ", decimal code, 3)
      ∷ (" ", codes (reason code), 18)
      ∷ ("\r\nConnection: close\r\nContent-Type: ", codes ctype, 24)
      ∷ ("\r\nContent-Length: ", decimal (length body), 10)
      ∷ [] in
    let shown : All (λ p. length p.1 ≤ p.2) parts = (
      length-decimal_from (suc code) code 2 (omega arith),
      (
        length-reason code,
        (short, (length-decimal_from (suc (length body)) (length body) 9 (omega arith), tt)),
      ),
    ) in
    let all : length (header_text code ctype body) ≤ most_of parts + 4 =
      length-pieces-le parts (codes "\r\n\r\n") shown in
    omega (arith, all)

-- The header and the body of a response.
abbrev pub response_text : Response → Bytes
response_text response =
    let (ctype, text) = content_of response.body in header_text response.code ctype text ++ text

module _ {S T : Type 0} (env : Platform S) (mesh : Mesh T) (p2p : P2p) where
  -- A request text that fits the buffer, and that is complete with its last byte and not before, is
  -- answered the same however it is split: if each call of send takes at least one byte, and there
  -- are enough of them, the header and the body of handle_request's response are sent whole.
  pub serve_once-whole :
      (chunks : List Bytes) (ns : List ℕ) (s : Server S T)
      → IsText (joined chunks)
      → All (λ chunk. 0 < length chunk) chunks
      → length (joined chunks) < linux_req_buf_size
      → ((n : ℕ) → n < length (joined chunks) → is_complete (take n (joined chunks)) ≡ false)
      → All (λ n. 0 < n) ns
      → length (response_text (handle_request env mesh p2p (joined chunks) s).0) ≤ length ns
      → serve_once env mesh p2p chunks ns s ≡ (
        response_text (handle_request env mesh p2p (joined chunks) s).0,
        (handle_request env mesh p2p (joined chunks) s).1,
      )
  unfolding serve_once
  serve_once-whole chunks ns s is_text filled fits early all enough =
      let whole = joined chunks in
      let received = receive-joined chunks [] whole refl filled fits early in
      let response = (handle_request env mesh p2p whole s).0 in
      let (ctype, text) = content_of response.body in
      let len = length-append (header_text response.code ctype text) text in
      rw
        (
          received,
          cstr_self whole is_text,
          http_send-whole response.code ctype text ns all (omega arith),
        )
        refl
