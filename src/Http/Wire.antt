-- ===== src/Http/Wire.antt =====
-- The connection of the Linux build of provisioning_http.c: serve_once, http_send and send_all. The
-- calls of recv are the list of what is there to read when each is made, the calls of send the list
-- of the numbers that they return; after the lists, and at an empty entry or a 0, they fail.
use mqtt_field_bridge_app.Base.{
  ℕ, suc, ◌+◌, ◌-◌, Bool, false, none, some, List, [], ◌∷◌, ◌++◌, Bytes, String, ℤ, pos, negsuc, Rc,
  ok, fail, leb, ◌==◌, if◌then◌else◌, codes, cstr, length, take, drop, ◌%◌, ◌^◌, true, ltb,
}
use mqtt_field_bridge_app.Config.{Platform}
use mqtt_field_bridge_app.Bridge.{Mesh}
use mqtt_field_bridge_app.Runtime.{P2p}
use mqtt_field_bridge_app.Console.{atoi, decimal, int_max}
use mqtt_field_bridge_app.Http.Json.{strstr}
use mqtt_field_bridge_app.Http.Builders.{piece}
use mqtt_field_bridge_app.Http.Handlers.{Server, Body, index_html, json}
use mqtt_field_bridge_app.Http.Page.{index_html_text}
use mqtt_field_bridge_app.Http.Linux.{handle_request}

abbrev pub linux_req_buf_size : ℕ
linux_req_buf_size = 4096

abbrev pub header_size : ℕ
header_size = 192

-- Content-Length, or 0.
unfoldable pub need_of : Bytes → ℤ
need_of text = elim (strstr text (codes "Content-Length:")) [
  | none ↦ pos 0
  | some cl ↦ atoi (drop 15 cl)
]

-- total >= (int)(head + need)
unfoldable pub has_bytes : ℕ → ℕ → ℤ → Bool
has_bytes total head (pos n) =
    let sum = (head + n) % 2 ^ 32 in if ltb int_max sum then true else leb sum total
has_bytes total head (negsuc n) = leb head (total + suc n)

-- The head is there, with as many bytes behind it as it announces.
unfoldable pub is_complete : Bytes → Bool
is_complete req =
    let text = cstr req in
    elim (strstr text (codes "\r\n\r\n")) [
      | none ↦ false
      | some body ↦
          let head = length text - length body + 4 in has_bytes (length req) head (need_of text)
    ]

-- The loop of serve_once, with `req` in the buffer.
unfoldable pub receive : List Bytes → Bytes → Bytes
receive [] req = req
receive (chunk ∷ chunks) req =
    let got = take (linux_req_buf_size - 1 - length req) chunk in
    let rest = receive chunks (req ++ got) in
    if leb (linux_req_buf_size - 1) (length req)
    then req
    else if length got == 0
    then req
    else if is_complete (req ++ got)
    then req ++ got
    else rest

-- The result, what was sent, and the calls that are left.
unfoldable pub send_all : Bytes → List ℕ → Rc × Bytes × List ℕ
send_all [] ns = (ok, [], ns)
send_all (c ∷ buf) [] = (fail, [], [])
send_all (c ∷ buf) (n ∷ ns) =
    let (rc, sent, rest) = send_all (drop n (c ∷ buf)) ns in
    if n == 0 then (fail, [], ns) else (rc, take n (c ∷ buf) ++ sent, rest)

unfoldable pub reason : ℕ → String
reason code =
    if code == 200
    then "OK"
    else if code == 400
    then "Bad Request"
    else if code == 405
    then "Method Not Allowed"
    else "Not Found"

unfoldable pub header_text : ℕ → String → Bytes → Bytes
header_text code ctype body = piece "HTTP/1.1 " (decimal code) (
    piece " " (codes (reason code)) (
      piece "\r\nConnection: close\r\nContent-Type: " (codes ctype)
        (piece "\r\nContent-Length: " (decimal (length body)) (codes "\r\n\r\n"))))

-- What is sent of a response. The text of the header fits its array.
unfoldable pub http_send : ℕ → String → Bytes → List ℕ → Bytes
http_send code ctype body ns =
    let (rc, head, ns') = send_all (header_text code ctype body) ns in
    let (rc', sent, ns'') = send_all body ns' in head ++ sent

-- The content type and the text of a body.
unfoldable pub content_of : Body → String × Bytes
content_of index_html = ("text/html; charset=utf-8", index_html_text)
content_of (json text) = ("application/json", text)

module _ {S T : Type 0} (env : Platform S) (mesh : Mesh T) (p2p : P2p) where
  -- What is sent, and the state.
  unfoldable pub serve_once : List Bytes → List ℕ → Server S T → Bytes × Server S T
  serve_once chunks ns s =
      let (response, s') = handle_request env mesh p2p (cstr (receive chunks [])) s in
      let (ctype, text) = content_of response.body in (http_send response.code ctype text ns, s')
