-- ===== src/Http/Linux.antt =====
-- handle_request of provisioning_http.c, the server of the Linux build.
use mqtt_field_bridge_app.Http.Posts.{
  linux_post_config, linux_post_peer, linux_post_control, linux_post_publish, linux_post_reset,
}
use mqtt_field_bridge_app.Base.{
  ℕ, zero, suc, ◌||◌, Option, none, some, [], ◌∷◌, Bytes, ◌==◌, if◌then◌else◌, codes, equal, drop,
  take,
}
use mqtt_field_bridge_app.Config.{Platform}
use mqtt_field_bridge_app.Bridge.{Mesh}
use mqtt_field_bridge_app.Runtime.{P2p}
use mqtt_field_bridge_app.Topics.{strncmp_eq}
use mqtt_field_bridge_app.Console.{is_space, skip_spaces}
use mqtt_field_bridge_app.Http.Json.{strstr, find_char}
use mqtt_field_bridge_app.Http.Handlers.{
  Server, Response, index_html, json, reply, Page, status_page, config_page, peers_page,
  peer_status_page, is_path, page_of, page_text,
}

abbrev pub resp_buf_size : ℕ
resp_buf_size = 8192

-- "%<width>s" of sscanf from the first character of a word: the word, and what is left.
unfoldable pub word_chars : ℕ → Bytes → Bytes × Bytes
word_chars zero s = ([], s)
word_chars (suc width) [] = ([], [])
word_chars (suc width) (c ∷ s) =
    let (word, rest) = word_chars width s in if is_space c then ([], c ∷ s) else (c ∷ word, rest)

unfoldable pub scan_word : ℕ → Bytes → Option (Bytes × Bytes)
scan_word width s =
    let (word, rest) = word_chars width (skip_spaces s) in
    elim word [ [] ↦ none | c ∷ chars ↦ some (c ∷ chars, rest) ]

-- Up to the first `c`.
unfoldable pub before_char : ℕ → Bytes → Bytes
before_char c [] = []
before_char c (x ∷ s) = let rest = before_char c s in if x == c then [] else x ∷ rest

-- The path of a request line, without the host of an absolute address and without the query.
unfoldable pub request_path : Bytes → Bytes
request_path raw_path =
    let path : Bytes =
      if strncmp_eq raw_path (codes "http://") 7
      then elim (find_char (drop 7 raw_path) b'/') [ none ↦ codes "/" | some slash ↦ slash ]
      else raw_path in
    before_char b'?' (take 127 path)

unfoldable pub request_body : Bytes → Bytes
request_body req = elim (strstr req (codes "\r\n\r\n")) [ none ↦ [] | some p ↦ drop 4 p ]

abbrev pub unavailable : Page → Response
unavailable status_page = reply 400 "{\"error\":\"status unavailable\"}"
unavailable config_page = reply 400 "{\"error\":\"config unavailable\"}"
unavailable peers_page = reply 400 "{\"error\":\"peers unavailable\"}"
unavailable peer_status_page = reply 400 "{\"error\":\"peer status unavailable\"}"

unfoldable pub text_or : Response → Option Bytes → Response
text_or missing none = missing
text_or missing (some text) = record { code = 200; body = json text }

abbrev pub not_found : Response
not_found = reply 404 "{\"error\":\"not found\"}"

module _ {S T : Type 0} (env : Platform S) (mesh : Mesh T) (p2p : P2p) where
  unfoldable pub linux_get : Bytes → Server S T → Response × Server S T
  linux_get path s =
      if is_path path "/" || is_path path "/index.html"
      then (record { code = 200; body = index_html }, s)
      else elim (page_of path) [
        | none ↦ (not_found, s)
        | some page ↦
            let (text, s') = page_text env mesh p2p page resp_buf_size s in
            (text_or (unavailable page) text, s')
      ]

  unfoldable pub linux_post : Bytes → Bytes → Server S T → Response × Server S T
  linux_post path body s =
      if is_path path "/config"
      then linux_post_config env mesh p2p body s
      else if strncmp_eq path (codes "/peers/") 7
      then linux_post_peer env mesh p2p path body s
      else if is_path path "/broker/control"
      then linux_post_control env mesh p2p body s
      else if is_path path "/publish-test"
      then linux_post_publish env mesh p2p body s
      else if is_path path "/config/reset"
      then linux_post_reset env mesh p2p s
      else if is_path path "/reboot"
      then (reply 200 "{\"status\":\"rebooting\"}", s)
      else (not_found, s)

  -- By the method and the path; each test of the source is for one method.
  unfoldable pub linux_answer : Bytes → Bytes → Bytes → Server S T → Response × Server S T
  linux_answer method path body s =
      if equal method (codes "GET")
      then linux_get path s
      else if equal method (codes "POST")
      then linux_post path body s
      else (not_found, s)

  -- The one response that is sent for the bytes of a request.
  unfoldable pub handle_request : Bytes → Server S T → Response × Server S T
  handle_request req s = elim (scan_word 7 req) [
    | none ↦ (reply 400 "{\"error\":\"bad request\"}", s)
    | some (method, rest) ↦ elim (scan_word 127 rest) [
      | none ↦ (reply 400 "{\"error\":\"bad request\"}", s)
      | some (raw_path, rest') ↦ linux_answer method (request_path raw_path) (request_body req) s
    ]
  ]
