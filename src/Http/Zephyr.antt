-- ===== src/Http/Zephyr.antt =====
-- The buffers and the request handler of the Zephyr build of provisioning_http.c. A slot holds the
-- client that it is given to; the texts of a slot are those of the request in hand.
use mqtt_field_bridge_app.Base.{
  ℕ, ◌+◌, Bool, true, false, ◌&&◌, ◌||◌, Option, none, some, List, [], ◌∷◌, Bytes, leb, ◌==◌, cstr,
  if◌then◌else◌, codes, take, length,
}
use mqtt_field_bridge_app.Config.{Platform}
use mqtt_field_bridge_app.Bridge.{Mesh}
use mqtt_field_bridge_app.Runtime.{P2p}
use mqtt_field_bridge_app.Topics.{strncmp_eq}
use mqtt_field_bridge_app.Http.Handlers.{
  Server, Response, index_html, json, reply, is_path, page_of, page_text, zephyr_post_config,
  zephyr_post_peer, zephyr_post_control, zephyr_post_publish, zephyr_post_reset,
}
use mqtt_field_bridge_app.Http.Linux.{before_char, not_found}

abbrev pub req_buf_size : ℕ
req_buf_size = 768

abbrev pub zephyr_resp_buf_size : ℕ
zephyr_resp_buf_size = 2304

abbrev pub Slots : Type 0
Slots = List (Option ℕ)

-- The slots that the program starts with.
abbrev pub empty_slots : Slots
empty_slots = none ∷ (none ∷ [])

abbrev pub is_client : ℕ → Option ℕ → Bool
is_client client none = false
is_client client (some c) = c == client

abbrev pub is_free : Option ℕ → Bool
is_free none = true
is_free (some c) = false

unfoldable pub has_slot : ℕ → Slots → Bool
has_slot client [] = false
has_slot client (slot ∷ slots) = is_client client slot || has_slot client slots

-- The first free slot is given to the client.
unfoldable pub take_free : ℕ → Slots → Option Slots
take_free client [] = none
take_free client (none ∷ slots) = some (some client ∷ slots)
take_free client (some c ∷ slots) = elim (take_free client slots) [
  | none ↦ none
  | some slots' ↦ some (some c ∷ slots')
]

-- `none` where NULL is returned. A slot that the client has already is found first.
unfoldable pub zephyr_acquire_buffers : ℕ → Slots → Option Slots
zephyr_acquire_buffers client slots =
    if has_slot client slots then some slots else take_free client slots

unfoldable pub zephyr_release_buffers : ℕ → Slots → Slots
zephyr_release_buffers client [] = []
zephyr_release_buffers client (slot ∷ slots) =
    let rest = zephyr_release_buffers client slots in
    if is_client client slot then none ∷ slots else slot ∷ rest

pub data Transaction : Type 0 where
  aborted complete more_data data_final : Transaction

-- The methods that the resource takes, and any other.
pub data Method : Type 0 where
  http_get http_post http_other : Method

pub record Request : Type 0 where
  pub method : Method
  pub url : Bytes
  pub content : Option Bytes

-- The text in the request buffer; `none` where the data does not fit.
unfoldable pub zephyr_copy_request_body : Option Bytes → Option Bytes
zephyr_copy_request_body none = some []
zephyr_copy_request_body (some content) =
    if leb req_buf_size (length content) then none else some (cstr content)

abbrev pub is_get : Method → Bool
is_get http_get = true
is_get _ = false

-- What stands before the query.
abbrev pub strip_query : Bytes → Bytes
strip_query path = before_char b'?' path

module _ {S T : Type 0} (env : Platform S) (mesh : Mesh T) (p2p : P2p) where
  -- The texts of the four GET requests; `none` where `n` stays 0, or is -1.
  unfoldable pub zephyr_page : Method → Bytes → Server S T → Option Bytes × Server S T
  zephyr_page http_get path s = elim (page_of path) [
    | none ↦ (none, s)
    | some page ↦ page_text env mesh p2p page zephyr_resp_buf_size s
  ]
  zephyr_page _ path s = (none, s)

  unfoldable pub zephyr_route : Bytes → Bytes → Server S T → Response × Server S T
  zephyr_route path body s =
      if is_path path "/config"
      then zephyr_post_config env mesh p2p body s
      else if strncmp_eq path (codes "/peers/") 7
      then zephyr_post_peer env mesh p2p path body s
      else if is_path path "/broker/control"
      then zephyr_post_control env mesh p2p body s
      else if is_path path "/publish-test"
      then zephyr_post_publish env mesh p2p body s
      else if is_path path "/config/reset"
      then zephyr_post_reset env mesh p2p s
      else if is_path path "/reboot"
      then (reply 200 "{\"status\":\"rebooting\"}", record s { reboots = s.reboots + 1 })
      else (not_found, s)

  unfoldable pub zephyr_post : Method → Bytes → Option Bytes → Server S T → Response × Server S T
  zephyr_post http_post path content s = elim (zephyr_copy_request_body content) [
    | none ↦ (reply 400 "{\"status\":\"error\",\"error\":\"request too large\"}", s)
    | some body ↦ zephyr_route path body s
  ]
  zephyr_post _ path content s = (not_found, s)

  -- With a buffer.
  unfoldable pub zephyr_answer : Request → Bytes → Server S T → Response × Server S T
  zephyr_answer request path s =
      let (text, s') = zephyr_page request.method path s in
      elim text [
        | some t ↦ (record { code = 200; body = json t }, s')
        | none ↦ zephyr_post request.method path request.content s'
      ]

  -- The response where one is set, the slots, and the state.
  unfoldable pub zephyr_dynamic_handler :
      ℕ → Transaction → Request → Slots → Server S T → Option Response × Slots × Server S T
  zephyr_dynamic_handler client aborted request slots s =
      (none, zephyr_release_buffers client slots, s)
  zephyr_dynamic_handler client complete request slots s =
      (none, zephyr_release_buffers client slots, s)
  zephyr_dynamic_handler client more_data request slots s = (none, slots, s)
  zephyr_dynamic_handler client data_final request slots s =
      let path = strip_query (take 127 request.url) in
      if is_get request.method && (is_path path "/" || is_path path "/index.html")
      then (some (record { code = 200; body = index_html }), slots, s)
      else elim (zephyr_acquire_buffers client slots) [
        | none ↦ (some (reply 503 "{\"status\":\"error\",\"error\":\"low memory\"}"), slots, s)
        | some slots' ↦
            let (response, s') = zephyr_answer request path s in (some response, slots', s')
      ]
