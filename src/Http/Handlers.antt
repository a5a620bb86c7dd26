-- ===== src/Http/Handlers.antt =====
-- The texts of the GET requests, which both servers of provisioning_http.c show, and the handlers that
-- the Zephyr server has of the POST requests. `T` is the seed table of the mesh.
use mqtt_field_bridge_app.Base.{
  ℕ, Bool, ◌&&◌, Option, none, some, [], ◌∷◌, Bytes, String, ℤ, pos, negsuc, leb, ◌==◌,
  if◌then◌else◌, codes, equal, zeros, drop,
}
use mqtt_field_bridge_app.Config.{Platform, Config, is_ok, reset_all}
use mqtt_field_bridge_app.Bridge.{Mesh}
use mqtt_field_bridge_app.Runtime.{
  Runtime, PublishTest, P2p, set_broker_enabled, record_publish_test, topic_full_max, payload_max,
}
use mqtt_field_bridge_app.Console.{atoi}
use mqtt_field_bridge_app.Http.Json.{json_find_key, behind_colon, json_get_string, json_get_boolish}
use mqtt_field_bridge_app.Http.Builders.{
  build_status_json, build_config_json, build_peers_json, build_peer_status_json,
}
use mqtt_field_bridge_app.Http.Apply.{or_old, apply_config_json, apply_peer_json}

pub record Server (S T : Type 0) : Type 0 where
  pub config : Config S
  pub runtime : Runtime
  pub table : T
  pub reboots : ℕ

pub data Body : Type 0 where
  index_html : Body
  json : Bytes → Body

pub record Response : Type 0 where
  pub code : ℕ
  pub body : Body

abbrev pub reply : ℕ → String → Response
reply code text = record { code = code; body = json (codes text) }

pub data Page : Type 0 where
  status_page config_page peers_page peer_status_page : Page

abbrev pub is_path : Bytes → String → Bool
is_path path word = equal path (codes word)

unfoldable pub page_of : Bytes → Option Page
page_of path =
    if is_path path "/status"
    then some status_page
    else if is_path path "/config"
    then some config_page
    else if is_path path "/peers"
    then some peers_page
    else if is_path path "/peer-status"
    then some peer_status_page
    else none

-- What a builder printed, where the number that it returned is above 0.
unfoldable pub above_zero : Option (ℕ × Bytes) → Option Bytes
above_zero none = none
above_zero (some (n, text)) = if n == 0 then none else some text

unfoldable pub nonempty_text : Option Bytes → Option Bytes
nonempty_text none = none
nonempty_text (some []) = none
nonempty_text (some (c ∷ text)) = some (c ∷ text)

unfoldable pub qos_value : ℤ → ℕ
qos_value (negsuc n) = 3
qos_value (pos n) = if leb n 2 then n else 3

-- The quality of service of a publish test; 0 where there is none.
unfoldable pub qos_of : Bytes → ℕ
qos_of body = elim (behind_colon (json_find_key body (codes "qos"))) [
  | none ↦ 0
  | some p ↦ qos_value (atoi p)
]

module _ {S T : Type 0} (env : Platform S) (mesh : Mesh T) (p2p : P2p) where
  -- The text in a buffer of `size` bytes, where the builder returns a number above 0.
  unfoldable pub page_text : Page → ℕ → Server S T → Option Bytes × Server S T
  page_text status_page size s =
      let (built, status) = build_status_json env p2p s.config s.runtime.status size in
      (above_zero built, record s { runtime = record s.runtime { status = status } })
  page_text config_page size s = (above_zero (build_config_json env p2p s.config size), s)
  page_text peers_page size s = (nonempty_text (build_peers_json env p2p s.config size), s)
  page_text peer_status_page size s =
      (nonempty_text (build_peer_status_json env p2p s.config s.runtime.status size), s)

  unfoldable pub zephyr_post_config : Bytes → Server S T → Response × Server S T
  zephyr_post_config body s =
      let (rc, reboot_required, c) = apply_config_json env body s.config in
      let s' = record s { config = c } in
      if is_ok rc
      then (
        if reboot_required == 0
            then reply 200 "{\"status\":\"ok\",\"reboot_required\":false}"
            else reply 200 "{\"status\":\"ok\",\"reboot_required\":true}",
        s',
      )
      else (reply 400 "{\"status\":\"error\",\"error\":\"invalid config JSON\"}", s')

  unfoldable pub zephyr_post_peer : Bytes → Bytes → Server S T → Response × Server S T
  zephyr_post_peer path body s =
      let (rc, c, table) = apply_peer_json env mesh (atoi (drop 7 path)) body s.config s.table in
      let s' = record s { config = c; table = table } in
      if is_ok rc
      then (reply 200 "{\"status\":\"ok\"}", s')
      else (reply 400 "{\"status\":\"error\",\"error\":\"invalid peer JSON\"}", s')

  abbrev pub bad_control : Response
  bad_control = reply 400 "{\"status\":\"error\",\"error\":\"invalid broker control\"}"

  unfoldable pub zephyr_post_control : Bytes → Server S T → Response × Server S T
  zephyr_post_control body s = elim (json_get_boolish body (codes "enabled")) [
    | none ↦ (bad_control, s)
    | some enabled ↦
        let (rc, status) = set_broker_enabled enabled s.runtime.status in
        let s' = record s { runtime = record s.runtime { status = status } } in
        if is_ok rc then (reply 200 "{\"status\":\"requested\"}", s') else (bad_control, s')
  ]

  abbrev pub bad_publish : Response
  bad_publish = reply 400 "{\"status\":\"error\",\"error\":\"invalid publish test\"}"

  unfoldable pub zephyr_post_publish : Bytes → Server S T → Response × Server S T
  zephyr_post_publish body s =
      let (rc₁, topic) =
        json_get_string body (codes "topic") (zeros topic_full_max) topic_full_max in
      let (rc₂, payload) = json_get_string body (codes "payload") (zeros payload_max) payload_max in
      let test : PublishTest = record {
        topic = topic;
        payload = payload;
        qos = qos_of body;
        retain = or_old (json_get_boolish body (codes "retain")) 0;
      } in
      let (rc, runtime) = record_publish_test (some test) s.runtime in
      if is_ok rc₁ && is_ok rc₂
      then if is_ok rc
        then (reply 200 "{\"status\":\"recorded\"}", record s { runtime = runtime })
        else (bad_publish, record s { runtime = runtime })
      else (bad_publish, s)

  unfoldable pub zephyr_post_reset : Server S T → Response × Server S T
  zephyr_post_reset s =
      let (rc, c) = reset_all env s.config in
      let s' = record s { config = c } in
      if is_ok rc
      then (reply 200 "{\"status\":\"reset\"}", s')
      else (reply 400 "{\"status\":\"error\",\"error\":\"reset failed\"}", s')
