-- ===== src/Http/Posts.antt =====
-- The POST handlers that handle_request of provisioning_http.c writes out for the Linux server, and
-- that they are those of the Zephyr server.
use mqtt_field_bridge_app.Base.{
  ℕ, ◌≡◌, refl, inl, inr, Bool-cases, Option-cases, not, ◌||◌, none, some, Bytes, ℤ, pos, negsuc,
  leb, ◌==◌, if◌then◌else◌, codes, zeros, drop, arith,
}
use mqtt_field_bridge_app.Config.{Platform, is_ok, reset_all}
use mqtt_field_bridge_app.Bridge.{Mesh}
use mqtt_field_bridge_app.Runtime.{
  PublishTest, P2p, set_broker_enabled, record_publish_test, topic_full_max, payload_max,
}
use mqtt_field_bridge_app.Console.{atoi}
use mqtt_field_bridge_app.Http.Json.{json_find_key, behind_colon, json_get_string, json_get_boolish}
use mqtt_field_bridge_app.Http.Apply.{or_old, apply_config_json, apply_peer_json}
use mqtt_field_bridge_app.Http.Handlers.{
  Server, Response, reply, qos_value, qos_of, zephyr_post_config, zephyr_post_peer,
  zephyr_post_control, zephyr_post_publish, zephyr_post_reset,
}

unfoldable pub linux_qos_value : ℤ → ℕ
linux_qos_value (pos n) = if leb n 2 then n else 3
linux_qos_value (negsuc n) = 3

-- The field stays 0 where there is no colon.
unfoldable pub linux_qos_of : Bytes → ℕ
linux_qos_of body = elim (behind_colon (json_find_key body (codes "qos"))) [
  | none ↦ 0
  | some p ↦ linux_qos_value (atoi p)
]

abbrev pub invalid_control : Response
invalid_control = reply 400 "{\"status\":\"error\",\"error\":\"invalid broker control\"}"

abbrev pub invalid_publish : Response
invalid_publish = reply 400 "{\"status\":\"error\",\"error\":\"invalid publish test\"}"

module _ {S T : Type 0} (env : Platform S) (mesh : Mesh T) (p2p : P2p) where
  unfoldable pub linux_post_config : Bytes → Server S T → Response × Server S T
  linux_post_config body s =
      let (rc, reboot_required, c) = apply_config_json env body s.config in
      let s' = record s { config = c } in
      if not (is_ok rc)
      then (reply 400 "{\"status\":\"error\",\"error\":\"invalid config JSON\"}", s')
      else if reboot_required == 0
      then (reply 200 "{\"status\":\"ok\",\"reboot_required\":false}", s')
      else (reply 200 "{\"status\":\"ok\",\"reboot_required\":true}", s')

  unfoldable pub linux_post_peer : Bytes → Bytes → Server S T → Response × Server S T
  linux_post_peer path body s =
      let index = atoi (drop 7 path) in
      let (rc, c, table) = apply_peer_json env mesh index body s.config s.table in
      let s' = record s { config = c; table = table } in
      if not (is_ok rc)
      then (reply 400 "{\"status\":\"error\",\"error\":\"invalid peer JSON\"}", s')
      else (reply 200 "{\"status\":\"ok\"}", s')

  unfoldable pub linux_post_control : Bytes → Server S T → Response × Server S T
  linux_post_control body s = elim (json_get_boolish body (codes "enabled")) [
    | none ↦ (invalid_control, s)
    | some enabled ↦
        let (rc, status) = set_broker_enabled enabled s.runtime.status in
        let s' = record s { runtime = record s.runtime { status = status } } in
        if not (is_ok rc)
        then (invalid_control, s')
        else (reply 200 "{\"status\":\"requested\"}", s')
  ]

  unfoldable pub linux_post_publish : Bytes → Server S T → Response × Server S T
  linux_post_publish body s =
      let (topic_rc, topic) =
        json_get_string body (codes "topic") (zeros topic_full_max) topic_full_max in
      let (payload_rc, payload) =
        json_get_string body (codes "payload") (zeros payload_max) payload_max in
      let retain = or_old (json_get_boolish body (codes "retain")) 0 in
      let test : PublishTest = record {
        topic = topic;
        payload = payload;
        qos = linux_qos_of body;
        retain = retain;
      } in
      let (rc, runtime) = record_publish_test (some test) s.runtime in
      let s' = record s { runtime = runtime } in
      if not (is_ok topic_rc) || not (is_ok payload_rc)
      then (invalid_publish, s)
      else if not (is_ok rc)
      then (invalid_publish, s')
      else (reply 200 "{\"status\":\"recorded\"}", s')

  unfoldable pub linux_post_reset : Server S T → Response × Server S T
  linux_post_reset s =
      let (rc, c) = reset_all env s.config in
      let s' = record s { config = c } in
      if not (is_ok rc)
      then (reply 400 "{\"status\":\"error\",\"error\":\"reset failed\"}", s')
      else (reply 200 "{\"status\":\"reset\"}", s')

  pub linux_post_config-zephyr_post_config :
      (body : Bytes) (s : Server S T)
      → linux_post_config body s ≡ zephyr_post_config env mesh p2p body s
  unfolding linux_post_config zephyr_post_config
  linux_post_config-zephyr_post_config body s =
      let r = apply_config_json env body s.config in
      elim (Bool-cases (is_ok r.0)) [
        | inl e ↦ elim (Bool-cases (r.1 == 0)) [
          | inl e' ↦ rw (e, e') refl
          | inr e' ↦ rw (e, e') refl
        ]
        | inr e ↦ rw e refl
      ]

  pub linux_post_peer-zephyr_post_peer :
      (path body : Bytes) (s : Server S T)
      → linux_post_peer path body s ≡ zephyr_post_peer env mesh p2p path body s
  unfolding linux_post_peer zephyr_post_peer
  linux_post_peer-zephyr_post_peer path body s =
      elim (Bool-cases
        (is_ok (apply_peer_json env mesh (atoi (drop 7 path)) body s.config s.table).0)) [
          | inl e ↦ rw e refl
          | inr e ↦ rw e refl
        ]

  pub linux_post_control-zephyr_post_control :
      (body : Bytes) (s : Server S T)
      → linux_post_control body s ≡ zephyr_post_control env mesh p2p body s
  unfolding linux_post_control zephyr_post_control
  linux_post_control-zephyr_post_control body s =
      elim (Option-cases (json_get_boolish body (codes "enabled"))) [
        | inl e ↦ rw (e, linux_post_control, zephyr_post_control) refl
        | inr (v, e) ↦ elim (Bool-cases (is_ok (set_broker_enabled v s.runtime.status).0)) [
          | inl e' ↦ rw (e, e', linux_post_control, zephyr_post_control) refl
          | inr e' ↦ rw (e, e', linux_post_control, zephyr_post_control) refl
        ]
      ]

  linux_qos_value-qos_value : (i : ℤ) → linux_qos_value i ≡ qos_value i
  unfolding linux_qos_value qos_value
  linux_qos_value-qos_value (pos n) = refl
  linux_qos_value-qos_value (negsuc n) = refl

  linux_qos_of-qos_of : (body : Bytes) → linux_qos_of body ≡ qos_of body
  unfolding linux_qos_of qos_of
  linux_qos_of-qos_of body = elim (Option-cases (behind_colon (json_find_key body (codes "qos")))) [
    | inl e ↦ rw (e, linux_qos_of, qos_of) refl
    | inr (p, e) ↦ rw (e, linux_qos_of, qos_of) (linux_qos_value-qos_value (atoi p))
  ]

  pub linux_post_publish-zephyr_post_publish :
      (body : Bytes) (s : Server S T)
      → linux_post_publish body s ≡ zephyr_post_publish env mesh p2p body s
  unfolding linux_post_publish zephyr_post_publish
  linux_post_publish-zephyr_post_publish body s =
      rw (linux_qos_of-qos_of body, linux_post_publish) (ground arith)

  pub linux_post_reset-zephyr_post_reset :
      (s : Server S T) → linux_post_reset s ≡ zephyr_post_reset env mesh p2p s
  unfolding linux_post_reset zephyr_post_reset
  linux_post_reset-zephyr_post_reset s = elim (Bool-cases (is_ok (reset_all env s.config).0)) [
    | inl e ↦ rw e refl
    | inr e ↦ rw e refl
  ]
