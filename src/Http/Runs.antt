-- ===== src/Http/Runs.antt =====
-- What the pages and the handlers of the POST requests do to the runtime status.
use mqtt_field_bridge_app.Base.{
  refl, inl, inr, Bool-cases, Option-cases, some, Bytes, ℕ, codes, ◌&&◌, ◌||◌, not, is_nonempty,
  ltb, zeros, drop,
}
use mqtt_field_bridge_app.Config.{Platform, is_ok, get_settings, reset_all}
use mqtt_field_bridge_app.Bridge.{Mesh}
use mqtt_field_bridge_app.Runtime.{
  Runtime, PublishTest, P2p, set_broker_enabled, record_publish_test, topic_full_max, payload_max,
  IsRun, IsRun-kept, IsRun-event, enable, asked, on_event,
}
use mqtt_field_bridge_app.Console.{atoi}
use mqtt_field_bridge_app.Http.Json.{json_get_string, json_get_boolish}
use mqtt_field_bridge_app.Http.Builders.{build_status_json}
use mqtt_field_bridge_app.Http.Apply.{or_old, apply_config_json, apply_peer_json}
use mqtt_field_bridge_app.Http.Handlers.{
  Server, Page, status_page, config_page, peers_page, peer_status_page, page_text,
  zephyr_post_config, zephyr_post_peer, zephyr_post_control, zephyr_post_publish, zephyr_post_reset,
  qos_of,
}

abbrev pub Runs : {S T : Type 0} → Server S T → Server S T → Type 0
Runs s s' = IsRun s.runtime.status s'.runtime.status

record_publish_test-Run :
    (test : PublishTest) (r : Runtime) → IsRun r.status (record_publish_test (some test) r).1.status
unfolding record_publish_test
record_publish_test-Run test r =
    elim (Bool-cases (
      not (is_nonempty test.topic)
      || not (is_nonempty test.payload)
      || ltb 2 test.qos
      || ltb 1 test.retain)) [ inl e ↦ rw e (IsRun-kept refl) | inr e ↦ rw e (IsRun-kept refl) ]

module _ {S T : Type 0} (env : Platform S) (mesh : Mesh T) (p2p : P2p) where
  pub page_text-Runs :
      (page : Page) (size : ℕ) (s : Server S T) → Runs s (page_text env mesh p2p page size s).1
  unfolding page_text build_status_json get_settings
  page_text-Runs status_page size s = IsRun-event (asked p2p) (unfold on_event in refl)
  page_text-Runs config_page size s = IsRun-kept refl
  page_text-Runs peers_page size s = IsRun-kept refl
  page_text-Runs peer_status_page size s = IsRun-kept refl

  pub zephyr_post_config-Runs :
      (body : Bytes) (s : Server S T) → Runs s (zephyr_post_config env mesh p2p body s).1
  unfolding zephyr_post_config
  zephyr_post_config-Runs body s =
      elim (Bool-cases (is_ok (apply_config_json env body s.config).0)) [
        | inl e ↦ rw e (IsRun-kept refl)
        | inr e ↦ rw e (IsRun-kept refl)
      ]

  pub zephyr_post_peer-Runs :
      (path body : Bytes) (s : Server S T) → Runs s (zephyr_post_peer env mesh p2p path body s).1
  unfolding zephyr_post_peer
  zephyr_post_peer-Runs path body s =
      elim (Bool-cases
        (is_ok (apply_peer_json env mesh (atoi (drop 7 path)) body s.config s.table).0)) [
          | inl e ↦ rw e (IsRun-kept refl)
          | inr e ↦ rw e (IsRun-kept refl)
        ]

  pub zephyr_post_control-Runs :
      (body : Bytes) (s : Server S T) → Runs s (zephyr_post_control env mesh p2p body s).1
  unfolding zephyr_post_control
  zephyr_post_control-Runs body s = elim (Option-cases (json_get_boolish body (codes "enabled"))) [
    | inl e ↦ rw (e, zephyr_post_control) (IsRun-kept refl)
    | inr (v, e) ↦ elim (Bool-cases (is_ok (set_broker_enabled v s.runtime.status).0)) [
      | inl e' ↦ rw (e, e', zephyr_post_control) (IsRun-event (enable v) (unfold on_event in refl))
      | inr e' ↦ rw (e, e', zephyr_post_control) (IsRun-event (enable v) (unfold on_event in refl))
    ]
  ]

  pub zephyr_post_publish-Runs :
      (body : Bytes) (s : Server S T) → Runs s (zephyr_post_publish env mesh p2p body s).1
  unfolding zephyr_post_publish
  zephyr_post_publish-Runs body s =
      let topic = json_get_string body (codes "topic") (zeros topic_full_max) topic_full_max in
      let payload = json_get_string body (codes "payload") (zeros payload_max) payload_max in
      let test : PublishTest = record {
        topic = topic.1;
        payload = payload.1;
        qos = qos_of body;
        retain = or_old (json_get_boolish body (codes "retain")) 0;
      } in
      elim (Bool-cases (is_ok topic.0 && is_ok payload.0)) [
        | inl e ↦ elim (Bool-cases (is_ok (record_publish_test (some test) s.runtime).0)) [
          | inl e' ↦ rw (e, e', zephyr_post_publish) (record_publish_test-Run test s.runtime)
          | inr e' ↦ rw (e, e', zephyr_post_publish) (record_publish_test-Run test s.runtime)
        ]
        | inr e ↦ rw (e, zephyr_post_publish) (IsRun-kept refl)
      ]

  pub zephyr_post_reset-Runs : (s : Server S T) → Runs s (zephyr_post_reset env mesh p2p s).1
  unfolding zephyr_post_reset
  zephyr_post_reset-Runs s = elim (Bool-cases (is_ok (reset_all env s.config).0)) [
    | inl e ↦ rw e (IsRun-kept refl)
    | inr e ↦ rw e (IsRun-kept refl)
  ]
