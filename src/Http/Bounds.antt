-- ===== src/Http/Bounds.antt =====
-- The length of the page /status.
use mqtt_field_bridge_app.Base.{
  ℕ, ◌+◌, ◌^◌, ◌<◌, ◌≤◌, ◌≡◌, refl, some, List, [], ◌∷◌, Bytes, arith, codes, cstr, length, All,
  length-append, zeros, pos, ok, IsText,
}
use mqtt_field_bridge_app.Config.{
  IsSized, IsValid, validate_settings, Settings, Platform, get_settings,
}
use mqtt_field_bridge_app.Console.{decimal}
use mqtt_field_bridge_app.Runtime.{
  RuntimeStatus, P2p, IsBounded, firmware_version, config_version, get_status, get_status-IsBounded,
  topic_full_max,
}
use mqtt_field_bridge_app.Bridge.{Mesh}
use mqtt_field_bridge_app.Topics.{topic_build, topic_text, strchr}
use mqtt_field_bridge_app.Topics.Matching.{topic_build_iff, cstr-topic_build}
use mqtt_field_bridge_app.Http.Handlers.{Server, status_page, page_text}
use mqtt_field_bridge_app.Http.Pieces.{
  Part, most_of, length-pieces-le, length-decimal, length-decimal_from,
}
use mqtt_field_bridge_app.Http.Builders.{build_status_json, status_text}
use mqtt_field_bridge_app.Http.Zephyr.{zephyr_resp_buf_size}
use mqtt_field_bridge_app.Http.Sizes.{above_zero-printed}

abbrev status_parts : RuntimeStatus → Bytes → List Part
status_parts s topic =
    ("{\"status\":\"ok\",\"firmware_version\":\"", firmware_version, 18)
    ∷ ("\",\"config_version\":", decimal config_version, 5)
    ∷ (",\"network_state\":\"", cstr s.network_state, 15)
    ∷ ("\",\"ip_addr\":\"", cstr s.ip_addr, 63)
    ∷ ("\",\"broker_state\":\"", cstr s.broker_state, 15)
    ∷ ("\",\"p2p_role\":\"", cstr s.p2p_role, 15)
    ∷ ("\",\"connected_peers\":", decimal s.connected_peers, 10)
    ∷ (",\"remote_subscriptions\":", decimal s.remote_subscriptions, 10)
    ∷ (",\"test_topic\":\"", topic, 127)
    ∷ ("\",\"last_error\":\"", cstr s.last_error, 95)
    ∷ []

length-status_text :
    (s : RuntimeStatus) (topic : Bytes)
    → IsBounded s
    → s.connected_peers < 2 ^ 31
    → s.remote_subscriptions < 2 ^ 31
    → length topic ≤ 127
    → length (status_text s topic) < 800
unfolding status_text decimal
length-status_text s topic h peers subs short =
    let peers : s.connected_peers < 10 ^ 10 = omega arith in
    let subs : s.remote_subscriptions < 10 ^ 10 = omega arith in
    let shown : All (λ p. length p.1 ≤ p.2) (status_parts s topic) = (
      omega arith,
      (
        length-decimal config_version (omega arith),
        (
          omega (arith, h.network_state),
          (
            omega (arith, h.ip_addr),
            (
              omega (arith, h.broker_state),
              (
                omega (arith, h.p2p_role),
                (
                  length-decimal_from _ s.connected_peers 9 peers,
                  (
                    length-decimal_from _ s.remote_subscriptions 9 subs,
                    (short, (omega (arith, h.last_error), tt)),
                  ),
                ),
              ),
            ),
          ),
        ),
      ),
    ) in
    let all : length (status_text s topic) ≤ most_of (status_parts s topic) + 2 =
      length-pieces-le (status_parts s topic) (codes "\"}") shown in
    omega (arith, all)

status_text-nonempty : (s : RuntimeStatus) (topic : Bytes) → 0 < length (status_text s topic)
unfolding status_text
status_text-nonempty s topic = omega arith

test_IsText : IsText (codes "test")
test_IsText =
    ((λ e. omega arith), ((λ e. omega arith), ((λ e. omega arith), ((λ e. omega arith), tt))))

-- The test topic of settings that validate can be built.
topic_build_test :
    (x : Settings)
    → IsValid x
    → length (topic_text (cstr x.broker.topic_prefix) (codes "test")) ≤ 127
    → (topic_build (some x) (some (codes "test")) (zeros topic_full_max) (pos topic_full_max)).0
      ≡ ok
unfolding validate_settings strchr
topic_build_test x valid len =
    (topic_build_iff x (codes "test") (zeros topic_full_max) topic_full_max).1
      (ground arith, refl, refl, omega arith)

module _ {S T : Type 0} (env : Platform S) (mesh : Mesh T) (p2p : P2p) where
  -- If the settings validate and have the sizes of the C records, the texts of the status are bounded
  -- and its numbers are those of an int, GET /status shows the whole text in a buffer at least as
  -- large as the smaller one of the two servers, with the test topic of the prefix.
  pub page_text-status_page :
      (size : ℕ) (s : Server S T)
      → zephyr_resp_buf_size ≤ size
      → IsValid s.config.settings
      → IsSized s.config.settings
      → IsBounded s.runtime.status
      → (get_status p2p s.runtime.status).connected_peers < 2 ^ 31
      → (get_status p2p s.runtime.status).remote_subscriptions < 2 ^ 31
      → (page_text env mesh p2p status_page size s).0
        ≡ some (
            status_text
              (get_status p2p s.runtime.status)
              (topic_text (cstr s.config.settings.broker.topic_prefix) (codes "test")))
  unfolding page_text build_status_json get_settings
  page_text-status_page size s room valid sized bounded peers subs =
      let x = s.config.settings in
      let prefix = cstr x.broker.topic_prefix in
      let status = get_status p2p s.runtime.status in
      let topic = topic_text prefix (codes "test") in
      let len : length topic ≤ 127 =
        omega (arith, length-append prefix (codes "/test"), sized.topic_prefix) in
      let built = topic_build_test x valid len in
      let (rc, out) =
        topic_build (some x) (some (codes "test")) (zeros topic_full_max) (pos topic_full_max) in
      let shown =
        cstr-topic_build x (codes "test") (zeros topic_full_max) topic_full_max test_IsText built in
      let short =
        length-status_text status topic (get_status-IsBounded p2p s.runtime.status bounded) peers
          subs len in
      rw (built, shown)
        (above_zero-printed size (status_text status topic) (status_text-nonempty status topic)
          (omega arith))
