-- ===== src/Topics/Matching.antt =====
-- Which topics match the prefix, and that the topics which are built do.
use mqtt_field_bridge_app.Base.{
  ℕ, ◌<◌, ◌-◌, ◌≡◌, ◌↔◌, refl, Bool, true, false, ◌&&◌, some, [], ◌∷◌, Bytes, pos, ok, arith, ◌==◌,
  length, get_or, cstr, is_nonempty, IsText, IsText-append, cstr-IsText, cstr-snprintf,
  take-eq_self,
}
use mqtt_field_bridge_app.Config.{Settings}
use mqtt_field_bridge_app.Topics.{strchr, strncmp_eq, topic_text, topic_build, topic_matches_prefix}

-- The prefix, a slash, and anything behind it.
abbrev pub Below : Bytes → Bytes → Type 0
Below prefix topic = (rest : Bytes) × (topic ≡ topic_text prefix rest)

at_prefix : Bytes → Bytes → Bool
at_prefix prefix topic =
    strncmp_eq topic prefix (length prefix) && get_or topic (length prefix) 0 == b'/'

at_prefix-Below : (prefix topic : Bytes) → at_prefix prefix topic ≡ true → Below prefix topic
unfolding at_prefix strncmp_eq
at_prefix-Below [] [] h = cc
at_prefix-Below [] (y ∷ topic) h = (topic, ground arith)
at_prefix-Below (x ∷ prefix) [] h = cc
at_prefix-Below (x ∷ prefix) (y ∷ topic) h =
    let (rest, e) = at_prefix-Below prefix topic (ground arith) in (rest, ground arith)

Below-at_prefix : (prefix rest : Bytes) → at_prefix prefix (topic_text prefix rest) ≡ true
unfolding at_prefix strncmp_eq
Below-at_prefix [] rest = refl
Below-at_prefix (x ∷ prefix) rest = ground (arith, Below-at_prefix prefix rest)

matches-at_prefix :
    (s : Settings) (topic : Bytes)
    → is_nonempty s.broker.topic_prefix ≡ true
    → topic_matches_prefix (some s) (some topic) ≡ at_prefix (cstr s.broker.topic_prefix) topic
unfolding topic_matches_prefix at_prefix
matches-at_prefix s topic h = ground arith

-- With a prefix that is not empty, a topic matches exactly if it is the prefix, a slash, and
-- anything behind it.
pub matches_iff :
    (s : Settings) (topic : Bytes)
    → is_nonempty s.broker.topic_prefix ≡ true
    → (topic_matches_prefix (some s) (some topic) ≡ true) ↔ Below (cstr s.broker.topic_prefix) topic
matches_iff s topic h =
    let prefix = cstr s.broker.topic_prefix in
    rw (matches-at_prefix s topic h)
      (at_prefix-Below prefix topic, λ b. rw b.1 (Below-at_prefix prefix b.0))

-- A topic is built exactly if the prefix and the stream are not empty, the stream has no slash, and
-- the text fits the array with its terminator.
pub topic_build_iff :
    (s : Settings) (stream out : Bytes) (cap : ℕ)
    → ((topic_build (some s) (some stream) out (pos cap)).0 ≡ ok) ↔ (
        (is_nonempty s.broker.topic_prefix ≡ true)
        × (is_nonempty stream ≡ true)
        × (strchr stream b'/' ≡ false)
        × (length (topic_text (cstr s.broker.topic_prefix) stream) < cap))
unfolding topic_build
topic_build_iff s stream out cap = (λ h. ground arith, λ h. ground arith)

-- What the array holds after a topic was built.
pub cstr-topic_build :
    (s : Settings) (stream out : Bytes) (cap : ℕ)
    → IsText stream
    → (topic_build (some s) (some stream) out (pos cap)).0 ≡ ok
    → cstr (topic_build (some s) (some stream) out (pos cap)).1
      ≡ topic_text (cstr s.broker.topic_prefix) stream
unfolding topic_build
cstr-topic_build s stream out cap h done =
    let prefix = cstr s.broker.topic_prefix in
    let text = topic_text prefix stream in
    let is_text =
      IsText-append prefix (b'/' ∷ stream) (cstr-IsText s.broker.topic_prefix)
        (λ e. omega arith, h) in
    let fits = (topic_build_iff s stream out cap).0 done in
    ground (
      arith,
      cstr-snprintf out cap text is_text,
      take-eq_self (cap - 1) text (omega (arith, fits.3)),
    )

-- The topic that was built is the prefix, a slash and the stream, and it matches the prefix.
pub matches-topic_build :
    (s : Settings) (stream out : Bytes) (cap : ℕ)
    → IsText stream
    → (topic_build (some s) (some stream) out (pos cap)).0 ≡ ok
    → (cstr (topic_build (some s) (some stream) out (pos cap)).1
        ≡ topic_text (cstr s.broker.topic_prefix) stream)
      × (topic_matches_prefix
            (some s)
            (some (cstr (topic_build (some s) (some stream) out (pos cap)).1))
          ≡ true)
matches-topic_build s stream out cap h done =
    let built = cstr-topic_build s stream out cap h done in
    let prefix = ((topic_build_iff s stream out cap).0 done).0 in
    (built, (matches_iff s _ prefix).1 (stream, built))
