-- ===== src/Topics.antt =====
-- product_topics.c: the topics of the product streams, below the configured prefix.
use mqtt_field_bridge_app.Base.{
  ℕ, zero, suc, ◌+◌, Bool, true, false, not, ◌||◌, Option, none, some, ◌∷◌, ◌++◌, Bytes, ℤ, pos,
  negsuc, Rc, ok, fail, leb, ◌==◌, if◌then◌else◌, codes, length, get_or, cstr, snprintf,
  is_nonempty, List, [], ◌&&◌,
}
use mqtt_field_bridge_app.Config.{Settings}
pub mod Matching

-- strchr(s, c) != NULL, for c other than 0
unfoldable pub strchr : Bytes → ℕ → Bool
strchr [] c = false
strchr (x ∷ s) c = x == c || strchr s c

-- strncmp(s, t, n) == 0, on texts
unfoldable pub strncmp_eq : Bytes → Bytes → ℕ → Bool
strncmp_eq s t zero = true
strncmp_eq [] [] (suc n) = true
strncmp_eq [] (y ∷ t) (suc n) = false
strncmp_eq (x ∷ s) [] (suc n) = false
strncmp_eq (x ∷ s) (y ∷ t) (suc n) = x == y && strncmp_eq s t n

-- What `"%s/%s"` prints.
abbrev pub topic_text : Bytes → Bytes → Bytes
topic_text prefix stream = prefix ++ (b'/' ∷ stream)

-- The result and the array `out`, whose size the caller gives as `cap`.
unfoldable pub topic_build : Option Settings → Option Bytes → Bytes → ℤ → Rc × Bytes
topic_build none stream out cap = (fail, out)
topic_build (some settings) none out cap = (fail, out)
topic_build (some settings) (some stream) out (negsuc n) = (fail, out)
topic_build (some settings) (some stream) out (pos cap) =
    let prefix = settings.broker.topic_prefix in
    let text = topic_text (cstr prefix) stream in
    if leb cap 0 || not (is_nonempty prefix) || not (is_nonempty stream) || strchr stream b'/'
    then (fail, out)
    else if leb cap (length text)
    then (fail, snprintf out cap text)
    else (ok, snprintf out cap text)

unfoldable pub topic_status : Option Settings → Bytes → ℤ → Rc × Bytes
topic_status settings = topic_build settings (some (codes "status"))

unfoldable pub topic_io : Option Settings → Bytes → ℤ → Rc × Bytes
topic_io settings = topic_build settings (some (codes "io"))

unfoldable pub topic_event : Option Settings → Bytes → ℤ → Rc × Bytes
topic_event settings = topic_build settings (some (codes "event"))

unfoldable pub topic_test : Option Settings → Bytes → ℤ → Rc × Bytes
topic_test settings = topic_build settings (some (codes "test"))

-- The byte behind the end of a text is its terminator.
unfoldable pub topic_matches_prefix : Option Settings → Option Bytes → Bool
topic_matches_prefix none topic = false
topic_matches_prefix (some settings) none = false
topic_matches_prefix (some settings) (some topic) =
    let prefix = cstr settings.broker.topic_prefix in
    let prefix_len = length prefix in
    if not (is_nonempty settings.broker.topic_prefix)
    then false
    else if not (strncmp_eq topic prefix prefix_len)
    then false
    else get_or topic prefix_len 0 == b'/'
