-- ===== src/Http/Builders.antt =====
-- The JSON that provisioning_http.c builds. What snprintf is given is the text; what it leaves of it
-- depends on the size of the buffer.
use mqtt_field_bridge_app.Base.{
  ℕ, zero, suc, ◌+◌, ◌-◌, Option, none, some, List, [], ◌∷◌, ◌++◌, Bytes, String, pos, leb, ◌==◌,
  if◌then◌else◌, codes, cstr, zeros, length, take,
}
use mqtt_field_bridge_app.Config.{
  Peer, Settings, Platform, Config, peer_max, is_ok, get_peer, get_settings, network_mode_name,
}
use mqtt_field_bridge_app.Runtime.{
  RuntimeStatus, PeerStatus, P2p, get_status, get_peer_statuses, firmware_version, config_version,
  topic_full_max,
}
use mqtt_field_bridge_app.Topics.{topic_build}
use mqtt_field_bridge_app.Console.{decimal}

-- A piece of a format, an array that it shows, and what follows.
abbrev pub piece : String → Bytes → Bytes → Bytes
piece before value after = codes before ++ (value ++ after)

-- What a call of snprintf into `cap` bytes leaves, and the number that it returns.
abbrev pub printed : ℕ → Bytes → ℕ × Bytes
printed cap text = (length text, take (cap - 1) text)

unfoldable pub status_text : RuntimeStatus → Bytes → Bytes
status_text s topic = piece "{\"status\":\"ok\",\"firmware_version\":\"" firmware_version (
    piece "\",\"config_version\":" (decimal config_version) (
      piece ",\"network_state\":\"" (cstr s.network_state) (
        piece "\",\"ip_addr\":\"" (cstr s.ip_addr) (
          piece "\",\"broker_state\":\"" (cstr s.broker_state) (
            piece "\",\"p2p_role\":\"" (cstr s.p2p_role) (
              piece "\",\"connected_peers\":" (decimal s.connected_peers) (
                piece ",\"remote_subscriptions\":" (decimal s.remote_subscriptions) (
                  piece ",\"test_topic\":\"" topic
                    (piece "\",\"last_error\":\"" (cstr s.last_error) (codes "\"}"))))))))))

-- config_text behind the network's part.
unfoldable pub broker_text : Settings → Bytes
broker_text s = piece ",\"broker_ip\":\"" (cstr s.broker.broker_ip) (
    piece "\",\"site_id\":\"" (cstr s.broker.site_id) (
      piece "\",\"topic_prefix\":\"" (cstr s.broker.topic_prefix) (
        piece "\",\"mqtt_port\":" (decimal s.broker.mqtt_port) (
          piece ",\"fallback_port\":" (decimal s.broker.fallback_port) (
            piece ",\"p2p_port\":" (decimal s.broker.p2p_port) (
              piece ",\"broker_enabled\":" (decimal s.broker.broker_enabled) (
                piece ",\"bridge_enabled\":" (decimal s.broker.bridge_enabled)
                  (piece ",\"mesh_enabled\":" (decimal s.broker.mesh_enabled) (codes "}")))))))))

unfoldable pub config_text : Settings → Bytes
config_text s = piece "{\"device_name\":\"" (cstr s.system.device_name) (
    piece "\",\"firmware_version\":\"" firmware_version (
      piece "\",\"config_version\":" (decimal config_version) (
        piece ",\"mode\":\"" (network_mode_name s.network.mode) (
          piece "\",\"device_ip\":\"" (cstr s.network.device_ip) (
            piece "\",\"gateway\":\"" (cstr s.network.gateway) (
              piece "\",\"netmask\":\"" (cstr s.network.netmask) (
                piece "\",\"dns\":\"" (cstr s.network.dns) (
                  piece "\",\"dhcp_enabled\":" (decimal s.network.dhcp_enabled)
                    (broker_text s)))))))))

-- The comma in front of an entry that is not the first.
unfoldable pub comma : ℕ → Bytes
comma i = if i == 0 then [] else codes ","

unfoldable pub peer_text : ℕ → Peer → Bytes
peer_text i p =
    comma i
    ++ piece "{\"index\":" (decimal i) (
        piece ",\"name\":\"" (cstr p.name) (
          piece "\",\"host\":\"" (cstr p.host) (
            piece "\",\"mqtt_port\":" (decimal p.mqtt_port) (
              piece ",\"p2p_port\":" (decimal p.p2p_port)
                (piece ",\"enabled\":" (decimal p.enabled) (codes "}"))))))

unfoldable pub peer_status_text : ℕ → PeerStatus → Bytes
peer_status_text i p =
    comma i
    ++ piece "{\"index\":" (decimal p.index) (
        piece ",\"name\":\"" (cstr p.name) (
          piece "\",\"host\":\"" (cstr p.host) (
            piece "\",\"p2p_port\":" (decimal p.p2p_port) (
              piece ",\"enabled\":" (decimal p.enabled) (
                piece ",\"state\":\"" (cstr p.state)
                  (piece "\",\"last_error\":\"" (cstr p.last_error) (codes "\"}")))))))

-- One more text behind what a buffer of `cap` bytes holds, if it and a terminator fit.
unfoldable pub append_text : ℕ → Bytes → Bytes → Option Bytes
append_text cap out text = if leb (cap - length out) (length text) then none else some (out ++ text)

-- The end of the two builders of a list.
unfoldable pub close_list : ℕ → Option Bytes → Option Bytes
close_list cap none = none
close_list cap (some out) = append_text cap out (codes "]")

unfoldable pub status_entries : ℕ → List PeerStatus → ℕ → Option Bytes → Option Bytes
status_entries cap [] i out = out
status_entries cap (p ∷ ps) i none = none
status_entries cap (p ∷ ps) i (some out) =
    status_entries cap ps (i + 1) (append_text cap out (peer_status_text i p))

module _ {S : Type 0} (env : Platform S) (p2p : P2p) where
  -- `none` is -1; otherwise the number that is returned, and the text in the buffer of `cap` bytes.
  unfoldable pub build_config_json : Config S → ℕ → Option (ℕ × Bytes)
  build_config_json c cap = elim (get_settings env c) [
    | none ↦ none
    | some s ↦ some (printed cap (config_text s))
  ]

  -- With the runtime status, which the call of product_runtime_get_status refreshes.
  unfoldable pub build_status_json :
      Config S → RuntimeStatus → ℕ → Option (ℕ × Bytes) × RuntimeStatus
  build_status_json c s cap = elim (get_settings env c) [
    | none ↦ (none, s)
    | some settings ↦
        let status = get_status p2p s in
        let (rc, topic) =
          topic_build (some settings) (some (codes "test")) (zeros topic_full_max)
            (pos topic_full_max) in
        (if is_ok rc then some (printed cap (status_text status (cstr topic))) else none, status)
  ]

  -- The loop over the slots: `n` rounds from slot `i`.
  unfoldable pub peer_entries : Config S → ℕ → ℕ → ℕ → Option Bytes → Option Bytes
  peer_entries c cap zero i out = out
  peer_entries c cap (suc n) i none = none
  peer_entries c cap (suc n) i (some out) = elim (get_peer env c (pos i)) [
    | none ↦ none
    | some p ↦ peer_entries c cap n (i + 1) (append_text cap out (peer_text i p))
  ]

  unfoldable pub build_peers_json : Config S → ℕ → Option Bytes
  build_peers_json c cap =
      close_list cap (peer_entries c cap peer_max 0 (append_text cap [] (codes "[")))

  unfoldable pub build_peer_status_json : Config S → RuntimeStatus → ℕ → Option Bytes
  build_peer_status_json c s cap = elim (get_peer_statuses env p2p s c (pos peer_max)) [
    | none ↦ none
    | some peers ↦ close_list cap (status_entries cap peers 0 (append_text cap [] (codes "[")))
  ]
