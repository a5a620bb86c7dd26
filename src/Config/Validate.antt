-- ===== src/Config/Validate.antt =====
-- The validators of product_config.c. A pointer that the code tests for NULL is an `Option`.
use mqtt_field_bridge_app.Base.{
  ℕ, Bool, not, ◌&&◌, ◌||◌, Option, none, some, Bytes, Rc, ok, fail, ltb, leb, ◌==◌, if◌then◌else◌,
  is_nonempty,
}
use mqtt_field_bridge_app.Config.Data.{Peer, Settings, mode_auto, mode_eth}

abbrev pub valid_bool : ℕ → Bool
valid_bool v = leb v 1

abbrev pub valid_network_mode : ℕ → Bool
valid_network_mode mode = mode == mode_auto || mode == mode_eth

abbrev pub valid_port : ℕ → Bool
valid_port port = ltb 0 port

abbrev pub valid_nonempty : Bytes → Bool
valid_nonempty s = is_nonempty s

unfoldable pub validate_peer : Option Peer → Rc
validate_peer none = fail
validate_peer (some peer) =
    if not (valid_bool peer.enabled)
    then fail
    else if not (peer.enabled == 0)
        && (not (valid_nonempty peer.host)
            || not (valid_port peer.mqtt_port)
            || not (valid_port peer.p2p_port))
    then fail
    else ok

unfoldable pub validate_settings : Option Settings → Rc
validate_settings none = fail
validate_settings (some cfg) =
    if not (valid_nonempty cfg.system.device_name)
    then fail
    else if not (valid_nonempty cfg.network.device_ip)
        || not (valid_nonempty cfg.network.gateway)
        || not (valid_nonempty cfg.network.netmask)
        || not (valid_nonempty cfg.network.dns)
        || not (valid_bool cfg.network.dhcp_enabled)
        || not (valid_network_mode cfg.network.mode)
    then fail
    else if not (valid_nonempty cfg.broker.broker_ip)
        || not (valid_nonempty cfg.broker.site_id)
        || not (valid_nonempty cfg.broker.topic_prefix)
        || not (valid_port cfg.broker.mqtt_port)
        || not (valid_port cfg.broker.p2p_port)
        || not (valid_port cfg.broker.fallback_port)
        || not (valid_bool cfg.broker.broker_enabled)
        || not (valid_bool cfg.broker.bridge_enabled)
        || not (valid_bool cfg.broker.mesh_enabled)
    then fail
    else if cfg.broker.fallback_port == cfg.broker.mqtt_port
        || cfg.broker.fallback_port == cfg.broker.p2p_port
        || cfg.broker.fallback_port == 8080
    then fail
    else ok
