-- ===== src/Http/Sizes.antt =====
-- The length of the page /config.
use mqtt_field_bridge_app.Base.{
  ℕ, ◌+◌, ◌-◌, ◌<◌, ◌≤◌, ◌≡◌, refl, false, some, List, [], ◌∷◌, Bytes, arith, codes, cstr, length,
  All, take-eq_self, ◌==◌,
}
use mqtt_field_bridge_app.Config.{Settings, Platform, get_settings, network_mode_name, IsSized}
use mqtt_field_bridge_app.Console.{decimal}
use mqtt_field_bridge_app.Runtime.{P2p, firmware_version, config_version}
use mqtt_field_bridge_app.Bridge.{Mesh}
use mqtt_field_bridge_app.Http.Handlers.{Server, config_page, page_text, above_zero}
use mqtt_field_bridge_app.Http.Pieces.{Part, most_of, length-pieces-le, length-decimal}
use mqtt_field_bridge_app.Http.Builders.{printed, config_text, broker_text, build_config_json}
use mqtt_field_bridge_app.Http.Zephyr.{zephyr_resp_buf_size}

length-network_mode_name : (mode : ℕ) → length (network_mode_name mode) ≤ 8
unfolding network_mode_name
length-network_mode_name mode = ground arith

abbrev config_parts : Settings → List Part
config_parts s =
    ("{\"device_name\":\"", cstr s.system.device_name, 31)
    ∷ ("\",\"firmware_version\":\"", firmware_version, 18)
    ∷ ("\",\"config_version\":", decimal config_version, 5)
    ∷ (",\"mode\":\"", network_mode_name s.network.mode, 8)
    ∷ ("\",\"device_ip\":\"", cstr s.network.device_ip, 63)
    ∷ ("\",\"gateway\":\"", cstr s.network.gateway, 63)
    ∷ ("\",\"netmask\":\"", cstr s.network.netmask, 63)
    ∷ ("\",\"dns\":\"", cstr s.network.dns, 63)
    ∷ ("\",\"dhcp_enabled\":", decimal s.network.dhcp_enabled, 5)
    ∷ (",\"broker_ip\":\"", cstr s.broker.broker_ip, 63)
    ∷ ("\",\"site_id\":\"", cstr s.broker.site_id, 31)
    ∷ ("\",\"topic_prefix\":\"", cstr s.broker.topic_prefix, 63)
    ∷ ("\",\"mqtt_port\":", decimal s.broker.mqtt_port, 5)
    ∷ (",\"fallback_port\":", decimal s.broker.fallback_port, 5)
    ∷ (",\"p2p_port\":", decimal s.broker.p2p_port, 5)
    ∷ (",\"broker_enabled\":", decimal s.broker.broker_enabled, 5)
    ∷ (",\"bridge_enabled\":", decimal s.broker.bridge_enabled, 5)
    ∷ (",\"mesh_enabled\":", decimal s.broker.mesh_enabled, 5)
    ∷ []

length-config_text : (s : Settings) → IsSized s → length (config_text s) < 800
unfolding config_text broker_text
length-config_text s h =
    let shown : All (λ p. length p.1 ≤ p.2) (config_parts s) = (
      omega (arith, h.device_name),
      (
        omega arith,
        (
          length-decimal config_version (omega arith),
          (
            length-network_mode_name s.network.mode,
            (
              omega (arith, h.device_ip),
              (
                omega (arith, h.gateway),
                (
                  omega (arith, h.netmask),
                  (
                    omega (arith, h.dns),
                    (
                      length-decimal s.network.dhcp_enabled (omega (arith, h.dhcp_enabled)),
                      (
                        omega (arith, h.broker_ip),
                        (
                          omega (arith, h.site_id),
                          (
                            omega (arith, h.topic_prefix),
                            (
                              length-decimal s.broker.mqtt_port h.mqtt_port,
                              (
                                length-decimal s.broker.fallback_port h.fallback_port,
                                (
                                  length-decimal s.broker.p2p_port h.p2p_port,
                                  (
                                    length-decimal s.broker.broker_enabled
                                        (omega (arith, h.broker_enabled)),
                                    (
                                      length-decimal s.broker.bridge_enabled
                                          (omega (arith, h.bridge_enabled)),
                                      (
                                        length-decimal s.broker.mesh_enabled
                                            (omega (arith, h.mesh_enabled)),
                                        tt,
                                      ),
                                    ),
                                  ),
                                ),
                              ),
                            ),
                          ),
                        ),
                      ),
                    ),
                  ),
                ),
              ),
            ),
          ),
        ),
      ),
    ) in
    let all : length (config_text s) ≤ most_of (config_parts s) + 1 =
      length-pieces-le (config_parts s) (codes "}") shown in
    omega (arith, all)

-- A text that fits is left whole, and the number that is returned is above 0.
pub above_zero-printed :
    (cap : ℕ) (text : Bytes)
    → 0 < length text
    → length text < cap
    → above_zero (some (printed cap text)) ≡ some text
unfolding above_zero
above_zero-printed cap text some_text fits =
    let e : (length text == 0) ≡ false = ground arith in
    rw (e, above_zero, take-eq_self (cap - 1) text (omega arith)) refl

config_text-nonempty : (s : Settings) → 0 < length (config_text s)
unfolding config_text
config_text-nonempty s = omega arith

module _ {S T : Type 0} (env : Platform S) (mesh : Mesh T) (p2p : P2p) where
  -- If the settings have the sizes of the C records, GET /config shows the whole text in any buffer
  -- that is at least as large as the smaller one of the two servers.
  pub page_text-config_page :
      (size : ℕ) (s : Server S T)
      → zephyr_resp_buf_size ≤ size
      → IsSized s.config.settings
      → (page_text env mesh p2p config_page size s).0 ≡ some (config_text s.config.settings)
  unfolding page_text build_config_json get_settings
  page_text-config_page size s room h =
      let short = length-config_text s.config.settings h in
      above_zero-printed size (config_text s.config.settings)
        (config_text-nonempty s.config.settings) (omega arith)
