-- ===== src/Startup/Linked.antt =====
-- main of main.c where the Ethernet has a link: the settings that it runs with, and the peers.
use mqtt_field_bridge_app.Base.{ℕ, pos, ◌≡◌, refl, Bool, true, Bytes}
use mqtt_field_bridge_app.Config.{
  Settings, Platform, Config, init, get_peer, get_settings, IsWellFormed, init-IsWellFormed,
  IsValid,
}
use mqtt_field_bridge_app.Bridge.{Mesh}
use mqtt_field_bridge_app.StatusIo.{StatusIo}
use mqtt_field_bridge_app.Ethernet.{EthDriver}
use mqtt_field_bridge_app.Startup.PowerOn.{
  network_phase_started, started_with, get_peer-network_phase,
}
use mqtt_field_bridge_app.Startup.Service.{Node}
use mqtt_field_bridge_app.Startup.Boot.{ready, is_linked, eth_address, first_node, connect, main}

module _ {S T : Type 0} (env : Platform S) (mesh : Mesh T) (has_led : Bool) where
  connect_ready :
      (now : ℕ) (settings : Settings) (ip_addr : Bytes) (t : Node S T)
      → IsValid settings
      → IsWellFormed t.config
      → let r = connect env mesh has_led now settings ip_addr t in
        (r.0 ≡ ready (started_with settings ip_addr))
        × ((k : ℕ) → get_peer env r.1.config (pos k) ≡ get_peer env t.config (pos k))
  unfolding connect
  connect_ready now settings ip_addr t valid form =
      let starts = network_phase_started env settings ip_addr t.config t.status valid form in
      rw (starts.0, connect)
        (refl, λ k. get_peer-network_phase env settings ip_addr t.config t.status k valid)

  -- With a link, main comes to its loop with the settings of the configuration, with the address of
  -- the network, and keeps the peers.
  pub main_linked :
      (driver : EthDriver) (link : ℕ → Bool) (now : ℕ) (c : Config S) (table : T) (lamp : StatusIo)
      → is_linked driver link (init env c).settings ≡ true
      → let r = main env mesh has_led driver link now c table lamp in
        let settings = (init env c).settings in
        (r.0 ≡ ready (started_with settings (eth_address driver settings)))
        × ((k : ℕ) → get_peer env r.1.config (pos k) ≡ get_peer env (init env c) (pos k))
  unfolding main first_node get_settings
  main_linked driver link now c table lamp linked =
      let settings = (init env c).settings in
      let t = first_node env mesh has_led now c table lamp in
      let form = init-IsWellFormed env c in
      rw (linked, main) (connect_ready now settings (eth_address driver settings) t form.valid form)
