-- ===== src/Tests/Rounds.antt =====
-- Tests of the main loop, of the long press and of the Ethernet's settings.
use mqtt_field_bridge_app.Base.{
  ◌⊎◌, Bool, leb, false, codes, zeros, ◌++◌, ℕ, ◌≡◌, refl, true, none, some, List, [], ◌∷◌, pos, ok,
  fail, arith, if◌then◌else◌,
}
use mqtt_field_bridge_app.Config.{
  init, reset_all, get_settings, get_peer, settings_defaults, zero_peer, commit_settings,
  persist_save_settings, persist_all, persist_peers, persist_save,
}
use mqtt_field_bridge_app.Runtime.{runtime_init}
use mqtt_field_bridge_app.Bridge.Seeds.{Seed}
use mqtt_field_bridge_app.StatusIo.{StatusIo, booting}
use mqtt_field_bridge_app.Startup.{
  main, main_ends, is_linked, IsReady, rebooting, wait_for_w5500_link_stable, link_loop, Node,
  Broker, Timers, Round, Step, looped, others, on_steps, some_accepted, on_steps-threads,
  main_round, start_broker_service, on_step, status_config_reset_press,
  status_config_reset_press-init,
}
use mqtt_field_bridge_app.Ethernet.{
  EthDriver, product_ethernet_start, EthSizes, eth_settings, IsCopy, eth_settings-IsCopy,
}
use mqtt_field_bridge_app.Samples.{Memory, memory, memory-IsPersistent, blank, one_seed, site_b}

abbrev pub lamp : StatusIo
lamp = record {
  io_ready = 1;
  activity_led_on = 0;
  config_reset_reported = 0;
  status_state = booting;
  last_toggle_ms = 0;
  button_pressed_ms = 0;
  led = 1;
  reset_calls = 0;
}

abbrev node : Node Memory (List Seed)
node = record {
  config = record blank { settings = site_b };
  status = runtime_init.status;
  table = [];
  lamp = lamp;
  broker_thread_started = 0;
  threads = 0;
}

abbrev pub no_timers : Timers
no_timers = record { broker_started_ms = 0; peer_zero_since_ms = 0; peer_zero_last_log_ms = 0 }

abbrev pub at_time : Broker → ℕ → Round
at_time broker now = record {
  broker = broker;
  p2p = record { peer_snapshot = []; remote_subs = none; inet_pton = λ s. none };
  now = now;
  then_now = now;
  last_now = now;
}

abbrev refusing : Broker
refusing = record { set_bind_host = λ s. fail; set_listen_port = λ n. ok }

abbrev pub taking : Broker
taking = record { set_bind_host = λ s. ok; set_listen_port = λ n. ok }

-- The module refuses the host first; another thread changes the settings; then two rounds take them.
abbrev steps : List (Step Memory (List Seed))
steps =
    looped (at_time refusing 2000)
    ∷ others (init memory blank) runtime_init.status [] lamp
    ∷ looped (at_time taking 12000)
    ∷ looped (at_time taking 22000)
    ∷ []

steps_accepted : some_accepted memory one_seed true site_b steps (node, no_timers) ≡ true
unfolding some_accepted main_round start_broker_service on_step get_settings
steps_accepted = refl

on_steps-threads_example :
    let t' = (on_steps memory one_seed true site_b steps (node, no_timers)).0 in
    let yes = some_accepted memory one_seed true site_b steps (node, no_timers) in
    (t'.threads ≡ (if yes then 1 else 0)) × (t'.broker_thread_started ≡ (if yes then 1 else 0))
on_steps-threads_example =
    on_steps-threads memory one_seed true site_b steps (node, no_timers) refl refl

press_done : (status_config_reset_press memory true 9000 node).1 ≡ true
unfolding status_config_reset_press reset_all persist_all persist_peers persist_save commit_settings
    persist_save_settings
press_done = refl

press_starts :
    (memory.store_init (status_config_reset_press memory true 9000 node).0.config.store).0 ≡ ok
press_starts = refl

status_config_reset_press-init_example :
    let c = init memory (status_config_reset_press memory true 9000 node).0.config in
    (get_settings memory c ≡ some (settings_defaults memory.device_id))
    × (get_peer memory c (pos 1) ≡ some zero_peer)
status_config_reset_press-init_example =
    status_config_reset_press-init memory memory-IsPersistent true 9000 node 1 press_done
      press_starts (omega arith)

abbrev sizes : EthSizes
sizes = record { device_ip = 16; service_ip = 16; gateway = 16; netmask = 16; dns = 16 }

eth_settings-IsCopy_example :
    let e = eth_settings sizes site_b in
    IsCopy 16 site_b.network.device_ip e.device_ip
    × IsCopy 16 site_b.broker.broker_ip e.service_ip
    × IsCopy 16 site_b.network.gateway e.gateway
    × IsCopy 16 site_b.network.netmask e.netmask
    × IsCopy 16 site_b.network.dns e.dns
    × (e.dhcp_enabled ≡ site_b.network.dhcp_enabled)
eth_settings-IsCopy_example =
    eth_settings-IsCopy sizes site_b (omega arith) (omega arith) (omega arith) (omega arith)
      (omega arith)

-- A driver that starts and writes an address.
abbrev pub driver : EthDriver
driver = record { sizes = sizes; start = λ x a. (ok, codes "10.88.0.7" ++ zeros 55) }

-- The link comes up at the third sample.
abbrev pub up_late : ℕ → Bool
up_late k = leb 2 k

main_ends_example :
    let r = main memory one_seed true driver up_late 1500 blank [] lamp in
    ((is_linked driver up_late (init memory blank).settings ≡ false) × (r.0 ≡ rebooting))
    ⊎ ((is_linked driver up_late (init memory blank).settings ≡ true) × IsReady r)
main_ends_example = main_ends memory one_seed true driver up_late 1500 blank [] lamp

pub linked : is_linked driver up_late (init memory blank).settings ≡ true
unfolding is_linked product_ethernet_start wait_for_w5500_link_stable link_loop
linked = refl
