-- ===== src/Tests/Systems.antt =====
-- Tests of the whole node.
use mqtt_field_bridge_app.Tests.Configs.{old_store}
use mqtt_field_bridge_app.Base.{
  ℕ, ◌≡◌, refl, true, false, sym, inl, inr, some, none, List, [], ◌∷◌, ok, codes, cstr, Option, ◌⊎◌,
  Bool-cases, ◌==◌, arith,
}
use mqtt_field_bridge_app.Config.{IsSized, IsSizedStore, Settings, init, SettingsV1, IsSizedV1}
use mqtt_field_bridge_app.Bridge.{apply_peers}
use mqtt_field_bridge_app.Bridge.Seeds.{Seed}
use mqtt_field_bridge_app.Runtime.{get_status, runtime_init, broker_start_requested}
use mqtt_field_bridge_app.Console.{Menu}
use mqtt_field_bridge_app.Topics.{topic_text}
use mqtt_field_bridge_app.Http.{
  empty_slots, Request, http_get, data_final, json, status_text, zephyr_dynamic_handler,
  before_char, zephyr_acquire_buffers, has_slot, take_free,
}
use mqtt_field_bridge_app.Ethernet.{product_ethernet_start}
use mqtt_field_bridge_app.Startup.{
  wait_for_w5500_link_stable, link_loop, main, main_ends, main_linked, is_linked, eth_address,
  started_with,
}
use mqtt_field_bridge_app.System.{System, console_of, server_of, started, with_console}
use mqtt_field_bridge_app.System.Steps.{
  Build, on_line, on_round, on_entry, begins, console_line, loop_round, Reach, start, later,
}
use mqtt_field_bridge_app.System.Invariant.{IsSound}
use mqtt_field_bridge_app.System.Safety.{Reach-IsSound}
use mqtt_field_bridge_app.System.Sized.{HasSizes, Reach-HasSizes, first_store}
use mqtt_field_bridge_app.System.Pages.{status_page-shown}
use mqtt_field_bridge_app.System.Service.{broker_comes_up}
use mqtt_field_bridge_app.Tests.Consoles.{saved_node, no_mesh}
use mqtt_field_bridge_app.Tests.Rounds.{driver, up_late, linked, lamp, taking, at_time, no_timers}
use mqtt_field_bridge_app.Tests.Pages.{site_b-IsSized}
use mqtt_field_bridge_app.Samples.{Memory, memory, blank, one_seed, site_b, put, old_site}

abbrev board : Build Memory (List Seed)
board = record { env = memory; mesh = one_seed; has_led = true; has_button = true }

-- The node behind its first power-on, with an empty store.
abbrev fresh : System Memory (List Seed)
fresh =
    started
      (started_with (init memory blank).settings (eth_address driver (init memory blank).settings))
      (main memory one_seed true driver up_late 1500 blank [] lamp).1

fresh-Reach : Reach board fresh
fresh-Reach = start (
    begins driver up_late 1500 blank [] lamp
      (main_linked memory one_seed true driver up_late 1500 blank [] lamp linked).0)

fresh_threads : (main memory one_seed true driver up_late 1500 blank [] lamp).1.threads ≡ 0
fresh_threads = elim (main_ends memory one_seed true driver up_late 1500 blank [] lamp) [
  | inl (unlinked, stops) ↦ let link = linked in absurd cc
  | inr (link, h) ↦ h.threads
]

abbrev asked_dhcp : System Memory (List Seed)
asked_dhcp =
    on_round board (at_time taking 9000) (on_line board no_mesh (some (codes "dhcp")) fresh)

asked_dhcp-Reach : Reach board asked_dhcp
asked_dhcp-Reach =
    later (later fresh-Reach (console_line no_mesh (some (codes "dhcp"))))
      (loop_round (at_time taking 9000))

Reach-IsSound_example : IsSound asked_dhcp
Reach-IsSound_example = Reach-IsSound board asked_dhcp-Reach

-- The node with the saved settings.
abbrev saved : System Memory (List Seed)
saved = record {
  config = saved_node;
  runtime = runtime_init;
  table = [];
  lamp = lamp;
  slots = empty_slots;
  current_menu = Menu.main;
  output = [];
  reboots = 0;
  broker_thread_started = 0;
  threads = 0;
  entered = 0;
  timers = no_timers;
  settings = site_b;
}

always_linked : (x : Settings) → is_linked driver up_late x ≡ true
unfolding is_linked product_ethernet_start wait_for_w5500_link_stable link_loop
always_linked x = refl

broker_comes_up_example :
    let s₁ = on_round board (at_time taking 9000) fresh in
    let s₂ = on_entry board ok 9100 s₁ in
    Reach board s₂
    × (s₂.threads ≡ 1)
    × (s₂.table ≡ (apply_peers one_seed memory fresh.config fresh.table).1)
    × (cstr s₂.runtime.status.broker_state ≡ codes "running")
    × (broker_start_requested s₂.runtime.status ≡ false)
unfolding started
broker_comes_up_example =
    broker_comes_up board (at_time taking 9000) 9100 fresh fresh-Reach fresh_threads refl

put_cases :
    {A : Type 0} (f : ℕ → Option A) (k j : ℕ) (v : Option A) (x : A)
    → put f k v j ≡ some x
    → (v ≡ some x) ⊎ (f j ≡ some x)
put_cases f k j v x e = elim (Bool-cases (j == k)) [
  | inl here ↦ inl (rw here at e)
  | inr there ↦ inr (rw there at e)
]

-- The memory holds only settings of the sizes of the C records.
abbrev IsHeld : Memory → Type 0
IsHeld m =
    ((k : ℕ) (x : Settings) → m.settings_at k ≡ some x → IsSized x)
    × ((k : ℕ) (old : SettingsV1) → m.v1_at k ≡ some old → IsSizedV1 old)

memory-IsSizedStore : IsSizedStore memory IsHeld
memory-IsSizedStore = record {
  starts = λ s h. h;
  settings = λ s k x h e. h.0 k x e;
  v1 = λ s k old h e. h.1 k old e;
  saves_peer = λ s k p h. (
    λ j x e. elim (put_cases s.settings_at k j none x e) [
      | inl e' ↦ absurd cc
      | inr e' ↦ h.0 j x e'
    ],
    λ j old e. elim (put_cases s.v1_at k j none old e) [
      | inl e' ↦ absurd cc
      | inr e' ↦ h.1 j old e'
    ],
  );
  saves_settings = λ s k x h hx. (
    λ j y e. elim (put_cases s.settings_at k j (some x) y e) [
      | inl e' ↦ (let same : x ≡ y = cc in rw (sym same) hx)
      | inr e' ↦ h.0 j y e'
    ],
    λ j old e. elim (put_cases s.v1_at k j none old e) [
      | inl e' ↦ absurd cc
      | inr e' ↦ h.1 j old e'
    ],
  );
}

old_site-IsSized : IsSizedV1 old_site
old_site-IsSized = record {
  device_name = site_b-IsSized.device_name;
  device_ip = site_b-IsSized.device_ip;
  gateway = site_b-IsSized.gateway;
  netmask = site_b-IsSized.netmask;
  dns = site_b-IsSized.dns;
  dhcp_enabled = site_b-IsSized.dhcp_enabled;
  mqtt_port = omega arith;
  p2p_port = omega arith;
  broker_enabled = omega arith;
  bridge_enabled = omega arith;
  mesh_enabled = omega arith;
}

old_store-IsHeld : IsHeld old_store.store
old_store-IsHeld = (
  λ k x e. absurd cc,
  λ k old e. (let same : old_site ≡ old = cc in rw (sym same) old_site-IsSized),
)

-- The node behind its first power-on, with a store of the first format, and a line that saves.
abbrev taken_over : System Memory (List Seed)
taken_over =
    started
      (started_with (init memory old_store).settings
        (eth_address driver (init memory old_store).settings))
      (main memory one_seed true driver up_late 1500 old_store [] lamp).1

abbrev saved_dhcp : System Memory (List Seed)
saved_dhcp = on_line board no_mesh (some (codes "dhcp")) taken_over

abbrev saved_dhcp_run : Reach board saved_dhcp
saved_dhcp_run =
    later
      (start (
        begins driver up_late 1500 old_store [] lamp
          (main_linked memory one_seed true driver up_late 1500 old_store [] lamp
            (always_linked (init memory old_store).settings)).0))
      (console_line no_mesh (some (codes "dhcp")))

Reach-HasSizes_example : HasSizes IsHeld saved_dhcp
unfolding first_store
Reach-HasSizes_example = Reach-HasSizes board memory-IsSizedStore saved_dhcp_run old_store-IsHeld

abbrev status_request : Request
status_request = record { method = http_get; url = codes "/status?now"; content = none }

status_page-shown_example :
    (zephyr_dynamic_handler memory one_seed no_mesh 7 data_final status_request saved_dhcp.slots
      (server_of saved_dhcp)).0
    ≡ some (record {
      code = 200;
      body = json (
          status_text
            (get_status no_mesh saved_dhcp.runtime.status)
            (topic_text (cstr saved_dhcp.config.settings.broker.topic_prefix) (codes "test")));
    })
unfolding first_store before_char zephyr_acquire_buffers has_slot take_free started on_line
    with_console console_of
status_page-shown_example =
    status_page-shown board memory-IsSizedStore no_mesh 7 status_request (some 7 ∷ (none ∷ []))
      saved_dhcp saved_dhcp_run old_store-IsHeld refl refl refl
