-- ===== src/Tests/Starts.antt =====
-- Tests of the start of the node.
use mqtt_field_bridge_app.Base.{
  ℕ, ◌≡◌, ◌⊎◌, ◌↔◌, refl, some, Bool, ok, fail, true, [], if◌then◌else◌, leb,
}
use mqtt_field_bridge_app.Config.{init, IsWellFormed}
use mqtt_field_bridge_app.Startup.{
  link_loop, wait_for_w5500_link_stable, Stable, wait_iff, network_phase, started_with,
  network_phase_enables, plain_main, plain_main_ends, is_up, ending_of, provisioning,
}
use mqtt_field_bridge_app.Tests.Rounds.{taking, driver, lamp}
use mqtt_field_bridge_app.Samples.{memory, blank, one_seed}

-- The link comes up at the third sample.
abbrev up_late : ℕ → Bool
up_late k = leb 2 k

wait_late : wait_for_w5500_link_stable up_late 15000 ≡ some ok
unfolding wait_for_w5500_link_stable link_loop
wait_late = refl

-- Four samples do not fit in 750 ms.
wait_short : wait_for_w5500_link_stable up_late 750 ≡ some fail
unfolding wait_for_w5500_link_stable link_loop
wait_short = refl

wait_iff_example :
    ((wait_for_w5500_link_stable up_late 15000 ≡ some ok)
      ⊎ (wait_for_w5500_link_stable up_late 15000 ≡ some fail))
    × ((wait_for_w5500_link_stable up_late 15000 ≡ some ok) ↔ ((j : ℕ) × Stable up_late 15000 j))
wait_iff_example = wait_iff up_late 15000

plain_main_ends_example :
    let r = plain_main memory one_seed true true taking ok driver true 1500 blank [] lamp in
    let settings = (init memory blank).settings in
    IsWellFormed r.1.config
    × (r.0 ≡ (
        if is_up driver true settings
        then ending_of memory one_seed true true taking ok
            (started_with settings (mqtt_field_bridge_app.Startup.eth_address driver settings))
        else provisioning))
plain_main_ends_example =
    plain_main_ends memory one_seed true true taking ok driver true 1500 blank [] lamp
