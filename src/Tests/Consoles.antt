-- ===== src/Tests/Consoles.antt =====
-- Tests of the console.
use mqtt_field_bridge_app.Base.{
  ℕ, zero, suc, ◌<◌, ◌%◌, ◌^◌, ◌≡◌, ◌⊎◌, refl, true, some, none, List, [], ◌∷◌, Bytes, pos, ok,
  arith, codes, equal, get_elem?,
}
use mqtt_field_bridge_app.Config.{
  Effect, Config, peer_max, or_zero, zero_peers, init, get_settings, get_peer, IsWellFormed,
  IsSynced, validate_settings, set_settings, commit_settings, persist_save_settings,
}
use mqtt_field_bridge_app.Runtime.{broker_start_requested, P2p, runtime_init}
use mqtt_field_bridge_app.Console.{
  broker_state_arg, save_broker_state, broker_state_arg_done, Console, main, handle_word,
  run_command, cmd_broker_port, with_token, first_token, skip_delims, split_token, is_delim,
  command_of, page_command, setting_command, numeric_menu_command, menu_number, decimal_from,
  skip_spaces, is_space, signed_value, digits_value, u16_of, save_and_report, cmd_show, next_token,
  decimal, atoi, handle_line, handle_lines, all_succeed, handle_line-Acts,
  handle_lines-IsWellFormed, handle_lines-init, atoi-decimal, broker_port_line, with_mqtt_port,
  handle_line_broker_port, clamped,
}
use mqtt_field_bridge_app.Samples.{Memory, memory, memory-IsPersistent, empty_memory, site_b}

-- A node whose settings were saved, in memory and in the store.
abbrev pub saved_node : Config Memory
saved_node = record {
  peers = zero_peers;
  settings = site_b;
  settings_loaded_from_store = 1;
  store = record empty_memory { settings_at = λ k. some site_b };
}

saved_node-IsWellFormed : IsWellFormed saved_node
unfolding validate_settings
saved_node-IsWellFormed = record { valid = refl; slots = refl }

saved_slot : (k : ℕ) → k < peer_max → get_elem? zero_peers k ≡ some (or_zero none)
unfolding or_zero
saved_slot zero low = refl
saved_slot (suc zero) low = refl
saved_slot (suc (suc k)) low = absurd (omega arith)

pub saved_node-IsSynced : IsSynced memory saved_node
saved_node-IsSynced = record { form = saved_node-IsWellFormed; saved = refl; slot = saved_slot }

abbrev pub no_mesh : P2p
no_mesh = record { peer_snapshot = []; remote_subs = none; inet_pton = λ s. none }

abbrev desk : Console Memory
desk = record {
  config = saved_node;
  status = runtime_init.status;
  current_menu = main;
  output = [];
  reboots = 0;
}

-- The third line is refused.
abbrev session : List Bytes
session = codes "ip 10.88.0.9" ∷ codes "broker-port 8883" ∷ codes "mode wifi" ∷ codes "reset" ∷ []

handle_lines-IsWellFormed_example :
    IsWellFormed (handle_lines memory no_mesh true session desk).config
handle_lines-IsWellFormed_example =
    handle_lines-IsWellFormed memory no_mesh true session desk saved_node-IsWellFormed

handle_line-Acts_example :
    Effect memory desk.config
      (handle_line memory no_mesh true (some (codes "dhcp")) desk).0
      (handle_line memory no_mesh true (some (codes "dhcp")) desk).1.config
handle_line-Acts_example = handle_line-Acts memory no_mesh true (some (codes "dhcp")) desk

atoi-decimal_example : atoi (decimal 1883) ≡ pos 1883
atoi-decimal_example = atoi-decimal 1883 (omega arith)

abbrev pub port_session : List Bytes
port_session = broker_port_line 8883 ∷ codes "show" ∷ []

pub port_session_succeeds : all_succeed memory no_mesh true port_session desk ≡ true
unfolding all_succeed handle_line handle_word run_command cmd_broker_port with_token get_settings
    next_token first_token skip_delims split_token is_delim command_of page_command setting_command
    numeric_menu_command menu_number equal decimal decimal_from atoi skip_spaces is_space
    signed_value clamped digits_value u16_of save_and_report set_settings commit_settings
    persist_save_settings validate_settings cmd_show
port_session_succeeds = refl

handle_lines-init_example :
    let c = (handle_lines memory no_mesh true port_session desk).config in
    (get_settings memory (init memory c) ≡ get_settings memory c)
    × ((k : ℕ) → k < peer_max → get_peer memory (init memory c) (pos k) ≡ get_peer memory c (pos k))
handle_lines-init_example =
    handle_lines-init memory memory-IsPersistent no_mesh true port_session desk saved_node-IsSynced
      port_session_succeeds refl

port_line_succeeds : (handle_line memory no_mesh true (some (broker_port_line 8883)) desk).0 ≡ ok
unfolding all_succeed
port_line_succeeds = let all = port_session_succeeds in ground arith

handle_line_broker_port_example :
    let r = handle_line memory no_mesh true (some (broker_port_line 8883)) desk in
    (r.1.config.settings ≡ with_mqtt_port (8883 % 2 ^ 16) desk.config.settings)
    × (r.1.config.peers ≡ desk.config.peers)
    × (8883 < 2 ^ 16 → r.1.config.settings.broker.mqtt_port ≡ 8883)
handle_line_broker_port_example =
    handle_line_broker_port memory no_mesh true 8883 desk (omega arith) port_line_succeeds

broker_on_succeeds : (broker_state_arg memory (pos 1) site_b desk).0 ≡ ok
unfolding broker_state_arg save_broker_state set_settings commit_settings persist_save_settings
    validate_settings
broker_on_succeeds = refl

broker_state_arg_done_example :
    let r = broker_state_arg memory (pos 1) site_b desk in
    ((pos 1 ≡ pos 0) × (r.1.config.settings.broker.broker_enabled ≡ 0) × (r.1.status ≡ desk.status))
    ⊎ (pos 1 ≡ pos 1)
      × (r.1.config.settings.broker.broker_enabled ≡ 1)
      × (broker_start_requested r.1.status ≡ true)
broker_state_arg_done_example = broker_state_arg_done memory (pos 1) site_b desk broker_on_succeeds
