-- ===== src/Tests/Configs.antt =====
-- Tests of the configuration and the topics.
use mqtt_field_bridge_app.Base.{
  ◌≡◌, ◌↔◌, ◌⊎◌, refl, some, pos, ok, fail, arith, inl, inr, none, codes, zeros, cstr, strncpy,
  equal, true, false,
}
use mqtt_field_bridge_app.Config.{
  Config, Platform, settings_key, settings_defaults, validate_peer, validate_settings, from_v1,
  init, get_peer, set_peer, get_settings, set_settings, has_saved_settings, persist_save,
  persist_save_settings, commit_settings, network_mode_from_name, network_mode_name, mode_eth,
  IsWellFormed, init-IsWellFormed, set_settings-init, set_peer-init, init-init_v1, IsTakenOver,
  IsValid, IsPersistent, set_settings-init_fails, Settings, from_v1_clash, from_name-name,
}
use mqtt_field_bridge_app.Topics.{topic_build, topic_matches_prefix, strchr, strncmp_eq, topic_text}
use mqtt_field_bridge_app.Topics.Matching.{Below, matches_iff, matches-topic_build}
use mqtt_field_bridge_app.Tests.Consoles.{saved_node, saved_node-IsSynced}
use mqtt_field_bridge_app.Samples.{
  Memory, memory, memory-IsPersistent, empty_memory, blank, node2, site_b, old_site,
}

-- The board 60:39:e8 gets its address from the table.
board_address : cstr (settings_defaults memory.device_id).network.device_ip ≡ codes "192.168.127.12"
unfolding settings_defaults strncpy equal cstr
board_address = refl

site_b_valid : validate_settings (some site_b) ≡ ok
unfolding validate_settings
site_b_valid = refl

set_settings-init_example :
    (get_settings memory (init memory (set_settings memory blank (some site_b)).1) ≡ some site_b)
    × (has_saved_settings memory (init memory (set_settings memory blank (some site_b)).1) ≡ 1)
unfolding set_settings commit_settings persist_save_settings validate_settings
set_settings-init_example = set_settings-init memory memory-IsPersistent blank site_b refl refl

-- A store whose saves of settings all fail.
abbrev read_only : Platform Memory
read_only = record memory { save_settings = λ s k x. (fail, s) }

read_only-IsPersistent : IsPersistent read_only
read_only-IsPersistent =
    let h = memory-IsPersistent in
    record {
      init_peer = h.init_peer;
      init_settings = h.init_settings;
      init_v1 = h.init_v1;
      saved_peer = h.saved_peer;
      other_peer = h.other_peer;
      torn_peer = h.torn_peer;
      settings_beside_peer = h.settings_beside_peer;
      saved_settings = λ s k x e. absurd cc;
      torn_settings = λ s k x. inr (inl refl);
      peer_beside_settings = λ s k x j e. refl;
    }

abbrev site_b_at_8883 : Settings
site_b_at_8883 = record site_b { broker = record site_b.broker { mqtt_port = 8883 } }

set_settings-init_fails_example :
    let c' = (set_settings read_only saved_node (some site_b_at_8883)).1 in
    (¬ IsValid site_b_at_8883
      → (c' ≡ saved_node)
        × (get_settings read_only (init read_only c') ≡ get_settings read_only saved_node))
    × (IsValid site_b_at_8883
        → (get_settings read_only c' ≡ some site_b_at_8883)
          × (c'.peers ≡ saved_node.peers)
          × (c'.settings_loaded_from_store ≡ saved_node.settings_loaded_from_store)
          × ((get_settings read_only (init read_only c') ≡ some site_b_at_8883)
              ⊎ (get_settings read_only (init read_only c') ≡ get_settings read_only saved_node)
              ⊎ (read_only.load_settings c'.store settings_key ≡ none)))
unfolding set_settings commit_settings persist_save_settings validate_settings
set_settings-init_fails_example =
    set_settings-init_fails read_only read_only-IsPersistent saved_node site_b_at_8883
      (record { form = saved_node-IsSynced.form; saved = refl; slot = saved_node-IsSynced.slot })
      refl refl

set_peer-init_example :
    get_peer memory (init memory (set_peer memory blank (pos 1) (some node2)).1) (pos 1)
    ≡ some node2
unfolding set_peer persist_save validate_peer
set_peer-init_example =
    set_peer-init memory memory-IsPersistent blank 1 1 node2 refl refl refl (omega arith)

-- A store that was written by the first settings format.
abbrev pub old_store : Config Memory
old_store = record blank { store = record empty_memory { v1_at = λ k. some old_site } }

init-init_v1_example :
    let x = (init memory old_store).settings in
    IsTakenOver old_site x
    × (memory.load_settings (init memory old_store).store settings_key ≡ some x)
    × (get_settings memory (init memory (init memory old_store)) ≡ some x)
    × (has_saved_settings memory (init memory (init memory old_store)) ≡ 1)
unfolding from_v1 validate_settings cstr strncpy
init-init_v1_example =
    init-init_v1 memory memory-IsPersistent old_store old_site refl refl refl refl refl refl

from_v1_clash_example :
    validate_settings
      (some (from_v1 (record old_site { broker = record old_site.broker { mqtt_port = 1884 } })))
    ≡ fail
from_v1_clash_example =
    from_v1_clash (record old_site { broker = record old_site.broker { mqtt_port = 1884 } }) refl

init-IsWellFormed_example : IsWellFormed (init memory old_store)
init-IsWellFormed_example = init-IsWellFormed memory old_store

from_name-name_example : network_mode_from_name (some (network_mode_name mode_eth)) ≡ some mode_eth
from_name-name_example = from_name-name mode_eth refl

matches_iff_example :
    (topic_matches_prefix (some site_b) (some (codes "site/b/io")) ≡ true)
    ↔ Below (cstr site_b.broker.topic_prefix) (codes "site/b/io")
matches_iff_example = matches_iff site_b (codes "site/b/io") refl

-- The prefix itself, and a longer name, do not match.
no_match :
    (topic_matches_prefix (some site_b) (some (codes "site/b")) ≡ false)
    × (topic_matches_prefix (some site_b) (some (codes "site/bb/io")) ≡ false)
unfolding topic_matches_prefix strncmp_eq cstr
no_match = (refl, refl)

matches-topic_build_example :
    (cstr (topic_build (some site_b) (some (codes "io")) (zeros 16) (pos 16)).1
      ≡ topic_text (cstr site_b.broker.topic_prefix) (codes "io"))
    × (topic_matches_prefix
          (some site_b)
          (some (cstr (topic_build (some site_b) (some (codes "io")) (zeros 16) (pos 16)).1))
        ≡ true)
unfolding topic_build strchr cstr
matches-topic_build_example =
    matches-topic_build site_b (codes "io") (zeros 16) 16 (omega arith) refl
