-- ===== src/Samples.antt =====
-- Concrete values for the tests: a store in memory, a board, a mesh table, settings and peers.
use mqtt_field_bridge_app.Base.{
  ℕ, inr, refl, Option, none, some, List, [], ◌∷◌, ◌++◌, ok, fail, arith, ◌==◌, if◌then◌else◌,
  codes, zeros, length,
}
use mqtt_field_bridge_app.Config.{
  Peer, Settings, SettingsV1, Platform, IsPersistent, Config, zero_peers, zero_settings,
}
use mqtt_field_bridge_app.Bridge.{Mesh}
use mqtt_field_bridge_app.Bridge.Seeds.{Seed, IsTable}

-- The values under each key, by the struct that was saved.
pub record Memory : Type 0 where
  pub peer_at : ℕ → Option Peer
  pub settings_at : ℕ → Option Settings
  pub v1_at : ℕ → Option SettingsV1

abbrev pub put {ℓ} : {A : Type ℓ} → (ℕ → Option A) → ℕ → Option A → ℕ → Option A
put f k v j = if j == k then v else f j

abbrev pub memory : Platform Memory
memory = record {
  store_init = λ s. (ok, s);
  load_peer = λ s k. s.peer_at k;
  load_settings = λ s k. s.settings_at k;
  load_v1 = λ s k. s.v1_at k;
  save_peer = λ s k p. (
    ok,
    record s {
      peer_at = put s.peer_at k (some p);
      settings_at = put s.settings_at k none;
      v1_at = put s.v1_at k none;
    },
  );
  save_settings = λ s k x. (
    ok,
    record s {
      peer_at = put s.peer_at k none;
      settings_at = put s.settings_at k (some x);
      v1_at = put s.v1_at k none;
    },
  );
  device_id = 0x01 ∷ 0x60 ∷ 0x39 ∷ 0xe8 ∷ [];
}

pub memory-IsPersistent : IsPersistent memory
memory-IsPersistent = record {
  init_peer = λ s k. refl;
  init_settings = λ s k. refl;
  init_v1 = λ s k. refl;
  saved_peer = λ s k p h. ground arith;
  other_peer = λ s k p j h. ground arith;
  torn_peer = λ s k p. inr (inr (ground arith));
  settings_beside_peer = λ s k p j h. ground arith;
  saved_settings = λ s k x h. ground arith;
  torn_settings = λ s k x. inr (inr (ground arith));
  peer_beside_settings = λ s k x j h. ground arith;
}

abbrev pub empty_memory : Memory
empty_memory = record { peer_at = λ k. none; settings_at = λ k. none; v1_at = λ k. none }

abbrev pub node2 : Peer
node2 = record {
  name = codes "node2" ++ zeros 27;
  host = codes "10.88.0.3" ++ zeros 55;
  mqtt_port = 1883;
  p2p_port = 4884;
  enabled = 1;
}

abbrev pub site_b : Settings
site_b = record {
  system = record { device_name = codes "gw-b" ++ zeros 28 };
  network = record {
    device_ip = codes "10.88.0.2" ++ zeros 55;
    gateway = codes "10.88.0.1" ++ zeros 55;
    netmask = codes "255.255.255.0" ++ zeros 51;
    dns = codes "10.88.0.1" ++ zeros 55;
    dhcp_enabled = 0;
    mode = 1;
  };
  broker = record {
    broker_ip = codes "10.88.0.2" ++ zeros 55;
    site_id = codes "b" ++ zeros 31;
    topic_prefix = codes "site/b" ++ zeros 58;
    mqtt_port = 1883;
    p2p_port = 4884;
    fallback_port = 1884;
    broker_enabled = 1;
    bridge_enabled = 1;
    mesh_enabled = 1;
  };
}

abbrev pub old_site : SettingsV1
old_site = record {
  system = site_b.system;
  network = site_b.network;
  broker = record {
    broker_ip = site_b.broker.broker_ip;
    site_id = site_b.broker.site_id;
    topic_prefix = site_b.broker.topic_prefix;
    mqtt_port = 1883;
    p2p_port = 4884;
    broker_enabled = 1;
    bridge_enabled = 1;
    mesh_enabled = 0;
  };
}

-- The state before the first call of product_config_init.
abbrev pub blank : Config Memory
blank = record {
  peers = zero_peers;
  settings = zero_settings;
  settings_loaded_from_store = 0;
  store = empty_memory;
}

-- A table that takes one seed; every host is the address 7.
abbrev pub one_seed : Mesh (List Seed)
one_seed = record {
  inet_pton = λ s. some 7;
  seed_clear = λ t. [];
  seed_add = λ t a q. if length t == 0 then (ok, t ++ (a, q) ∷ []) else (fail, t);
}

pub one_seed-IsTable : IsTable one_seed (λ t. t)
one_seed-IsTable = record {
  cleared = λ t. refl;
  taken = λ t a q h. ground arith;
  refused = λ t a q h. ground arith;
}
