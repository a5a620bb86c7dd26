-- ===== src/Config/Store.antt =====
-- What product_config.c uses of other code: the key-value store of dephy_config, and the device id.
-- A stored value is the memory image of one of three structs of different sizes, and a load succeeds
-- only at the size that was saved, so there is one load and one save for each struct.
use mqtt_field_bridge_app.Base.{ℕ, Option, none, some, Bytes, Rc, ok, ◌≡◌, ◌≢◌, ◌⊎◌}
use mqtt_field_bridge_app.Config.Data.{Peer, Settings, SettingsV1}

pub record Platform (S : Type 0) : Type 0 where
  -- dephy_config_store_init
  pub store_init : S → Rc × S
  -- dephy_config_store_load(key, &x, sizeof(x)); `none` is a result other than 0
  pub load_peer : S → ℕ → Option Peer
  pub load_settings : S → ℕ → Option Settings
  pub load_v1 : S → ℕ → Option SettingsV1
  -- dephy_config_store_save(key, &x, sizeof(x))
  pub save_peer : S → ℕ → Peer → Rc × S
  pub save_settings : S → ℕ → Settings → Rc × S
  -- hwinfo_get_device_id; empty where there is none
  pub device_id : Bytes

-- A store that keeps what was saved: a successful save is read back, also after a new start, and no
-- save changes another key. A failed save may leave the old value, the new one, or nothing.
pub record IsPersistent {S : Type 0} (env : Platform S) : Type 0 where
  pub init_peer : (s : S) (k : ℕ) → env.load_peer (env.store_init s).1 k ≡ env.load_peer s k
  pub init_settings :
      (s : S) (k : ℕ) → env.load_settings (env.store_init s).1 k ≡ env.load_settings s k
  pub init_v1 : (s : S) (k : ℕ) → env.load_v1 (env.store_init s).1 k ≡ env.load_v1 s k
  pub saved_peer :
      (s : S) (k : ℕ) (p : Peer)
      → (env.save_peer s k p).0 ≡ ok
      → env.load_peer (env.save_peer s k p).1 k ≡ some p
  pub other_peer :
      (s : S) (k : ℕ) (p : Peer) (j : ℕ)
      → j ≢ k
      → env.load_peer (env.save_peer s k p).1 j ≡ env.load_peer s j
  pub torn_peer :
      (s : S) (k : ℕ) (p : Peer)
      → (env.load_peer (env.save_peer s k p).1 k ≡ none)
        ⊎ (env.load_peer (env.save_peer s k p).1 k ≡ env.load_peer s k)
        ⊎ (env.load_peer (env.save_peer s k p).1 k ≡ some p)
  pub settings_beside_peer :
      (s : S) (k : ℕ) (p : Peer) (j : ℕ)
      → j ≢ k
      → env.load_settings (env.save_peer s k p).1 j ≡ env.load_settings s j
  pub saved_settings :
      (s : S) (k : ℕ) (x : Settings)
      → (env.save_settings s k x).0 ≡ ok
      → env.load_settings (env.save_settings s k x).1 k ≡ some x
  pub torn_settings :
      (s : S) (k : ℕ) (x : Settings)
      → (env.load_settings (env.save_settings s k x).1 k ≡ none)
        ⊎ (env.load_settings (env.save_settings s k x).1 k ≡ env.load_settings s k)
        ⊎ (env.load_settings (env.save_settings s k x).1 k ≡ some x)
  pub peer_beside_settings :
      (s : S) (k : ℕ) (x : Settings) (j : ℕ)
      → j ≢ k
      → env.load_peer (env.save_settings s k x).1 j ≡ env.load_peer s j
