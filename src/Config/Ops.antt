-- ===== src/Config/Ops.antt =====
-- The operations of product_config.c. The three static variables are a record, beside the state of
-- the store behind them. An out parameter is a result; the callers pass addresses of locals for it.
use mqtt_field_bridge_app.Base.{
  ℕ, zero, suc, ◌+◌, ◌-◌, Bool, ◌||◌, Option, none, some, List, [], ◌∷◌, ℤ, pos, negsuc, Rc, ok,
  fail, true, false, not, leb, ◌==◌, if◌then◌else◌, get_elem?, set, replicate, cstr, strncpy,
}
use mqtt_field_bridge_app.Config.Data.{
  Peer, Settings, SettingsV1, zero_peer, zero_settings, peer_max, host_max, site_max, topic_max,
  profile_small, profile_large,
}
use mqtt_field_bridge_app.Config.Validate.{validate_peer, validate_settings}
use mqtt_field_bridge_app.Config.Defaults.{settings_defaults, settings_large_defaults}
use mqtt_field_bridge_app.Config.Store.{Platform}

pub record Config (S : Type 0) : Type 0 where
  pub peers : List Peer
  pub settings : Settings
  pub settings_loaded_from_store : ℕ
  pub store : S

abbrev pub peer_key_base : ℕ
peer_key_base = 1

abbrev pub settings_key : ℕ
settings_key = 100

abbrev pub is_ok : Rc → Bool
is_ok ok = true
is_ok fail = false

abbrev pub zero_peers : List Peer
zero_peers = replicate peer_max zero_peer

-- What load_legacy_settings writes from the old image.
unfoldable pub from_v1 : SettingsV1 → Settings
from_v1 legacy =
    let z = zero_settings in
    record {
      system = legacy.system;
      network = legacy.network;
      broker = record {
        broker_ip = strncpy z.broker.broker_ip (cstr legacy.broker.broker_ip) (host_max - 1);
        site_id = strncpy z.broker.site_id (cstr legacy.broker.site_id) (site_max - 1);
        topic_prefix =
            strncpy z.broker.topic_prefix (cstr legacy.broker.topic_prefix) (topic_max - 1);
        mqtt_port = legacy.broker.mqtt_port;
        p2p_port = legacy.broker.p2p_port;
        fallback_port = 1884;
        broker_enabled = legacy.broker.broker_enabled;
        bridge_enabled = legacy.broker.bridge_enabled;
        mesh_enabled = legacy.broker.mesh_enabled;
      };
    }

-- `some` of the settings that validate.
unfoldable pub validated : Option Settings → Option Settings
validated none = none
validated (some x) = if is_ok (validate_settings (some x)) then some x else none

-- A slot that does not load is cleared.
unfoldable pub or_zero : Option Peer → Peer
or_zero none = zero_peer
or_zero (some p) = p

module _ {S : Type 0} (env : Platform S) where
  open env use {store_init, load_peer, load_settings, load_v1, save_peer, save_settings, device_id}

  -- On failure the caller writes the defaults over what was loaded.
  unfoldable pub load_legacy_settings : S → Option Settings
  load_legacy_settings s = elim (load_v1 s settings_key) [
    | none ↦ none
    | some legacy ↦ validated (some (from_v1 legacy))
  ]

  -- The loop over the peer slots: `n` rounds from slot `i`.
  unfoldable pub load_peers : S → ℕ → ℕ → List Peer
  load_peers s zero i = []
  load_peers s (suc n) i = or_zero (load_peer s (peer_key_base + i)) ∷ load_peers s n (i + 1)

  unfoldable pub persist_save_settings : Config S → Rc × Config S
  persist_save_settings c =
      let (rc, s) = save_settings c.store settings_key c.settings in (rc, record c { store = s })

  -- The slots are in range wherever this is called.
  unfoldable pub persist_save : Config S → ℕ → Rc × Config S
  persist_save c idx = elim (get_elem? c.peers idx) [
    | none ↦ (fail, c)
    | some p ↦
        let (rc, s) = save_peer c.store (peer_key_base + idx) p in (rc, record c { store = s })
  ]

  -- The two branches behind a failed load of the settings.
  unfoldable pub restore_legacy : Config S → Option Settings → Config S
  restore_legacy c (some x) =
      let (rc, c') = persist_save_settings (record c { settings = x }) in
      record c' { settings_loaded_from_store = 1 }
  restore_legacy c none = record c { settings = settings_defaults device_id }

  unfoldable pub restore_settings : Config S → Config S
  restore_settings c = elim (validated (load_settings c.store settings_key)) [
    | some x ↦ record c { settings = x; settings_loaded_from_store = 1 }
    | none ↦ restore_legacy c (load_legacy_settings c.store)
  ]

  unfoldable pub persist_load : Config S → Config S
  persist_load c =
      let (rc, s) = store_init c.store in
      let c' = record c { settings_loaded_from_store = 0; store = s } in
      if is_ok rc then restore_settings (record c' { peers = load_peers s peer_max 0 }) else c'

  unfoldable pub init : Config S → Config S
  init c = persist_load (record c {
    peers = zero_peers;
    settings = settings_defaults device_id;
    settings_loaded_from_store = 0;
  })

  unfoldable pub has_saved_settings : Config S → ℕ
  has_saved_settings c = if c.settings_loaded_from_store == 0 then 0 else 1

  unfoldable pub get_peer : Config S → ℤ → Option Peer
  get_peer c (negsuc n) = none
  get_peer c (pos i) = if leb peer_max i then none else get_elem? c.peers i

  unfoldable pub set_peer : Config S → ℤ → Option Peer → Rc × Config S
  set_peer c (negsuc n) peer = (fail, c)
  set_peer c (pos i) none = (fail, c)
  set_peer c (pos i) (some p) =
      if leb peer_max i || not (is_ok (validate_peer (some p)))
      then (fail, c)
      else persist_save (record c { peers = set c.peers i p }) i

  unfoldable pub get_settings : Config S → Option Settings
  get_settings c = some c.settings

  -- What follows a successful validation, and ends reset_all and apply_defaults too.
  unfoldable pub commit_settings : Config S → Rc × Config S
  commit_settings c =
      let (rc, c') = persist_save_settings c in
      if is_ok rc then (ok, record c' { settings_loaded_from_store = 1 }) else (fail, c')

  unfoldable pub set_settings : Config S → Option Settings → Rc × Config S
  set_settings c none = (fail, c)
  set_settings c (some x) =
      if is_ok (validate_settings (some x))
      then commit_settings (record c { settings = x })
      else (fail, c)

  -- The loop that saves the slots: `n` rounds from slot `i`, up to the first failure.
  unfoldable pub persist_peers : Config S → ℕ → ℕ → Rc × Config S
  persist_peers c zero i = (ok, c)
  persist_peers c (suc n) i =
      let (rc, c') = persist_save c i in
      let rest = persist_peers c' n (i + 1) in if is_ok rc then rest else (fail, c')

  unfoldable pub persist_all : Config S → Rc × Config S
  persist_all c =
      let (rc, c') = persist_peers c peer_max 0 in
      if is_ok rc then commit_settings c' else (fail, c')

  unfoldable pub reset_all : Config S → Rc × Config S
  reset_all c =
      persist_all (record c { peers = zero_peers; settings = settings_defaults device_id })

  -- The peers are cleared before the profile is looked at.
  unfoldable pub apply_defaults : Config S → ℕ → Rc × Config S
  apply_defaults c profile =
      let c' = record c { peers = zero_peers } in
      if profile == profile_small
      then persist_all (record c' { settings = settings_defaults device_id })
      else if profile == profile_large
      then persist_all (record c' { settings = settings_large_defaults device_id })
      else (fail, c')
