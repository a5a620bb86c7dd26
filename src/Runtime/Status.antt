-- ===== src/Runtime/Status.antt =====
-- product_runtime.c: the records, and the status of the network and the broker.
-- The build is the one with the dynamic mesh (CONFIG_MQTT_P2P_DYNAMIC, app/prj.conf).
use mqtt_field_bridge_app.Base.{
  ℕ, ◌%◌, ◌^◌, Bool, not, ◌||◌, Option, none, some, List, [], ◌∷◌, Bytes, Rc, ok, fail, ltb, ◌==◌,
  if◌then◌else◌, codes, zeros, length, cstr, snprintf, equal, is_nonempty,
}
use mqtt_field_bridge_app.Config.{Settings, host_max}

abbrev pub state_max : ℕ
state_max = 16

abbrev pub version_max : ℕ
version_max = 32

abbrev pub error_max : ℕ
error_max = 96

abbrev pub topic_full_max : ℕ
topic_full_max = 128

abbrev pub payload_max : ℕ
payload_max = 256

abbrev pub config_version : ℕ
config_version = 2

abbrev pub firmware_version : Bytes
firmware_version = codes "bridge-v0.1.20-dev"

pub record RuntimeStatus : Type 0 where
  pub firmware : Bytes
  pub version : ℕ
  pub network_state : Bytes
  pub ip_addr : Bytes
  pub broker_state : Bytes
  pub p2p_role : Bytes
  pub connected_peers : ℕ
  pub remote_subscriptions : ℕ
  pub last_error : Bytes

pub record PublishTest : Type 0 where
  pub topic : Bytes
  pub payload : Bytes
  pub qos : ℕ
  pub retain : ℕ

pub record PeerStatus : Type 0 where
  pub index : ℕ
  pub name : Bytes
  pub host : Bytes
  pub p2p_port : ℕ
  pub enabled : ℕ
  pub state : Bytes
  pub last_error : Bytes

-- The two static variables.
pub record Runtime : Type 0 where
  pub status : RuntimeStatus
  pub last_publish : PublishTest

-- What the mesh module and the resolver report when they are asked: the addresses and ports of the
-- connected peers, at most P2P_PEER_MAX; the remote subscriptions of the router, if it has them.
pub record P2p : Type 0 where
  pub peer_snapshot : List (ℕ × ℕ)
  pub remote_subs : Option ℕ
  pub inet_pton : Bytes → Option ℕ

unfoldable pub copy_str : Bytes → ℕ → Option Bytes → Bytes
copy_str dst cap none = if cap == 0 then dst else snprintf dst cap []
copy_str dst cap (some src) = if cap == 0 then dst else snprintf dst cap src

-- s[0] = '\0'
abbrev pub clear_text : Bytes → Bytes
clear_text [] = []
clear_text (c ∷ s) = 0 ∷ s

abbrev pub zero_publish : PublishTest
zero_publish = record {
  topic = zeros topic_full_max;
  payload = zeros payload_max;
  qos = 0;
  retain = 0;
}

unfoldable pub runtime_init : Runtime
runtime_init = record {
  status = record {
    firmware = copy_str (zeros version_max) version_max (some firmware_version);
    version = config_version;
    network_state = copy_str (zeros state_max) state_max (some (codes "init"));
    ip_addr = copy_str (zeros host_max) host_max (some (codes "0.0.0.0"));
    broker_state = copy_str (zeros state_max) state_max (some (codes "stopped"));
    p2p_role = copy_str (zeros state_max) state_max (some (codes "unknown"));
    connected_peers = 0;
    remote_subscriptions = 0;
    last_error = zeros error_max;
  };
  last_publish = zero_publish;
}

unfoldable pub network_start : Option Settings → RuntimeStatus → RuntimeStatus
network_start none s = record s {
  network_state = copy_str s.network_state state_max (some (codes "error"));
  last_error = copy_str s.last_error error_max (some (codes "network settings missing"));
}
network_start (some settings) s = record s {
  network_state =
      copy_str s.network_state state_max
        (some (if settings.network.dhcp_enabled == 0 then codes "static" else codes "dhcp"));
  ip_addr = copy_str s.ip_addr host_max (
      some (
        if is_nonempty settings.network.device_ip
        then cstr settings.network.device_ip
        else codes "0.0.0.0"));
  last_error = clear_text s.last_error;
}

unfoldable pub network_ready : RuntimeStatus → Bool
network_ready s =
    equal (cstr s.network_state) (codes "dhcp") || equal (cstr s.network_state) (codes "static")

unfoldable pub broker_started : RuntimeStatus → RuntimeStatus
broker_started s = record s {
  broker_state = copy_str s.broker_state state_max (some (codes "running"));
  p2p_role = copy_str s.p2p_role state_max (some (codes "dynamic"));
  last_error = clear_text s.last_error;
}

unfoldable pub broker_failed : Option Bytes → RuntimeStatus → RuntimeStatus
broker_failed error s = record s {
  broker_state = copy_str s.broker_state state_max (some (codes "error"));
  last_error = copy_str s.last_error error_max error;
}

unfoldable pub set_broker_enabled : ℕ → RuntimeStatus → Rc × RuntimeStatus
set_broker_enabled enabled s = if ltb 1 enabled then (fail, s) else (
  ok,
  record s {
    broker_state =
        copy_str s.broker_state state_max
          (some (if enabled == 0 then codes "stopped" else codes "requested"));
  },
)

unfoldable pub broker_start_requested : RuntimeStatus → Bool
broker_start_requested s = equal (cstr s.broker_state) (codes "requested")

-- The counters of product_runtime_get_status.
unfoldable pub refresh_mesh : P2p → RuntimeStatus → RuntimeStatus
refresh_mesh p2p s =
    if equal (cstr s.broker_state) (codes "running")
      || equal (cstr s.broker_state) (codes "requested")
    then record s {
      connected_peers = length p2p.peer_snapshot % 2 ^ 8;
      remote_subscriptions = elim p2p.remote_subs [
        | none ↦ s.remote_subscriptions
        | some subs ↦ subs % 2 ^ 16
      ];
    }
    else record s { connected_peers = 0; remote_subscriptions = 0 }

-- The status that is written to `*out` is also the new state.
unfoldable pub get_status : P2p → RuntimeStatus → RuntimeStatus
get_status p2p s = refresh_mesh p2p (record s {
  firmware = copy_str s.firmware version_max (some firmware_version);
  version = config_version;
})

unfoldable pub record_publish_test : Option PublishTest → Runtime → Rc × Runtime
record_publish_test none r = (fail, r)
record_publish_test (some test) r =
    if not (is_nonempty test.topic)
      || not (is_nonempty test.payload)
      || ltb 2 test.qos
      || ltb 1 test.retain
    then (fail, r)
    else (ok, record r { last_publish = test })

unfoldable pub get_last_publish_test : Runtime → PublishTest
get_last_publish_test r = r.last_publish
