-- ===== src/Config/Data.antt =====
-- product_config.h: the configuration records. A `char` array is the list of its bytes; the numbers
-- are `uint8_t` and `uint16_t` values.
use mqtt_field_bridge_app.Base.{ℕ, Bytes, zeros}

abbrev pub peer_max : ℕ
peer_max = 2

abbrev pub name_max : ℕ
name_max = 32

abbrev pub host_max : ℕ
host_max = 64

abbrev pub site_max : ℕ
site_max = 32

abbrev pub topic_max : ℕ
topic_max = 64

pub record Peer : Type 0 where
  pub name : Bytes
  pub host : Bytes
  pub mqtt_port : ℕ
  pub p2p_port : ℕ
  pub enabled : ℕ

-- memset(&peer, 0, sizeof(peer)); shut, since proofs seldom need the bytes
unfoldable pub zero_peer : Peer
zero_peer = record {
  name = zeros name_max;
  host = zeros host_max;
  mqtt_port = 0;
  p2p_port = 0;
  enabled = 0;
}

pub record SystemSettings : Type 0 where
  pub device_name : Bytes

abbrev pub mode_auto : ℕ
mode_auto = 0

abbrev pub mode_eth : ℕ
mode_eth = 1

pub record NetworkSettings : Type 0 where
  pub device_ip : Bytes
  pub gateway : Bytes
  pub netmask : Bytes
  pub dns : Bytes
  pub dhcp_enabled : ℕ
  pub mode : ℕ

pub record BrokerSettings : Type 0 where
  pub broker_ip : Bytes
  pub site_id : Bytes
  pub topic_prefix : Bytes
  pub mqtt_port : ℕ
  pub p2p_port : ℕ
  pub fallback_port : ℕ
  pub broker_enabled : ℕ
  pub bridge_enabled : ℕ
  pub mesh_enabled : ℕ

pub record Settings : Type 0 where
  pub system : SystemSettings
  pub network : NetworkSettings
  pub broker : BrokerSettings

-- The broker part of the first settings format, which had no fallback port.
pub record BrokerV1 : Type 0 where
  pub broker_ip : Bytes
  pub site_id : Bytes
  pub topic_prefix : Bytes
  pub mqtt_port : ℕ
  pub p2p_port : ℕ
  pub broker_enabled : ℕ
  pub bridge_enabled : ℕ
  pub mesh_enabled : ℕ

pub record SettingsV1 : Type 0 where
  pub system : SystemSettings
  pub network : NetworkSettings
  pub broker : BrokerV1

-- memset(&settings, 0, sizeof(settings))
abbrev pub zero_settings : Settings
zero_settings = record {
  system = record { device_name = zeros name_max };
  network = record {
    device_ip = zeros host_max;
    gateway = zeros host_max;
    netmask = zeros host_max;
    dns = zeros host_max;
    dhcp_enabled = 0;
    mode = 0;
  };
  broker = record {
    broker_ip = zeros host_max;
    site_id = zeros site_max;
    topic_prefix = zeros topic_max;
    mqtt_port = 0;
    p2p_port = 0;
    fallback_port = 0;
    broker_enabled = 0;
    bridge_enabled = 0;
    mesh_enabled = 0;
  };
}

-- A C enum: a value that is neither of the two can be passed.
abbrev pub profile_small : ℕ
profile_small = 0

abbrev pub profile_large : ℕ
profile_large = 1
