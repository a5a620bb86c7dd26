-- ===== src/Console/Sized.antt =====
-- The settings that the commands save have the sizes of the C records.
use mqtt_field_bridge_app.Base.{
  ℕ, ◌<◌, inl, inr, Bool-cases, Option, none, some, Bytes, ℤ, pos, negsuc, arith, is_nonempty,
  IsTerminated, snprintf-IsTerminated,
}
use mqtt_field_bridge_app.Config.{Settings, NetworkSettings, host_max, IsSized}
use mqtt_field_bridge_app.Console.Text.{u16_of}
use mqtt_field_bridge_app.Console.Commands.{
  copy_arg, default_gateway, default_netmask, with_gateway, with_netmask, with_dns, static_network,
}

-- The four addresses of the network settings.
pub record IsNetwork (n : NetworkSettings) : Type 0 where
  pub device_ip : IsTerminated host_max n.device_ip
  pub gateway : IsTerminated host_max n.gateway
  pub netmask : IsTerminated host_max n.netmask
  pub dns : IsTerminated host_max n.dns

pub u16_of-bound : (i : ℤ) → u16_of i < 65536
unfolding u16_of
u16_of-bound (pos n) = omega arith
u16_of-bound (negsuc n) = omega arith

pub copied :
    (dst src : Bytes)
    → IsTerminated host_max dst
    → IsTerminated host_max (copy_arg dst host_max (some src))
unfolding copy_arg
copied dst src h = snprintf-IsTerminated dst host_max src (omega arith) h.0

with_gateway-IsNetwork :
    (gw : Option Bytes) (n : NetworkSettings) → IsNetwork n → IsNetwork (with_gateway gw n)
unfolding with_gateway
with_gateway-IsNetwork (some gw) n h = record {
  device_ip = h.device_ip;
  gateway = copied n.gateway gw h.gateway;
  netmask = h.netmask;
  dns = copied n.dns gw h.dns;
}
with_gateway-IsNetwork none n h = elim (Bool-cases (is_nonempty n.gateway)) [
  | inl e ↦ rw e h
  | inr e ↦ rw e (record {
    device_ip = h.device_ip;
    gateway = copied n.gateway default_gateway h.gateway;
    netmask = h.netmask;
    dns = copied n.dns default_gateway h.dns;
  })
]

with_netmask-IsNetwork :
    (mask : Option Bytes) (n : NetworkSettings) → IsNetwork n → IsNetwork (with_netmask mask n)
unfolding with_netmask
with_netmask-IsNetwork (some mask) n h = record {
  device_ip = h.device_ip;
  gateway = h.gateway;
  netmask = copied n.netmask mask h.netmask;
  dns = h.dns;
}
with_netmask-IsNetwork none n h = elim (Bool-cases (is_nonempty n.netmask)) [
  | inl e ↦ rw e h
  | inr e ↦ rw e (record {
    device_ip = h.device_ip;
    gateway = h.gateway;
    netmask = copied n.netmask default_netmask h.netmask;
    dns = h.dns;
  })
]

with_dns-IsNetwork : (n : NetworkSettings) → IsNetwork n → IsNetwork (with_dns n)
unfolding with_dns
with_dns-IsNetwork n h = elim (Bool-cases (is_nonempty n.dns)) [
  | inl e ↦ rw e h
  | inr e ↦ rw e (record {
    device_ip = h.device_ip;
    gateway = h.gateway;
    netmask = h.netmask;
    dns = copied n.dns _ h.dns;
  })
]

static_network-IsNetwork :
    (ip : Bytes) (gw mask : Option Bytes) (n : NetworkSettings)
    → IsNetwork n
    → IsNetwork (static_network ip gw mask n)
unfolding static_network
static_network-IsNetwork ip gw mask n h =
    let first : IsNetwork (record n { device_ip = copy_arg n.device_ip host_max (some ip) }) =
      record {
        device_ip = copied n.device_ip ip h.device_ip;
        gateway = h.gateway;
        netmask = h.netmask;
        dns = h.dns;
      } in
    let last =
      with_dns-IsNetwork _ (with_netmask-IsNetwork mask _ (with_gateway-IsNetwork gw _ first)) in
    record {
      device_ip = last.device_ip;
      gateway = last.gateway;
      netmask = last.netmask;
      dns = last.dns;
    }

module _ (x : Settings) (h : IsSized x) where
  -- With another network, and a flag of one bit for DHCP.
  pub with_network-IsSized :
      (n : NetworkSettings)
      → IsNetwork n
      → n.dhcp_enabled < 256
      → IsSized (record x { network = n })
  with_network-IsSized n hn dhcp = record {
    device_name = h.device_name;
    device_ip = hn.device_ip;
    gateway = hn.gateway;
    netmask = hn.netmask;
    dns = hn.dns;
    broker_ip = h.broker_ip;
    site_id = h.site_id;
    topic_prefix = h.topic_prefix;
    dhcp_enabled = dhcp;
    mqtt_port = h.mqtt_port;
    p2p_port = h.p2p_port;
    fallback_port = h.fallback_port;
    broker_enabled = h.broker_enabled;
    bridge_enabled = h.bridge_enabled;
    mesh_enabled = h.mesh_enabled;
  }

  pub IsSized-network : IsNetwork x.network
  IsSized-network = record {
    device_ip = h.device_ip;
    gateway = h.gateway;
    netmask = h.netmask;
    dns = h.dns;
  }

  -- The addresses as they are, with any flag and mode.
  pub same_addresses :
      (dhcp mode : ℕ) → IsNetwork (record x.network { dhcp_enabled = dhcp; mode = mode })
  same_addresses dhcp mode = record {
    device_ip = h.device_ip;
    gateway = h.gateway;
    netmask = h.netmask;
    dns = h.dns;
  }

  pub static_network-IsSized :
      (ip : Bytes) (gw mask : Option Bytes)
      → IsSized (record x { network = static_network ip gw mask x.network })
  static_network-IsSized ip gw mask =
      with_network-IsSized _ (static_network-IsNetwork ip gw mask x.network IsSized-network)
        (unfold static_network in omega arith)

  -- With another address of the broker, and other ports.
  pub with_broker-IsSized :
      (broker_ip : Bytes) (mqtt_port p2p_port fallback_port broker_enabled : ℕ)
      → IsTerminated host_max broker_ip
      → mqtt_port < 65536
      → p2p_port < 65536
      → fallback_port < 65536
      → broker_enabled < 256
      → IsSized (record x {
        broker = record x.broker {
          broker_ip = broker_ip;
          mqtt_port = mqtt_port;
          p2p_port = p2p_port;
          fallback_port = fallback_port;
          broker_enabled = broker_enabled;
        };
      })
  with_broker-IsSized ip mqtt p2p fallback enabled hi hm hp hf he = record {
    device_name = h.device_name;
    device_ip = h.device_ip;
    gateway = h.gateway;
    netmask = h.netmask;
    dns = h.dns;
    broker_ip = hi;
    site_id = h.site_id;
    topic_prefix = h.topic_prefix;
    dhcp_enabled = h.dhcp_enabled;
    mqtt_port = hm;
    p2p_port = hp;
    fallback_port = hf;
    broker_enabled = he;
    bridge_enabled = h.bridge_enabled;
    mesh_enabled = h.mesh_enabled;
  }
