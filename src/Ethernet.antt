-- ===== src/Ethernet.antt =====
-- product_ethernet.c, in the builds that have the Ethernet driver of dephy, which is a parameter.
use mqtt_field_bridge_app.Base.{
  ℕ, zero, suc, ◌-◌, ◌<◌, ◌≡◌, refl, ap, Bool, false, ◌&&◌, Option, none, some, Bytes, Rc, fail,
  arith, ◌==◌, if◌then◌else◌, zeros, cstr, cstr-IsText, IsTerminated, strncpy, strncpy_ended, set,
  take, length, length-replicate,
}
use mqtt_field_bridge_app.Config.{Settings}

-- dephy_eth_settings_t.
pub record EthSettings : Type 0 where
  pub device_ip : Bytes
  pub service_ip : Bytes
  pub gateway : Bytes
  pub netmask : Bytes
  pub dns : Bytes
  pub dhcp_enabled : ℕ

-- The sizes of its arrays.
pub record EthSizes : Type 0 where
  pub device_ip : ℕ
  pub service_ip : ℕ
  pub gateway : ℕ
  pub netmask : ℕ
  pub dns : ℕ

-- The driver: the sizes, and its start, which writes the address.
pub record EthDriver : Type 0 where
  pub sizes : EthSizes
  pub start : EthSettings → Bytes → Rc × Bytes

-- strncpy(dst, src, cap - 1), and a terminator.
unfoldable pub copy_field : Bytes → ℕ → Option Bytes → Bytes
copy_field dst cap none = if cap == 0 then dst else set dst 0 0
copy_field dst cap (some src) =
    if cap == 0 then dst else set (strncpy (set dst 0 0) src (cap - 1)) (cap - 1) 0

-- The settings that the driver is given.
unfoldable pub eth_settings : EthSizes → Settings → EthSettings
eth_settings sizes s = record {
  device_ip = copy_field (zeros sizes.device_ip) sizes.device_ip (some (cstr s.network.device_ip));
  service_ip =
      copy_field (zeros sizes.service_ip) sizes.service_ip (some (cstr s.broker.broker_ip));
  gateway = copy_field (zeros sizes.gateway) sizes.gateway (some (cstr s.network.gateway));
  netmask = copy_field (zeros sizes.netmask) sizes.netmask (some (cstr s.network.netmask));
  dns = copy_field (zeros sizes.dns) sizes.dns (some (cstr s.network.dns));
  dhcp_enabled = s.network.dhcp_enabled;
}

-- The result and the array of the address, whose size is its length.
unfoldable pub product_ethernet_start :
    EthDriver → Option Settings → Option Bytes → Rc × Option Bytes
product_ethernet_start driver none ip_addr = (fail, ip_addr)
product_ethernet_start driver (some s) none = (fail, none)
product_ethernet_start driver (some s) (some ip_addr) =
    if length ip_addr == 0
    then (fail, some ip_addr)
    else let (rc, ip_addr') = driver.start (eth_settings driver.sizes s) ip_addr in
      (rc, some ip_addr')

-- The interface as Zephyr reports it, where there is one: up, and with a carrier.
unfoldable pub product_ethernet_link_ready : Option (Bool × Bool) → Bool
product_ethernet_link_ready none = false
product_ethernet_link_ready (some (up, carrier)) = up && carrier

-- A text in an array of `size` bytes, cut to it.
pub record IsCopy (size : ℕ) (src dst : Bytes) : Type 0 where
  pub terminated : IsTerminated size dst
  pub text : cstr dst ≡ take (size - 1) (cstr src)

copy_field-IsCopy :
    (size : ℕ) (src : Bytes)
    → 0 < size
    → IsCopy size src (copy_field (zeros size) size (some (cstr src)))
unfolding copy_field
copy_field-IsCopy zero src h = absurd (omega arith)
copy_field-IsCopy (suc n) src h =
    let len : length (set (zeros (suc n)) 0 0) ≡ suc n = ap suc (length-replicate {A = ℕ} n 0) in
    let some_room : (suc n == 0) ≡ false = ground arith in
    let last : suc n - 1 ≡ n = omega arith in
    let (terminated, text) =
      strncpy_ended (set (zeros (suc n)) 0 0) (cstr src) n len (cstr-IsText src) in
    rw (some_room, copy_field, last) (record { terminated = terminated; text = rw last text })

-- If no array of the driver's settings is empty, each is terminated and holds the text of its field
-- of the configuration, cut to the array: the address of the broker is the service's.
pub eth_settings-IsCopy :
    (sizes : EthSizes) (s : Settings)
    → 0 < sizes.device_ip
    → 0 < sizes.service_ip
    → 0 < sizes.gateway
    → 0 < sizes.netmask
    → 0 < sizes.dns
    → let e = eth_settings sizes s in
      IsCopy sizes.device_ip s.network.device_ip e.device_ip
      × IsCopy sizes.service_ip s.broker.broker_ip e.service_ip
      × IsCopy sizes.gateway s.network.gateway e.gateway
      × IsCopy sizes.netmask s.network.netmask e.netmask
      × IsCopy sizes.dns s.network.dns e.dns
      × (e.dhcp_enabled ≡ s.network.dhcp_enabled)
unfolding eth_settings
eth_settings-IsCopy sizes s h₁ h₂ h₃ h₄ h₅ = (
  copy_field-IsCopy _ _ h₁,
  copy_field-IsCopy _ _ h₂,
  copy_field-IsCopy _ _ h₃,
  copy_field-IsCopy _ _ h₄,
  copy_field-IsCopy _ _ h₅,
  refl,
)
