-- ===== src/Startup/PowerOn.antt =====
-- The settings that the broker is started with: active_settings, power_on_settings and network_phase.
use mqtt_field_bridge_app.Base.{
  ℕ, pos, ◌≡◌, refl, ◌∙◌, inl, inr, true, ◌&&◌, some, [], ◌∷◌, Bytes, ok, ◌==◌, zeros, cstr,
  snprintf, is_nonempty, Bool-cases, arith,
}
use mqtt_field_bridge_app.Config.{
  get_peer, commit_settings, persist_save_settings, Settings, Platform, Config, host_max, mode_eth,
  set_settings, validate_settings, IsValid, IsWellFormed, set_settings-IsWellFormed,
}
use mqtt_field_bridge_app.Runtime.{
  RuntimeStatus, network_start, network_ready, network_ready-network_start,
}
use mqtt_field_bridge_app.Startup.Network.{
  start_broker_network, with_ip, active_settings, power_on_settings, power_on, network_phase,
}

nonempty_snprintf :
    (dst text : Bytes) → is_nonempty text ≡ true → is_nonempty (snprintf dst 64 text) ≡ true
unfolding snprintf
nonempty_snprintf dst [] h = cc
nonempty_snprintf dst (c ∷ text) h = h

nonempty_cstr : (b : Bytes) → is_nonempty b ≡ true → is_nonempty (cstr b) ≡ true
unfolding cstr
nonempty_cstr [] h = cc
nonempty_cstr (c ∷ b) h = ground arith

with_ip-IsValid :
    (ip_addr : Bytes) (s : Settings)
    → is_nonempty ip_addr ≡ true
    → IsValid s
    → IsValid (with_ip ip_addr s)
unfolding with_ip validate_settings
with_ip-IsValid ip_addr s h valid = ground (
  arith,
  nonempty_snprintf s.network.device_ip (cstr ip_addr) (nonempty_cstr ip_addr h),
  nonempty_snprintf s.broker.broker_ip (cstr ip_addr) (nonempty_cstr ip_addr h),
)

active_settings-IsValid :
    (s : Settings) (ip_addr : Bytes) → IsValid s → IsValid (active_settings s ip_addr mode_eth)
unfolding active_settings validate_settings
active_settings-IsValid s ip_addr valid = elim (Bool-cases (is_nonempty ip_addr)) [
  | inl e ↦ rw e (ground (arith, with_ip-IsValid ip_addr s e valid))
  | inr e ↦ rw e (ground arith)
]

power_on_settings-IsValid : (s : Settings) → IsValid s → IsValid (power_on_settings s)
unfolding power_on_settings validate_settings
power_on_settings-IsValid s valid = ground arith

power_on_enabled :
    (s : Settings)
    → IsValid s
    → s.network.mode ≡ mode_eth
    → (power_on_settings s).broker.broker_enabled ≡ 1
unfolding power_on_settings validate_settings
power_on_enabled s valid eth = ground arith

broker_enabled-active_settings :
    (s : Settings) (ip_addr : Bytes)
    → (active_settings s ip_addr mode_eth).broker.broker_enabled ≡ s.broker.broker_enabled
unfolding active_settings with_ip
broker_enabled-active_settings s ip_addr = ground arith

-- The address array that start_broker_network leaves.
abbrev pub ip_of : Bytes → Bytes
ip_of eth_ip_addr = snprintf (zeros host_max) host_max (cstr eth_ip_addr)

start_valid :
    (s : Settings) (eth_ip_addr : Bytes)
    → IsValid s
    → start_broker_network s eth_ip_addr ≡ some (ip_of eth_ip_addr, mode_eth)
unfolding start_broker_network validate_settings
start_valid s eth_ip_addr valid = ground arith

-- The settings that main goes on with.
abbrev pub started_with : Settings → Bytes → Settings
started_with s eth_ip_addr = power_on_settings (active_settings s (ip_of eth_ip_addr) mode_eth)

module _ {S : Type 0} (env : Platform S) where
  power_on-IsWellFormed :
      (x : Settings) (c : Config S) → IsWellFormed c → IsWellFormed (power_on env x c)
  unfolding power_on
  power_on-IsWellFormed x c h =
      elim (Bool-cases (x.network.mode == mode_eth && x.broker.broker_enabled == 0)) [
        | inl e ↦ rw e (set_settings-IsWellFormed env c (some (power_on_settings x)) h)
        | inr e ↦ rw e h
      ]

  network_phase_valid :
      (x : Settings) (eth_ip_addr : Bytes) (c : Config S) (s : RuntimeStatus)
      → IsValid x
      → let a = active_settings x (ip_of eth_ip_addr) mode_eth in
        network_phase env x eth_ip_addr c s
        ≡ (some (power_on_settings a), power_on env a c, network_start (some a) s)
  unfolding network_phase
  network_phase_valid x eth_ip_addr c s valid =
      rw (start_valid x eth_ip_addr valid, network_phase)
        (rw (network_ready-network_start (some (active_settings x (ip_of eth_ip_addr) mode_eth)) s)
          refl)

  -- With settings that validate, the network phase of main gives settings that validate and have the
  -- broker enabled, leaves the network ready, and keeps the configuration well-formed.
  pub network_phase_started :
      (x : Settings) (eth_ip_addr : Bytes) (c : Config S) (s : RuntimeStatus)
      → IsValid x
      → IsWellFormed c
      → let r = network_phase env x eth_ip_addr c s in
        (r.0 ≡ some (started_with x eth_ip_addr))
        × (validate_settings (some (started_with x eth_ip_addr)) ≡ ok)
        × ((started_with x eth_ip_addr).broker.broker_enabled ≡ 1)
        × (network_ready r.2 ≡ true)
        × IsWellFormed r.1
  network_phase_started x eth_ip_addr c s valid form =
      let a = active_settings x (ip_of eth_ip_addr) mode_eth in
      let active = active_settings-IsValid x (ip_of eth_ip_addr) valid in
      rw (network_phase_valid x eth_ip_addr c s valid) (
        refl,
        power_on_settings-IsValid a active,
        power_on_enabled a active (mode_active x (ip_of eth_ip_addr)),
        network_ready-network_start (some a) s,
        power_on-IsWellFormed a c form,
      )
    where
      mode_active :
          (x : Settings) (ip : Bytes) → (active_settings x ip mode_eth).network.mode ≡ mode_eth
      mode_active x ip = unfold active_settings in refl

  set_settings_memory :
      (c : Config S) (x : Settings) → IsValid x → (set_settings env c (some x)).1.settings ≡ x
  unfolding set_settings commit_settings persist_save_settings
  set_settings_memory c x valid = ground arith

  get_peer-set_settings :
      (c : Config S) (x : Settings) (k : ℕ)
      → get_peer env (set_settings env c (some x)).1 (pos k) ≡ get_peer env c (pos k)
  unfolding set_settings commit_settings persist_save_settings get_peer
  get_peer-set_settings c x k = ground arith

  -- The network phase keeps the peers.
  pub get_peer-network_phase :
      (x : Settings) (eth_ip_addr : Bytes) (c : Config S) (s : RuntimeStatus) (k : ℕ)
      → IsValid x
      → get_peer env (network_phase env x eth_ip_addr c s).1 (pos k) ≡ get_peer env c (pos k)
  unfolding power_on
  get_peer-network_phase x eth_ip_addr c s k valid =
      let a = active_settings x (ip_of eth_ip_addr) mode_eth in
      rw (network_phase_valid x eth_ip_addr c s valid)
        (elim (Bool-cases (a.network.mode == mode_eth && a.broker.broker_enabled == 0)) [
          | inl e ↦ rw e (get_peer-set_settings c (power_on_settings a) k)
          | inr e ↦ rw e refl
        ])

  power_on_off :
      (x : Settings) (c : Config S)
      → IsValid x
      → x.network.mode ≡ mode_eth
      → x.broker.broker_enabled ≡ 0
      → (power_on env x c).settings ≡ power_on_settings x
  unfolding power_on
  power_on_off x c valid eth off =
      ground
        (arith, set_settings_memory c (power_on_settings x) (power_on_settings-IsValid x valid))

  -- Settings that validate and have the broker disabled are, behind the network phase of main, the
  -- current settings with the broker enabled, whether or not their save succeeds.
  pub network_phase_enables :
      (x : Settings) (eth_ip_addr : Bytes) (c : Config S) (s : RuntimeStatus)
      → IsValid x
      → x.broker.broker_enabled ≡ 0
      → let r = network_phase env x eth_ip_addr c s in
        (r.1.settings ≡ started_with x eth_ip_addr) × (r.1.settings.broker.broker_enabled ≡ 1)
  network_phase_enables x eth_ip_addr c s valid off =
      let a = active_settings x (ip_of eth_ip_addr) mode_eth in
      let active = active_settings-IsValid x (ip_of eth_ip_addr) valid in
      let still_off : a.broker.broker_enabled ≡ 0 =
        broker_enabled-active_settings x (ip_of eth_ip_addr) ∙ off in
      let eth : a.network.mode ≡ mode_eth = unfold active_settings in refl in
      let after = power_on_off a c active eth still_off in
      rw (network_phase_valid x eth_ip_addr c s valid, after) (refl, power_on_enabled a active eth)
