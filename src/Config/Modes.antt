-- ===== src/Config/Modes.antt =====
-- The names of the network modes. A NULL name is `none`; the mode is stored by the caller.
use mqtt_field_bridge_app.Base.{
  ℕ, ◌↔◌, zero, suc, true, ◌||◌, Option, none, some, Bytes, ◌≡◌, refl, ◌⊎◌, arith, ◌==◌,
  if◌then◌else◌, codes, equal, equal_iff,
}
use mqtt_field_bridge_app.Config.Data.{mode_auto, mode_eth}
use mqtt_field_bridge_app.Config.Validate.{valid_network_mode}

unfoldable pub network_mode_name : ℕ → Bytes
network_mode_name mode =
    if mode == mode_auto
    then codes "auto"
    else if mode == mode_eth
    then codes "eth"
    else codes "unknown"

unfoldable pub network_mode_from_name : Option Bytes → Option ℕ
network_mode_from_name none = none
network_mode_from_name (some name) =
    if equal name (codes "auto")
    then some mode_auto
    else if equal name (codes "eth") || equal name (codes "ethernet")
    then some mode_eth
    else none

not_valid : (n : ℕ) → valid_network_mode (suc (suc n)) ≡ true → ⊥
not_valid n h = ground arith

-- The name of a valid mode reads back as that mode.
pub from_name-name :
    (mode : ℕ)
    → valid_network_mode mode ≡ true
    → network_mode_from_name (some (network_mode_name mode)) ≡ some mode
unfolding network_mode_from_name network_mode_name equal
from_name-name zero h = refl
from_name-name (suc zero) h = refl
from_name-name (suc (suc n)) h = absurd (not_valid n h)

-- A name is read as `auto` exactly if it is `auto`, and as `eth` exactly if it is `eth` or
-- `ethernet`; nothing else is accepted.
pub from_name_iff :
    (name : Bytes) (m : ℕ)
    → (network_mode_from_name (some name) ≡ some m) ↔ (
        (name ≡ codes "auto") × (m ≡ mode_auto)
        ⊎ ((name ≡ codes "eth") ⊎ (name ≡ codes "ethernet")) × (m ≡ mode_eth))
unfolding network_mode_from_name
from_name_iff name m = (
  λ h. ground (arith, auto, eth, ethernet),
  λ h. ground (
    arith,
    auto,
    eth,
    ethernet,
    equal_iff (codes "eth") (codes "auto"),
    equal_iff (codes "ethernet") (codes "auto"),
  ),
)
  where
    auto : (equal name (codes "auto") ≡ true) ↔ (name ≡ codes "auto")
    auto = equal_iff name (codes "auto")

    eth : (equal name (codes "eth") ≡ true) ↔ (name ≡ codes "eth")
    eth = equal_iff name (codes "eth")

    ethernet : (equal name (codes "ethernet") ≡ true) ↔ (name ≡ codes "ethernet")
    ethernet = equal_iff name (codes "ethernet")
