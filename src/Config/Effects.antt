-- ===== src/Config/Effects.antt =====
-- What a request of a user does to the configuration: nothing, or one of the operations.
use mqtt_field_bridge_app.Base.{◌≡◌, refl, sym, true, false, some, ℕ, ℤ, Rc, ok, fail}
use mqtt_field_bridge_app.Config.Data.{Settings, Peer}
use mqtt_field_bridge_app.Config.Store.{Platform, IsPersistent}
use mqtt_field_bridge_app.Config.Ops.{
  Config, is_ok, set_settings, set_peer, reset_all, apply_defaults,
}
use mqtt_field_bridge_app.Config.Valid.{
  IsWellFormed, set_settings-IsWellFormed, set_peer-IsWellFormed, reset_all-IsWellFormed,
  apply_defaults-IsWellFormed,
}
use mqtt_field_bridge_app.Config.Synced.{
  IsSynced, set_settings-IsSynced, set_peer-IsSynced, reset_all-IsSynced, apply_defaults-IsSynced,
}

-- The configuration is kept, or one operation was called, and its result is returned.
pub data Effect {S : Type 0} (env : Platform S) (c : Config S) (rc : Rc) (c' : Config S)
    : Type 0 where
  kept : c' ≡ c → Effect env c rc c'
  by_settings :
      (x : Settings)
      → (set_settings env c (some x)).0 ≡ rc
      → (set_settings env c (some x)).1 ≡ c'
      → Effect env c rc c'
  by_peer :
      (i : ℤ) (p : Peer)
      → (set_peer env c i (some p)).0 ≡ rc
      → (set_peer env c i (some p)).1 ≡ c'
      → Effect env c rc c'
  by_reset : (reset_all env c).0 ≡ rc → (reset_all env c).1 ≡ c' → Effect env c rc c'
  by_defaults :
      (profile : ℕ)
      → (apply_defaults env c profile).0 ≡ rc
      → (apply_defaults env c profile).1 ≡ c'
      → Effect env c rc c'

pub ok_of : (rc : Rc) → is_ok rc ≡ true → rc ≡ ok
ok_of ok e = refl
ok_of fail e = cc

pub fail_of : (rc : Rc) → is_ok rc ≡ false → rc ≡ fail
fail_of ok e = cc
fail_of fail e = refl

module _ {S : Type 0} (env : Platform S) where
  pub Effect-IsWellFormed :
      (c c' : Config S) (rc : Rc) → Effect env c rc c' → IsWellFormed c → IsWellFormed c'
  Effect-IsWellFormed c c' rc (kept e) h = rw e h
  Effect-IsWellFormed c c' rc (by_settings x r e) h =
      rw (sym e) (set_settings-IsWellFormed env c (some x) h)
  Effect-IsWellFormed c c' rc (by_peer i p r e) h =
      rw (sym e) (set_peer-IsWellFormed env c i (some p) h)
  Effect-IsWellFormed c c' rc (by_reset r e) h = rw (sym e) (reset_all-IsWellFormed env c)
  Effect-IsWellFormed c c' rc (by_defaults profile r e) h =
      rw (sym e) (apply_defaults-IsWellFormed env c profile h)

module _ {S : Type 0} (env : Platform S) (laws : IsPersistent env) where
  pub Effect-IsSynced : (c c' : Config S) → Effect env c ok c' → IsSynced env c → IsSynced env c'
  Effect-IsSynced c c' (kept e) h = rw e h
  Effect-IsSynced c c' (by_settings x r e) h = rw (sym e) (set_settings-IsSynced env laws c x h r)
  Effect-IsSynced c c' (by_peer i p r e) h = rw (sym e) (set_peer-IsSynced env laws c i p h r)
  Effect-IsSynced c c' (by_reset r e) h = rw (sym e) (reset_all-IsSynced env laws c r)
  Effect-IsSynced c c' (by_defaults profile r e) h =
      rw (sym e) (apply_defaults-IsSynced env laws c profile r)
