-- ===== src/Console/Pages.antt =====
-- The pages of product_console.c only show: they leave the configuration and the status.
use mqtt_field_bridge_app.Base.{◌≡◌, refl, List, [], ◌∷◌, Bytes}
use mqtt_field_bridge_app.Console.State.{Menu, MenuItem, Console, pc_write, pc_writes}
use mqtt_field_bridge_app.Console.State.{clear_screen, print_back_to_menu, render_menu}
use mqtt_field_bridge_app.Console.Menus.{enter_menu, show_lines}

-- The configuration and the runtime status are as before.
abbrev pub Shows : {S : Type 0} → Console S → Console S → Type 0
Shows t t' = (t'.config ≡ t.config) × (t'.status ≡ t.status)

module _ {S : Type 0} where
  pub pc_write-Shows : (b : Bytes) (t : Console S) → Shows t (pc_write b t)
  unfolding pc_write
  pc_write-Shows b t = (refl, refl)

  pub pc_writes-Shows : (ls : List Bytes) (t : Console S) → Shows t (pc_writes ls t)
  unfolding pc_writes pc_write
  pc_writes-Shows [] t = (refl, refl)
  pc_writes-Shows (l ∷ ls) t = pc_writes-Shows ls (pc_write l t)

  pub enter_menu-Shows :
      (m : Menu) (title : Bytes) (items : List MenuItem) (footer : Bytes) (t : Console S)
      → Shows t (enter_menu m title items footer t)
  unfolding enter_menu render_menu clear_screen pc_write
  enter_menu-Shows m title items footer t = (refl, refl)

  pub show_lines-Shows : (ls : List Bytes) (t : Console S) → Shows t (show_lines ls t)
  unfolding show_lines print_back_to_menu clear_screen pc_write
  show_lines-Shows ls t = pc_writes-Shows ls (clear_screen t)
