-- ===== src/Console/State.antt =====
-- What product_console.c reads and writes: the configuration, the runtime status, the current menu,
-- and the output. The write callback is given; whether a reboot callback is, is a parameter.
use mqtt_field_bridge_app.Base.{ℕ, List, [], ◌∷◌, ◌++◌, Bytes, codes, take}
use mqtt_field_bridge_app.Config.{Config}
use mqtt_field_bridge_app.Runtime.{RuntimeStatus}

pub data Menu : Type 0 where
  main info settings device_network broker peer_bridge system : Menu

-- A line of a menu that dephy_cli_render_menu shows: a command and what it is for.
pub record MenuItem : Type 0 where
  pub command : Bytes
  pub label : Bytes

-- A call of the write callback, or a call of dephy_cli_render_menu, which is not in this repository.
pub data Output : Type 0 where
  text : Bytes → Output
  rendered : Bytes → List MenuItem → Bytes → Output

pub record Console (S : Type 0) : Type 0 where
  pub config : Config S
  pub status : RuntimeStatus
  pub current_menu : Menu
  pub output : List Output
  pub reboots : ℕ

abbrev pub line_max : ℕ
line_max = 255

module _ {S : Type 0} where
  -- pc_write of a printed text, which is cut to the 256 bytes of its buffer.
  unfoldable pub pc_write : Bytes → Console S → Console S
  pc_write printed t = record t { output = t.output ++ text (take line_max printed) ∷ [] }

  unfoldable pub pc_writes : List Bytes → Console S → Console S
  pc_writes [] t = t
  pc_writes (l ∷ ls) t = pc_writes ls (pc_write l t)

  unfoldable pub clear_screen : Console S → Console S
  clear_screen = pc_write (27 ∷ (codes "[2J" ++ (27 ∷ codes "[H")))

  unfoldable pub print_back_to_menu : Console S → Console S
  print_back_to_menu = pc_write (codes "\n0. return to menu\n")

  unfoldable pub render_menu : Bytes → List MenuItem → Bytes → Console S → Console S
  render_menu title items footer t = record t {
    output = t.output ++ rendered title items footer ∷ [];
  }
