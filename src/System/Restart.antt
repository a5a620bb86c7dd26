-- ===== src/System/Restart.antt =====
-- A session at the console, and the power-on that follows it.
use mqtt_field_bridge_app.Base.{some, List, [], ◌∷◌, Bytes}
use mqtt_field_bridge_app.Runtime.{P2p}
use mqtt_field_bridge_app.Console.{Console}
use mqtt_field_bridge_app.StatusIo.{StatusIo}
use mqtt_field_bridge_app.System.{System}
use mqtt_field_bridge_app.System.Steps.{Build, on_line, console_line, Reach, later}

module _ {S T : Type 0} (b : Build S T) where
  unfoldable pub on_lines : P2p → List Bytes → System S T → System S T
  on_lines p2p [] s = s
  on_lines p2p (line ∷ lines) s = on_lines p2p lines (on_line b p2p (some line) s)

  pub on_lines-Reach :
      (p2p : P2p) (lines : List Bytes) (s : System S T) → Reach b s → Reach b (on_lines p2p lines s)
  unfolding on_lines
  on_lines-Reach p2p [] s h = h
  on_lines-Reach p2p (line ∷ lines) s h =
      on_lines-Reach p2p lines _ (later h (console_line p2p (some line)))
