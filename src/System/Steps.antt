-- ===== src/System/Steps.antt =====
-- The moves of the node's threads, one at a time: the console's, the HTTP server's, main's loop, the
-- broker's, and those of the work queue. A power-on is a move too; each is whole when the next begins.
use mqtt_field_bridge_app.Base.{
  ℕ, ◌+◌, ◌<◌, ◌≡◌, Bool, true, Option, Bytes, Rc, ◌==◌, if◌then◌else◌,
}
use mqtt_field_bridge_app.Config.{Settings, Platform, Config}
use mqtt_field_bridge_app.Bridge.{Mesh}
use mqtt_field_bridge_app.Runtime.{P2p}
use mqtt_field_bridge_app.Console.{handle_line}
use mqtt_field_bridge_app.Http.{Transaction, Request, zephyr_dynamic_handler}
use mqtt_field_bridge_app.StatusIo.{StatusIo, status_work_handler, button_work_handler}
use mqtt_field_bridge_app.Ethernet.{EthDriver}
use mqtt_field_bridge_app.Startup.{
  Node, Timers, Round, main_round, broker_service_entry, status_config_reset_press, rebooting,
  ready, main,
}
use mqtt_field_bridge_app.System.{
  System, console_of, with_console, server_of, with_server, node_of, with_node, started,
}

-- What the node is built and connected with.
pub record Build (S T : Type 0) : Type 0 where
  pub env : Platform S
  pub mesh : Mesh T
  pub has_led : Bool
  pub has_button : Bool

module _ {S T : Type 0} (b : Build S T) where
  unfoldable pub on_line : P2p → Option Bytes → System S T → System S T
  on_line p2p line s = with_console (handle_line b.env p2p true line (console_of s)).1 s

  unfoldable pub on_call : P2p → ℕ → Transaction → Request → System S T → System S T
  on_call p2p client transaction request s =
      let (response, slots, t) =
        zephyr_dynamic_handler b.env b.mesh p2p client transaction request s.slots (server_of s) in
      with_server slots t s

  unfoldable pub with_round : Node S T × Timers → System S T → System S T
  with_round (t, timers) s = record (with_node t s) { timers = timers }

  unfoldable pub on_round : Round → System S T → System S T
  on_round r s = with_round (main_round b.env b.mesh b.has_led s.settings r (node_of s, s.timers)) s

  -- The thread of the broker, up to its loop.
  unfoldable pub on_entry : Rc → ℕ → System S T → System S T
  on_entry rc now s =
      record (with_node (broker_service_entry b.env b.has_led rc now (node_of s)).0 s) {
        entered = s.entered + 1;
      }

  unfoldable pub on_tick : ℕ → System S T → System S T
  on_tick now s = record s { lamp = status_work_handler b.has_led b.has_button true now s.lamp }

  unfoldable pub pressed : Node S T × Bool → System S T → System S T
  pressed (t, reboot) s =
      let s' = with_node t s in if reboot then record s' { reboots = s'.reboots + 1 } else s'

  -- A sample of the button, with the callback that main gave to product_status_io_init.
  unfoldable pub on_sample : Bool → ℕ → System S T → System S T
  on_sample down now s =
      let lamp = button_work_handler b.has_led b.has_button true down now s.lamp in
      let s' = record s { lamp = lamp } in
      if lamp.reset_calls == s.lamp.reset_calls
      then s'
      else pressed (status_config_reset_press b.env b.has_led now (node_of s')) s'

-- From a memory and a store to the loop, with each attempt that ended in a reboot before.
pub data Starts {S T : Type 0} (b : Build S T) : Config S → System S T → Type 0 where
  begins :
      (driver : EthDriver) (link : ℕ → Bool) (now : ℕ) (c : Config S) (table : T) (lamp : StatusIo)
      {settings : Settings}
      → (main b.env b.mesh b.has_led driver link now c table lamp).0 ≡ ready settings
      → Starts b c (started settings (main b.env b.mesh b.has_led driver link now c table lamp).1)
  again :
      (driver : EthDriver) (link : ℕ → Bool) (now : ℕ) (c : Config S) (table : T) (lamp : StatusIo)
      {s : System S T}
      → (main b.env b.mesh b.has_led driver link now c table lamp).0 ≡ rebooting
      → Starts b (main b.env b.mesh b.has_led driver link now c table lamp).1.config s
      → Starts b c s

pub data Step {S T : Type 0} (b : Build S T) (s : System S T) : System S T → Type 0 where
  console_line : (p2p : P2p) (input : Option Bytes) → Step b s (on_line b p2p input s)
  http_call :
      (p2p : P2p) (client : ℕ) (transaction : Transaction) (request : Request)
      → Step b s (on_call b p2p client transaction request s)
  loop_round : (r : Round) → Step b s (on_round b r s)
  thread_entry : (rc : Rc) (now : ℕ) → s.entered < s.threads → Step b s (on_entry b rc now s)
  lamp_tick : (now : ℕ) → Step b s (on_tick b now s)
  button_sample : (down : Bool) (now : ℕ) → Step b s (on_sample b down now s)
  seeds_changed : (table : T) → Step b s (record s { table = table })
  power_on : {s' : System S T} → Starts b s.config s' → Step b s s'

-- The states that follow a first power-on with any memory and any store.
pub data Reach {S T : Type 0} (b : Build S T) : System S T → Type 0 where
  start : {c : Config S} {s : System S T} → Starts b c s → Reach b s
  later : {s s' : System S T} → Reach b s → Step b s s' → Reach b s'
