-- ===== src/System.antt =====
-- The whole node between two power-ons: what main.c, product_console.c, provisioning_http.c and
-- product_status_io.c share, and the part of it that each of them sees.
use mqtt_field_bridge_app.Base.{ℕ, List, []}
use mqtt_field_bridge_app.Config.{Settings, Config}
use mqtt_field_bridge_app.Runtime.{Runtime, runtime_init}
use mqtt_field_bridge_app.Console.{Menu, main, Output, Console}
use mqtt_field_bridge_app.Http.{Server, Slots, empty_slots}
use mqtt_field_bridge_app.StatusIo.{StatusIo}
use mqtt_field_bridge_app.Startup.{Node, Timers}
pub mod Steps
pub mod Invariant
pub mod Moves
pub mod Safety
pub mod Restart
pub mod Service
pub mod Sized
pub mod Pages

-- `settings` is the local variable of main. `entered` counts the calls of the entry function of the
-- broker's thread.
pub record System (S T : Type 0) : Type 0 where
  pub config : Config S
  pub runtime : Runtime
  pub table : T
  pub lamp : StatusIo
  pub slots : Slots
  pub current_menu : Menu
  pub output : List Output
  pub reboots : ℕ
  pub broker_thread_started : ℕ
  pub threads : ℕ
  pub entered : ℕ
  pub timers : Timers
  pub settings : Settings

module _ {S T : Type 0} where
  unfoldable pub console_of : System S T → Console S
  console_of s = record {
    config = s.config;
    status = s.runtime.status;
    current_menu = s.current_menu;
    output = s.output;
    reboots = s.reboots;
  }

  unfoldable pub with_console : Console S → System S T → System S T
  with_console t s = record s {
    config = t.config;
    runtime = record s.runtime { status = t.status };
    current_menu = t.current_menu;
    output = t.output;
    reboots = t.reboots;
  }

  unfoldable pub server_of : System S T → Server S T
  server_of s = record {
    config = s.config;
    runtime = s.runtime;
    table = s.table;
    reboots = s.reboots;
  }

  unfoldable pub with_server : Slots → Server S T → System S T → System S T
  with_server slots t s = record s {
    config = t.config;
    runtime = t.runtime;
    table = t.table;
    reboots = t.reboots;
    slots = slots;
  }

  unfoldable pub node_of : System S T → Node S T
  node_of s = record {
    config = s.config;
    status = s.runtime.status;
    table = s.table;
    lamp = s.lamp;
    broker_thread_started = s.broker_thread_started;
    threads = s.threads;
  }

  unfoldable pub with_node : Node S T → System S T → System S T
  with_node t s = record s {
    config = t.config;
    runtime = record s.runtime { status = t.status };
    table = t.table;
    lamp = t.lamp;
    broker_thread_started = t.broker_thread_started;
    threads = t.threads;
  }

  -- At the first round of the loop, behind what main did until then.
  unfoldable pub started : Settings → Node S T → System S T
  started settings t = record {
    config = t.config;
    runtime = record runtime_init { status = t.status };
    table = t.table;
    lamp = t.lamp;
    slots = empty_slots;
    current_menu = main;
    output = [];
    reboots = 0;
    broker_thread_started = t.broker_thread_started;
    threads = t.threads;
    entered = 0;
    timers = record { broker_started_ms = 0; peer_zero_since_ms = 0; peer_zero_last_log_ms = 0 };
    settings = settings;
  }
