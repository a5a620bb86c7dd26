-- ===== src/Console.antt =====
-- product_console.c: what it reads and writes, its texts, menus and commands, and the dispatch of a
-- line; then the proofs about them.
mod Text
mod State
mod Menus
mod Show
mod Commands
mod Control
mod Dispatch
mod Pages
mod Sized
mod Effects
mod Lines
mod Valid
mod Thread
mod Numbers
mod Tokens
mod Ports
mod BrokerState
unfoldable pub use Text.*
unfoldable pub use State.*
unfoldable pub use Menus.*
unfoldable pub use Show.*
unfoldable pub use Commands.*
unfoldable pub use Control.*
unfoldable pub use Dispatch.*
pub use Pages.*
unfoldable pub use Valid.*
unfoldable pub use Thread.*
pub use Effects.*
pub use Lines.*
pub use Numbers.*
pub use Tokens.*
pub use Ports.*
pub use BrokerState.*
