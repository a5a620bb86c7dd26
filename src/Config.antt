-- ===== src/Config.antt =====
-- product_config.h and product_config.c: the records, the validators, the defaults, the network mode
-- names, the store behind them and the operations; then the proofs about them.
mod Data
mod Validate
mod Defaults
mod Modes
mod Store
mod Ops
mod Valid
mod Persist
mod Slots
mod Migration
mod Synced
mod Failures
mod Sized
mod Effects
mod Stored
unfoldable pub use Data.*
unfoldable pub use Validate.*
unfoldable pub use Defaults.*
unfoldable pub use Modes.*
pub use Store.*
unfoldable pub use Ops.*
pub use Valid.*
pub use Persist.*
pub use Slots.*
pub use Migration.*
pub use Synced.*
pub use Failures.*
pub use Sized.*
pub use Effects.*
pub use Stored.*
