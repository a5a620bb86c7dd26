-- ===== src/Runtime.antt =====
-- product_runtime.h and product_runtime.c: the status that the device shows, the state of each peer
-- slot, and the last publish test; then the proofs about them.
mod Status
mod Peers
mod Requests
mod Runs
mod Bounds
mod Numbers
mod Snapshot
unfoldable pub use Status.*
unfoldable pub use Peers.*
unfoldable pub use Requests.*
pub use Runs.*
pub use Bounds.*
unfoldable pub use Numbers.*
pub use Snapshot.*
