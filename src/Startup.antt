-- ===== src/Startup.antt =====
-- main.c: the wait for the Ethernet link, the steps between the network and the broker, main up to its
-- loop, the broker's thread and the loop, and the long press.
mod Link
mod Network
mod PowerOn
mod Service
mod Entry
mod Stagger
mod Runs
mod Boot
mod Linked
mod Sized
mod Plain
mod Threads
unfoldable pub use Link.*
unfoldable pub use Network.*
pub use PowerOn.*
unfoldable pub use Service.*
unfoldable pub use Entry.*
unfoldable pub use Stagger.*
pub use Runs.*
unfoldable pub use Boot.*
pub use Linked.*
unfoldable pub use Sized.*
unfoldable pub use Plain.*
unfoldable pub use Threads.*
