-- ===== src/Http.antt =====
-- provisioning_http.c: reading and writing JSON, the requests, the two servers and the connections;
-- then the proofs about them.
mod Json
mod Builders
mod Apply
mod Handlers
mod Posts
mod Linux
mod Zephyr
mod Page
mod Wire
mod Acts
mod Numbers
mod Sized
mod Runs
mod Valid
mod Sessions
mod Buffers
mod Agreement
mod Lists
mod Pieces
mod Sizes
mod Bounds
mod Transfer
mod Start
mod Accept
mod Routing
mod Segments
mod Strings
mod Fields
mod Objects
mod ConfigObject
mod Echo
unfoldable pub use Json.*
unfoldable pub use Builders.*
unfoldable pub use Apply.*
unfoldable pub use Handlers.*
unfoldable pub use Posts.*
unfoldable pub use Linux.*
unfoldable pub use Zephyr.*
unfoldable pub use Page.*
unfoldable pub use Wire.*
pub use Acts.*
unfoldable pub use Sessions.*
unfoldable pub use Buffers.*
pub use Agreement.*
unfoldable pub use Lists.*
pub use Sizes.*
pub use Bounds.*
pub use Transfer.*
unfoldable pub use Start.*
unfoldable pub use Accept.*
pub use Routing.*
unfoldable pub use Strings.*
pub use Fields.*
pub use ConfigObject.*
pub use Echo.*
