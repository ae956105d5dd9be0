-- ===== src/Control.antt =====
-- v4/control: the hub that registers control connections and pairs clients with servers.
pub mod Protocol
pub mod Hub
pub mod Pairing
pub mod Register
pub mod Grant
pub mod Choice
pub mod Once
pub mod Capacity
mod Tests
pub mod Loop
pub mod Serving
pub mod Kept
pub mod Online
pub mod Gateway
unfoldable pub use Protocol.*
unfoldable pub use Hub.*
unfoldable pub use Pairing.*
