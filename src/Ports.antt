-- ===== src/Ports.antt =====
-- v4/ports/pool.go: the pool of relay ports. Each method holds the pool's mutex from its first read
-- to its return, so it is one step on the state. Ports are positive (`new_pool` refuses others), so
-- a port is a number; a map is a function, and a missing status is Go's "". Times are nanoseconds.
pub mod Defs
pub mod Valid
pub mod Lifecycle
pub mod Reserve
pub mod Expire
pub mod Count
mod Tests
unfoldable pub use Defs.*
