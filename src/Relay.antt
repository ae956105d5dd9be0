-- ===== src/Relay.antt =====
-- v4/relay: the data plane, which joins the two data connections of a session.
pub mod Hello
pub mod Handshake
pub mod Tcp
pub mod Listening
pub mod Valid
pub mod Sessions
pub mod Stale
pub mod Whole
pub mod Booting
pub mod Srt
pub mod Forget
pub mod Pipe
pub mod Flows
pub mod Duplex
mod Tests
