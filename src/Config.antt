-- ===== src/Config.antt =====
-- v4/config: the port ranges and the checks of the configuration, and `itoa` of the data plane.
pub mod Numbers
pub mod Range
pub mod Settings
pub mod Printing
pub mod Itoa
pub mod Pools
mod Tests
