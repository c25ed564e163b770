-- ===== src/Beacon.antt =====
-- internal/beacon: the server that shares the locks between test processes.
pub mod Streams
pub mod Requests
pub mod Containers
pub mod Client
pub mod Address
pub mod Connect
mod Tests
