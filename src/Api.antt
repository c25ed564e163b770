-- ===== src/Api.antt =====
-- confort.go: the library that the tests call.
pub mod Options
mod Tests
pub mod New
pub mod Params
pub mod Run
pub mod Build
pub mod Acquire
