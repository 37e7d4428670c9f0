-- ===== src/Tests.antt =====
-- Concrete parameters for the test runs: a C library that grants all memory, and a hash that is a
-- log of its changes.
pub mod Hash
mod Text
mod Mids
pub mod Codec
pub mod Station
mod Messages
mod Rounds
mod Logins
mod Codes
mod Mail
mod Files
mod Greetings
mod Programs
