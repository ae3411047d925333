-- ===== src/Tests.antt =====
-- The theorems of the other modules at concrete inputs.
pub mod Data
pub mod Stream
pub mod Chat
pub mod Pages
pub mod Router
pub mod Links
pub mod System
pub mod Queries
pub mod Session
pub mod Contract
pub mod Server
