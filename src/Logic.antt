-- ===== src/Logic.antt =====
-- src/application/LogicSystem.cpp: the handlers that the worker thread runs, one for each request.
pub mod Lookup
pub mod Login
pub mod Friends
pub mod Chat
pub mod Dispatch
pub mod Keeps
pub mod Spares
pub mod Touches
pub mod Built
pub mod Bystander
pub mod Worker
pub mod Wakeup
pub mod Dealt
pub mod Guarded
pub mod Faultless
pub mod Authentic
pub mod Identity
pub mod Requests
pub mod Presence
pub mod Accepted
pub mod Cache
pub mod Notices
mod Tests
