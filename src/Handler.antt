-- ===== src/Handler.antt =====
-- src/request_handler.cpp: the messages of clients.
pub mod Session
pub mod Keeps
pub mod SignOn
pub mod Invariant
pub mod Accepted
pub mod Farewell
pub mod Update
pub mod Messages
pub mod Dispatch
pub mod Extends
pub mod Leaves
pub mod Strings
