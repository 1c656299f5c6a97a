-- ===== src/Network.antt =====
-- src/connection.cpp, src/connection_manager.cpp and src/server.cpp: the connections of the server and
-- what their completion handlers do.
pub mod Tables
pub mod Connection
pub mod World
pub mod Steps
pub mod Write
pub mod Stop
pub mod Watch
pub mod Invariant
pub mod Progress
pub mod Stream
pub mod Silence
pub mod Shutdown
pub mod Ends
pub mod Again
pub mod Delivery
pub mod Clients
pub mod Isolation
pub mod Chat
