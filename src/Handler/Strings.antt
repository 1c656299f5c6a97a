-- ===== src/Handler/Strings.antt =====
-- The helpers of src/request_handler.cpp on strings, which no message of the game uses.
pub mod Separate
pub mod Uid
pub mod Url
pub mod Output
