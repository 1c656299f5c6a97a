-- ===== src/Client.antt =====
-- src/client.cpp and include/client.hpp: what the server keeps of one player. The members have the
-- source's names, less the underscore at the end. Floats and doubles are IEEE 754 bit patterns, but
-- for the time of a death, which is only set from time(0) and is kept as its whole seconds.
-- `vector`s are lists from front to back. A getter of one member is the record's field.
pub mod Variables
pub mod Record
pub mod Setters
pub mod Untouched
pub mod History
pub mod Queues
pub use Record.{Client, Player, Uninitialised, one, ten, awake}
unfoldable pub use Record.{new_client}
