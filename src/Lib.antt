-- ===== src/Lib.antt =====
-- The game server of Overgrowth multiplayer: the code of src/ and include/ as functions, with what
-- makes it correct.
--
-- A connection reads the bytes of a message into a buffer and hands them to the request handler,
-- which reads the message, changes the connection's client and the map of players that all
-- connections share, and leaves replies to be written back. What players do reaches the others in
-- two ways: messages go into the inboxes of the players on the same level, and a player's update
-- goes into a history from which each other player's next update takes the variables it has missed.
-- A connection ends when its read fails, when it is silent for too long, or when the server stops;
-- its client is then taken out of the map.
--
-- The files, and the code that they are about:
--   Text, StringMap: std::string as bytes, and std::map with string keys as its sorted entries.
--   Reply: src/reply.cpp, the bytes of a message; Reply/Framing: the size in front of a message.
--   Input: the readers GetString, GetFloat, GetBool and GetInt of src/request_handler.cpp, which
--     fail where they would read behind the buffer; Input/Bounds and Input/RoundTrip.
--   Client: src/client.cpp and include/client.hpp, in Client/Variables (include/shared.hpp), Record,
--     Setters with Untouched, History (add_history, get_missing_update_variable_types) and Queues.
--   Config: the settings of include/config.hpp; Config/Reading: the constructor of src/config.cpp.
--   MimeTypes: src/mime_types.cpp.
--   Manager: src/client_manager.cpp. A client_ptr is the number of a cell of a heap, so that a
--     connection and the map share a client. Manager/Levels: get_level_list; Others: get_clients;
--     Inactive: pop_inactive_clients.
--   Handler: src/request_handler.cpp. Session is the state a handler works on; SignOn, Update,
--     Messages (with client_disconnected) and Dispatch (handle_request) are the handlers. The parts
--     of HandleUpdate are Update/Read, Life and Send; Relay and Delivery are about Send, Inbox about
--     the inbox, and Loop (with Values, Untouched, Recorded, Replica and Converge) about a
--     reader's copy of a player. Keeps, Extends and Leaves are about what a message leaves alone.
--     Strings has the helpers seperate_string, create_new_uid, url_decode and encode_output.
--   Network: src/connection.cpp, src/connection_manager.cpp and src/server.cpp. Connection is a
--     connection with its outstanding operations, World the connections with the handler's state and
--     the completion handlers, Steps the runs of the server. Invariant has what every run keeps:
--     Store (the shared state), Watch (reads and timers), Local (single connections). Stream,
--     Delivery, Chat, Isolation with Clients, Progress, Silence, Shutdown with Ends, and Again are
--     about what connections are sent, a chat line on its way, the other players, the messages that
--     arrive, silent peers, the end after a signal, and a second stop.
--   Log: src/log.cpp; Log/RoundTrip and Log/Forged are about the file and about chat lines in it.
--   Startup: src/main.cpp, with the constructor of src/server.cpp.
--   Parser: src/request_parser.cpp, the automaton that reads an HTTP request.
--   Base: names and lemmas that all of them use. Examples: three players, and runs of the code.
--
-- How code is modelled: a float is the number of its 32 bits, and only its sign and zero are looked
-- at; a double is the number of its 64 bits, but for the time of a death, in whole seconds; an int is
-- an integer; a char is its byte. A handler gives `ok` with the session after it, or `err` where the
-- code would read behind the buffer or through an empty pointer. The clock, the arithmetic of
-- doubles, what the constructor leaves uninitialised, and what rand returns are arguments. The loop
-- of HandleUpdate has fuel, a round for each byte of the message, which is enough since a round reads
-- at least one byte; the loop of seperate_string has a round more than the string has bytes, and
-- takes a byte off the string at least in each. The readers' loops run over the length that was read.
--
-- boost.asio is not part of the source: a step of the server is one of its completion handlers, or
-- the arrival of bytes, or a wait that expires, and the premises of the steps are what boost.asio
-- documents of the operations. One thread runs the handlers, so that a handler is a single step; the
-- steps come in any order. The address of a new connection is one that no connection has had.
-- boost::replace_all is an argument, with the hypothesis that it replaces every occurrence of a char.
-- A property tree is what its getters return. In Startup the calls of boost are arguments that return
-- or throw, and in Log strftime is an argument, and whether the file opens.
--
-- Not modelled: the mutex (a method runs at a time); what goes to the terminal, but for a start that
-- fails; what becomes of a write once `async_write` has been called with a reply (do_write starts a
-- write for each reply at once and erases the reply, and the socket may be closed by then, so that
-- the model keeps only what each call is given); the memory of a connection that has been destroyed.
-- In the steps the lines handed to log::print are kept as texts; what they make of the file is in
-- Log. The parser's result is not looked at by a connection, and parse never runs the automaton, so
-- that the steps leave the parser out.
pub mod Base
pub mod Text
pub mod StringMap
pub mod Reply
pub mod Input
pub mod Log
pub mod Client
pub mod Config
pub mod MimeTypes
pub mod Manager
pub mod Handler
pub mod Network
pub mod Parser
pub mod Startup
pub mod Examples
