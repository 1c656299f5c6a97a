-- ===== src/Parser.antt =====
-- src/request_parser.cpp and include/request_parser.hpp, request.hpp and header.hpp: the parser of
-- HTTP requests, one char at a time. A char is its byte; those from 128 on are the negative chars.
pub mod Chars
pub mod Consume
pub mod Invariant
pub mod Body
pub mod Steps
pub mod RoundTrip
