-- ===== src/Reply.antt =====
-- src/reply.cpp and the `message_type` of include/request_handler.hpp: the bytes of one message to
-- a client. `reply` has one member, its buffer, so a reply is the list of its bytes; the overloads
-- of `add_to_buffers` are told apart by the type they add. A float is its IEEE 754 bit pattern, a
-- number below 2 ^ 32, laid out in memory lowest byte first (x86).
pub mod Framing
use ogmp_server.Base.{
  ℕ, ◌+◌, ◌*◌, ◌/◌, ◌%◌, ◌^◌, Bool, List, [], ◌∷◌, ◌++◌, ℤ, to_char, length, take, if◌then◌else◌,
}
use ogmp_server.Text.{Str, c_str}

abbrev pub Reply : Type 0
Reply = List ℕ

pub data MessageType : Type 0 where
  sign_on message time_out spawn_character remove_character update_game update_self : MessageType
  save_position load_position update_character error server_info level_list : MessageType
  player_list : MessageType

-- The enumerator's value, the first byte of every message.
abbrev pub message_code : MessageType → ℕ
message_code MessageType.sign_on = 0
message_code MessageType.message = 1
message_code MessageType.time_out = 2
message_code MessageType.spawn_character = 3
message_code MessageType.remove_character = 4
message_code MessageType.update_game = 5
message_code MessageType.update_self = 6
message_code MessageType.save_position = 7
message_code MessageType.load_position = 8
message_code MessageType.update_character = 9
message_code MessageType.error = 10
message_code MessageType.server_info = 11
message_code MessageType.level_list = 12
message_code MessageType.player_list = 13

-- The bytes at `content`, the first `size` of them.
unfoldable pub add_bytes : List ℕ → ℕ → Reply → Reply
add_bytes content size r = r ++ take size content

-- What `async_write` is given: one buffer.
unfoldable pub to_buffers : Reply → List (List ℕ)
to_buffers r = r ∷ []

unfoldable pub add_char : ℕ → Reply → Reply
add_char content r = r ++ content ∷ []

unfoldable pub add_message_type : MessageType → Reply → Reply
add_message_type content r = r ++ message_code content ∷ []

-- The number of bytes is pushed as a char, and so taken modulo 256.
unfoldable pub add_string : Str → Reply → Reply
add_string content r = let text = c_str content in r ++ length text % 256 ∷ text

unfoldable pub add_plain_text : Str → Reply → Reply
add_plain_text content r = r ++ c_str content

unfoldable pub add_bool : Bool → Reply → Reply
add_bool content r = r ++ (if content then 1 else 0) ∷ []

unfoldable pub add_int : ℤ → Reply → Reply
add_int content r = r ++ to_char content ∷ []

-- The four bytes of a float in memory order.
abbrev pub float_bytes : ℕ → List ℕ
float_bytes f = f % 256 ∷ f / 2 ^ 8 % 256 ∷ f / 2 ^ 16 % 256 ∷ f / 2 ^ 24 % 256 ∷ []

unfoldable pub add_float : ℕ → Reply → Reply
add_float f r = r ++ float_bytes f

-- The bytes of an int, highest first.
abbrev pub int_to_byte_array : ℕ → List ℕ
int_to_byte_array value =
    value / 2 ^ 24 % 256 ∷ value / 2 ^ 16 % 256 ∷ value / 2 ^ 8 % 256 ∷ value % 256 ∷ []

unfoldable pub add_size_byte : Reply → Reply
add_size_byte r = int_to_byte_array (length r) ++ r
