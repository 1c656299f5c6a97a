-- ===== src/Handler/Dispatch.antt =====
-- `handle_request` of src/request_handler.cpp.
pub mod Returns
pub mod Faults
pub mod Keeps
use ogmp_server.Base.{
  ℕ, List, [], ◌∷◌, Option, none, some, get_elem?, Result, ok, err, out_of_bounds,
}
use ogmp_server.Reply.{MessageType, message_code}
use ogmp_server.Client.{Uninitialised}
use ogmp_server.Config.{Config}
use ogmp_server.Handler.Session.{Session}
use ogmp_server.Handler.SignOn.{handle_sign_on}
use ogmp_server.Handler.Update.{handle_update}
use ogmp_server.Handler.Messages.{
  handle_chat_message, handle_save_position_message, handle_load_position_message,
  handle_unknown_message, handle_player_list, handle_server_info, handle_level_list,
}

-- The enumerators in the order of their values.
abbrev message_table : List MessageType
message_table =
    MessageType.sign_on ∷ MessageType.message ∷ MessageType.time_out ∷ MessageType.spawn_character
    ∷ MessageType.remove_character ∷ MessageType.update_game ∷ MessageType.update_self
    ∷ MessageType.save_position ∷ MessageType.load_position ∷ MessageType.update_character
    ∷ MessageType.error ∷ MessageType.server_info ∷ MessageType.level_list ∷ MessageType.player_list
    ∷ []

-- The enumerator with the char's value.
unfoldable pub message_of : ℕ → Option MessageType
message_of b = get_elem? message_table b

-- The cases of the `switch`, with the index behind the first char.
unfoldable pub handle_message :
    Config → Uninitialised → ℕ → List ℕ → ℕ → MessageType → Session → Result Session
handle_message config u now data_ size MessageType.sign_on s = handle_sign_on config u data_ 1 s
handle_message config u now data_ size MessageType.update_game s = handle_update now data_ 1 size s
handle_message config u now data_ size MessageType.update_self s = ok s
handle_message config u now data_ size MessageType.message s = handle_chat_message data_ 1 s
handle_message config u now data_ size MessageType.save_position s =
    handle_save_position_message config s
handle_message config u now data_ size MessageType.load_position s =
    handle_load_position_message config s
handle_message config u now data_ size MessageType.server_info s = ok (handle_server_info config s)
handle_message config u now data_ size MessageType.level_list s = ok (handle_level_list config s)
handle_message config u now data_ size MessageType.player_list s = ok (handle_player_list s)
handle_message config u now data_ size _ s = ok (handle_unknown_message s)

-- `size` is the number of bytes that the last read transferred into the buffer `data_`.
unfoldable pub handle_request : Config → Uninitialised → ℕ → List ℕ → ℕ → Session → Result Session
handle_request config u now data_ size s = elim (get_elem? data_ 0) [
  | none ↦ err out_of_bounds
  | some b ↦ elim (message_of b) [
    | none ↦ ok (handle_unknown_message s)
    | some t ↦ handle_message config u now data_ size t s
  ]
]
