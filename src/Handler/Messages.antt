-- ===== src/Handler/Messages.antt =====
-- The shorter handlers of src/request_handler.cpp.
use ogmp_server.Base.{
  ℕ, false, not, List, [], ◌++◌, none, some, pos, Result, ok, err, null_client, if◌then◌else◌,
}
use ogmp_server.Text.{Str, codes}
use ogmp_server.Reply.{
  Reply, MessageType, add_message_type, add_string, add_bool, add_int, add_float, add_plain_text,
}
use ogmp_server.Input.{Read, ◌>>=◌, pure, get_string}
use ogmp_server.Client.{Client}
use ogmp_server.Client.Setters.{set_saved_posx, set_saved_posy, set_saved_posz}
use ogmp_server.Client.Queues
use ogmp_server.Config.{Config}
use ogmp_server.Manager.{add_to_inbox, remove_client, get_player_list, get_nr_players}
use ogmp_server.Manager.Levels.{get_level_list}
use ogmp_server.Handler.Session.{Session, push_reply, on_client, on_server, print, server_message}

-- The two strings of a chat message, its source and its content.
unfoldable pub read_chat : Read (Str × Str)
read_chat = do source ← get_string; content ← get_string; pure (source, content)

unfoldable pub chat_reply : Str → Str → Reply
chat_reply username content =
    add_bool false
      (add_string content (add_string username (add_message_type MessageType.message [])))

-- The message goes to the players on the sender's level and to the sender.
unfoldable pub chat : ℕ → Str → Session → Session
chat p content s =
    let message = chat_reply (s.heap p).username content in
    let s1 = print ((s.heap p).username ++ (codes ": " ++ content)) s in
    on_client p (Queues.add_to_inbox message) (on_server (add_to_inbox message (some p)) s1)

-- The source that the message names is read and not used.
unfoldable pub handle_chat_message : List ℕ → ℕ → Session → Result Session
handle_chat_message data_ data_index s = elim (read_chat data_ data_index) [
  | err e ↦ err e
  | ok (strings, i) ↦ elim s.this_client [
    | none ↦ err null_client
    | some p ↦ ok (chat p strings.1 s)
  ]
]

unfoldable pub save_position : Client → Client
save_position c = set_saved_posz c.posz (set_saved_posy c.posy (set_saved_posx c.posx c))

unfoldable pub handle_save_position_message : Config → Session → Result Session
handle_save_position_message config s =
    if not config.allow_teleport
    then ok s
    else elim s.this_client [ none ↦ err null_client | some p ↦ ok (on_client p save_position s) ]

unfoldable pub load_position_reply : Client → Reply
load_position_reply c = add_float c.saved_posz (
    add_float c.saved_posy (add_float c.saved_posx (add_message_type MessageType.load_position [])))

unfoldable pub handle_load_position_message : Config → Session → Result Session
handle_load_position_message config s =
    if not config.allow_teleport then ok s else elim s.this_client [
      | none ↦ err null_client
      | some p ↦ ok (push_reply (load_position_reply (s.heap p)) s)
    ]

unfoldable pub handle_unknown_message : Session → Session
handle_unknown_message = push_reply (add_plain_text (codes "Go away!") [])

unfoldable pub handle_player_list : Session → Session
handle_player_list s =
    push_reply
      (get_player_list s.this_client s.server (add_message_type MessageType.player_list [])) s

unfoldable pub handle_server_info : Config → Session → Session
handle_server_info config s =
    push_reply
      (add_int (pos (get_nr_players s.server))
        (add_string config.server_name (add_message_type MessageType.server_info [])))
      s

unfoldable pub handle_level_list : Config → Session → Session
handle_level_list config s =
    push_reply (get_level_list config s.server (add_message_type MessageType.level_list [])) s

unfoldable pub left : Str → Str
left username = username ++ codes " has left the room."

unfoldable pub remove_character_reply : Str → Reply
remove_character_reply username =
    add_string username (add_message_type MessageType.remove_character [])

-- The end of a connection whose client is in cell `p`.
unfoldable pub disconnect : ℕ → Session → Session
disconnect p s =
    let text = left (s.heap p).username in
    let s1 = on_server (add_to_inbox (server_message text) (some p)) s in
    let s2 = print text s1 in
    let s3 = on_server (add_to_inbox (remove_character_reply (s2.heap p).username) (some p)) s2 in
    on_server (remove_client (some p)) s3

unfoldable pub client_disconnected : Session → Session
client_disconnected s = elim s.this_client [ none ↦ s | some p ↦ disconnect p s ]
