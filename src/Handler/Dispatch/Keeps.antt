-- ===== src/Handler/Dispatch/Keeps.antt =====
-- The invariant of a session, kept by every message of `handle_request` and by the end of a
-- connection, src/request_handler.cpp.
use ogmp_server.Base.{
  ℕ, ◌≡◌, refl, subst, not, List, some, ok, Ensures, Bool-cases, Option-cases, Result-cases, inl,
  inr, get_elem?,
}
use ogmp_server.Text.{Str}
use ogmp_server.Reply.{MessageType}
use ogmp_server.Client.{Client, Uninitialised}
use ogmp_server.Client.Queues
use ogmp_server.Client.Setters.{set_saved_posx, set_saved_posy, set_saved_posz}
use ogmp_server.Config.{Config}
use ogmp_server.Handler.Session.{Session}
use ogmp_server.Handler.Invariant.{
  IsSession, push_reply-IsSession, print-IsSession, on_client-IsSession, broadcast-IsSession,
  remove_client-IsSession, handle_sign_on-IsSession,
}
use ogmp_server.Handler.Update.Invariant.{handle_update-IsSession}
use ogmp_server.Handler.Messages.{
  chat, read_chat, handle_chat_message, save_position, handle_save_position_message,
  load_position_reply, handle_load_position_message, handle_unknown_message, handle_player_list,
  handle_server_info, handle_level_list, disconnect, client_disconnected,
}
use ogmp_server.Handler.Dispatch.{message_of, handle_message, handle_request}

chat-IsSession : (p : ℕ) (content : Str) (s : Session) → IsSession s → IsSession (chat p content s)
unfolding chat
chat-IsSession p content s v =
    on_client-IsSession _ (broadcast-IsSession _ (print-IsSession s v _) _ (some p)) p _
      (unfold Queues.add_to_inbox in refl)

save_position-name : (c : Client) → (save_position c).username ≡ c.username
unfolding save_position set_saved_posx set_saved_posy set_saved_posz
save_position-name c = refl

-- The handlers that begin by asking for the client.
module _ (config : Config) (data_ : List ℕ) (i : ℕ) (s : Session) (v : IsSession s) where
  handle_chat-IsSession : Ensures IsSession (handle_chat_message data_ i s)
  unfolding handle_chat_message
  handle_chat-IsSession = elim (Result-cases (read_chat data_ i)) [
    | inr (e, bad) ↦ rw (bad, handle_chat_message) tt
    | inl (r, fine) ↦
        rw (fine, handle_chat_message)
          (elim (Option-cases s.this_client) [
            | inl e ↦ rw (e, handle_chat_message) tt
            | inr (p, e) ↦ rw (e, handle_chat_message) (chat-IsSession p r.0.1 s v)
          ])
  ]

  handle_save-IsSession : Ensures IsSession (handle_save_position_message config s)
  unfolding handle_save_position_message
  handle_save-IsSession = elim (Bool-cases (not config.allow_teleport)) [
    | inl off ↦ rw (off, handle_save_position_message) v
    | inr on ↦ elim (Option-cases s.this_client) [
      | inl e ↦ rw (on, e, handle_save_position_message) tt
      | inr (p, e) ↦
          rw (on, e, handle_save_position_message)
            (on_client-IsSession s v p save_position (save_position-name (s.heap p)))
    ]
  ]

  handle_load-IsSession : Ensures IsSession (handle_load_position_message config s)
  unfolding handle_load_position_message
  handle_load-IsSession = elim (Bool-cases (not config.allow_teleport)) [
    | inl off ↦ rw (off, handle_load_position_message) v
    | inr on ↦ elim (Option-cases s.this_client) [
      | inl e ↦ rw (on, e, handle_load_position_message) tt
      | inr (p, e) ↦
          rw (on, e, handle_load_position_message)
            (push_reply-IsSession s v (load_position_reply (s.heap p)))
    ]
  ]

disconnect-IsSession : (p : ℕ) (s : Session) → IsSession s → IsSession (disconnect p s)
unfolding disconnect
disconnect-IsSession p s v =
    remove_client-IsSession _
      (broadcast-IsSession _ (print-IsSession _ (broadcast-IsSession s v _ (some p)) _) _ (some p))
      p

-- The end of a connection keeps the map of players well formed.
pub client_disconnected-IsSession : (s : Session) → IsSession s → IsSession (client_disconnected s)
unfolding client_disconnected
client_disconnected-IsSession s v = elim (Option-cases s.this_client) [
  | inl e ↦ rw (e, client_disconnected) v
  | inr (p, e) ↦ rw (e, client_disconnected) (disconnect-IsSession p s v)
]

module _ (config : Config) (u : Uninitialised) (now : ℕ) (data_ : List ℕ) (size : ℕ) (s : Session)
    (v : IsSession s) where
  unknown-IsSession : IsSession (handle_unknown_message s)
  unfolding handle_unknown_message
  unknown-IsSession = push_reply-IsSession s v _

  handle_message-IsSession :
      (t : MessageType) → Ensures IsSession (handle_message config u now data_ size t s)
  unfolding handle_message handle_player_list handle_server_info handle_level_list
  handle_message-IsSession MessageType.sign_on = handle_sign_on-IsSession config u data_ 1 s v
  handle_message-IsSession MessageType.update_game = handle_update-IsSession now data_ 1 size s v
  handle_message-IsSession MessageType.update_self = v
  handle_message-IsSession MessageType.message = handle_chat-IsSession config data_ 1 s v
  handle_message-IsSession MessageType.save_position = handle_save-IsSession config data_ 1 s v
  handle_message-IsSession MessageType.load_position = handle_load-IsSession config data_ 1 s v
  handle_message-IsSession MessageType.server_info = push_reply-IsSession s v _
  handle_message-IsSession MessageType.level_list = push_reply-IsSession s v _
  handle_message-IsSession MessageType.player_list = push_reply-IsSession s v _
  handle_message-IsSession _ = unknown-IsSession

  request-Ensures : Ensures IsSession (handle_request config u now data_ size s)
  unfolding handle_request
  request-Ensures = elim (Option-cases (get_elem? data_ 0)) [
    | inl e ↦ rw (e, handle_request) tt
    | inr (b, e) ↦ elim (Option-cases (message_of b)) [
      | inl none' ↦ rw (e, none', handle_request) unknown-IsSession
      | inr (t, some') ↦ rw (e, some', handle_request) (handle_message-IsSession t)
    ]
  ]

-- Every message that is handled to its end, whatever its bytes, keeps the invariant: the players'
-- names ascend in the map, no name is there twice, every entry's key is the name of the client it
-- points to, and every pointer has been allocated.
pub handle_request-IsSession :
    (config : Config) (u : Uninitialised) (now : ℕ) (data_ : List ℕ) (size : ℕ) (s t : Session)
    → IsSession s
    → handle_request config u now data_ size s ≡ ok t
    → IsSession t
handle_request-IsSession config u now data_ size s t v e =
    subst (Ensures IsSession) e (request-Ensures config u now data_ size s v)
