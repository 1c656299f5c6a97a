-- ===== src/Handler/Keeps/Messages.antt =====
-- The other messages and the end of a connection, branch by branch, and the store of clients: the
-- handlers of src/request_handler.cpp on chat lines and positions, and `client_disconnected`.
use ogmp_server.Base.{
  true, false, Fault, null_client, ℕ, ◌≡◌, inl, inr, not, List, none, some, ok, err, arith,
  Option-cases,
}
use ogmp_server.Text.{Str}
use ogmp_server.Client.{Client}
use ogmp_server.Client.History.Cycle.{IsHistory}
use ogmp_server.Client.Setters.{set_saved_posx, set_saved_posy, set_saved_posz}
use ogmp_server.Config.{Config}
use ogmp_server.Handler.Session.{Session, on_client, push_reply}
use ogmp_server.Handler.Keeps.{
  Keeps, Keeps-refl, Keeps-trans, print-Keeps, on_client-Keeps, broadcast-Keeps,
  remove_client-Keeps,
}
use ogmp_server.Handler.Update.History.{add_to_inbox-IsHistory}
use ogmp_server.Handler.Messages.{
  chat, read_chat, handle_chat_message, save_position, handle_save_position_message,
  load_position_reply, handle_load_position_message, disconnect, client_disconnected,
}

pub chat-Keeps : (p : ℕ) (content : Str) (s : Session) → Keeps s (chat p content s)
unfolding chat
chat-Keeps p content s =
    Keeps-trans s _ _ (Keeps-trans s _ _ (print-Keeps s _) (broadcast-Keeps _ _ (some p)))
      (on_client-Keeps _ p _ (λ h. add_to_inbox-IsHistory _ h _))

pub save_position-IsHistory : (c : Client) → IsHistory c → IsHistory (save_position c)
unfolding save_position set_saved_posx set_saved_posy set_saved_posz
save_position-IsHistory c h = record { index = h.index; size = h.size; chain = h.chain }

module _ (data_ : List ℕ) (s : Session) where
  pub chat_fault : (e : Fault) → read_chat data_ 1 ≡ err e → handle_chat_message data_ 1 s ≡ err e
  unfolding handle_chat_message
  chat_fault e bad = ground arith

  pub chat_null :
      (r : (Str × Str) × ℕ)
      → read_chat data_ 1 ≡ ok r
      → s.this_client ≡ none
      → handle_chat_message data_ 1 s ≡ err null_client
  unfolding handle_chat_message
  chat_null r fine e = ground arith

  pub chat_read :
      (r : (Str × Str) × ℕ) (p : ℕ)
      → read_chat data_ 1 ≡ ok r
      → s.this_client ≡ some p
      → handle_chat_message data_ 1 s ≡ ok (chat p r.0.1 s)
  unfolding handle_chat_message
  chat_read r p fine e = ground arith

module _ (config : Config) (s : Session) where
  pub save_off : not config.allow_teleport ≡ true → handle_save_position_message config s ≡ ok s
  unfolding handle_save_position_message
  save_off off = ground arith

  pub save_null :
      not config.allow_teleport ≡ false
      → s.this_client ≡ none
      → handle_save_position_message config s ≡ err null_client
  unfolding handle_save_position_message
  save_null on e = ground arith

  pub save_on :
      (p : ℕ)
      → not config.allow_teleport ≡ false
      → s.this_client ≡ some p
      → handle_save_position_message config s ≡ ok (on_client p save_position s)
  unfolding handle_save_position_message
  save_on p on e = ground arith

  pub load_off : not config.allow_teleport ≡ true → handle_load_position_message config s ≡ ok s
  unfolding handle_load_position_message
  load_off off = ground arith

  pub load_null :
      not config.allow_teleport ≡ false
      → s.this_client ≡ none
      → handle_load_position_message config s ≡ err null_client
  unfolding handle_load_position_message
  load_null on e = ground arith

  pub load_on :
      (p : ℕ)
      → not config.allow_teleport ≡ false
      → s.this_client ≡ some p
      → handle_load_position_message config s ≡ ok (push_reply (load_position_reply (s.heap p)) s)
  unfolding handle_load_position_message
  load_on p on e = ground arith

pub disconnected_none : (s : Session) → s.this_client ≡ none → client_disconnected s ≡ s
unfolding client_disconnected
disconnected_none s e = ground arith

pub disconnected_some :
    (s : Session) (p : ℕ) → s.this_client ≡ some p → client_disconnected s ≡ disconnect p s
unfolding client_disconnected
disconnected_some s p e = ground arith

disconnect-Keeps : (p : ℕ) (s : Session) → Keeps s (disconnect p s)
unfolding disconnect
disconnect-Keeps p s =
    Keeps-trans s _ _ (Keeps-trans s _ _ (broadcast-Keeps s _ (some p)) (print-Keeps _ _))
      (Keeps-trans _ _ _ (broadcast-Keeps _ _ (some p)) (remove_client-Keeps _ (some p)))

pub client_disconnected-Keeps : (s : Session) → Keeps s (client_disconnected s)
client_disconnected-Keeps s = elim (Option-cases s.this_client) [
  | inl e ↦ rw (disconnected_none s e) (Keeps-refl s)
  | inr (p, e) ↦ rw (disconnected_some s p e) (disconnect-Keeps p s)
]
