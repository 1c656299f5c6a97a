-- ===== src/Handler/Extends.antt =====
-- How a message changes the store of clients, and what it makes the connection's client:
-- `handle_request` of src/request_handler.cpp.
use ogmp_server.Base.{
  ℕ, suc, ◌≤◌, ◌<◌, ◌≡◌, ◌⊎◌, inl, inr, subst, not, List, [], none, some, ok, arith, Ensures,
  Bool-cases, Option-cases, Result-cases, get_elem?,
}
use ogmp_server.Reply.{MessageType}
use ogmp_server.Client.{Client, Uninitialised, new_client}
use ogmp_server.Client.History.Cycle.{new_client-IsHistory}
use ogmp_server.Client.Setters.{set_all_variables_old}
use ogmp_server.Config.{Config}
use ogmp_server.Handler.Session.{Session, make_client}
use ogmp_server.Handler.SignOn.{read_sign_on, handle_sign_on}
use ogmp_server.Handler.Keeps.{
  Keeps, Keeps-refl, Histories, Histories-write, push_reply-Keeps, print-Keeps, on_client-Keeps,
}
use ogmp_server.Handler.Invariant.{handle_sign_on-again, handle_sign_on_fault, handle_sign_on_read}
use ogmp_server.Handler.Keeps.SignOn.{sign_on-Keeps}
use ogmp_server.Handler.Keeps.Messages.{
  chat-Keeps, save_position-IsHistory, chat_fault, chat_null, chat_read, save_off, save_null,
  save_on, load_off, load_null, load_on,
}
use ogmp_server.Handler.Update.{handle_update}
use ogmp_server.Handler.Update.Read.{read_variables}
use ogmp_server.Handler.Update.Keeps.{read_variables-IsSame', IsSame}
use ogmp_server.Handler.Update.History.{finish_update-Keeps}
use ogmp_server.Handler.Update.Invariant.{
  handle_update_null, handle_update_fault, handle_update_read,
}
use ogmp_server.Handler.Messages.{
  read_chat, handle_chat_message, save_position, handle_save_position_message, load_position_reply,
  handle_load_position_message, handle_unknown_message, handle_player_list, handle_server_info,
  handle_level_list,
}
use ogmp_server.Handler.Dispatch.{message_of, handle_message, handle_request}

-- The connection's client is the one that it was, or a new one in the next cell.
pub record Extends (s t : Session) : Type 0 where
  pub cells : s.next ≤ t.next
  pub client :
      (t.this_client ≡ s.this_client)
      ⊎ ((s.this_client ≡ none) × (t.this_client ≡ some s.next) × (s.next < t.next))
  pub histories : Histories s.heap → Histories t.heap

Keeps-Extends : (s t : Session) → Keeps s t → Extends s t
Keeps-Extends s t k = record {
  cells = ground (arith, k.cells);
  client = inl k.client;
  histories = k.histories;
}

make_client-Histories :
    (u : Uninitialised) (s : Session) → Histories s.heap → Histories (make_client u s).heap
unfolding make_client
make_client-Histories u s h =
    Histories-write s.next (new_client u) s.heap (new_client-IsHistory u) h

-- A sign-on on a connection without a client allocates one, whether it is accepted or not.
signed-Extends :
    (u : Uninitialised) (s t : Session)
    → s.this_client ≡ none
    → Keeps (make_client u s) t
    → Extends s t
unfolding make_client
signed-Extends u s t fresh k = record {
  cells = ground (arith, k.cells);
  client = inr (fresh, k.client, ground (arith, k.cells));
  histories = λ h. k.histories (make_client-Histories u s h);
}

set_all_variables_old-IsSame : (c d : Client) → IsSame (set_all_variables_old c) d → IsSame c d
unfolding set_all_variables_old
set_all_variables_old-IsSame c d e = e

module _ (config : Config) (u : Uninitialised) (now : ℕ) (data_ : List ℕ) (size : ℕ)
    (s : Session) where
  same : Extends s s
  same = Keeps-Extends s s (Keeps-refl s)

  handle_sign_on-Extends : Ensures (Extends s) (handle_sign_on config u data_ 1 s)
  handle_sign_on-Extends = elim (Option-cases s.this_client) [
    | inr (p, e) ↦
        rw (handle_sign_on-again config u data_ 1 s p e) (Keeps-Extends s _ (print-Keeps s _))
    | inl fresh ↦ elim (Result-cases (read_sign_on data_ 1)) [
      | inr (e, bad) ↦ rw (handle_sign_on_fault config u data_ 1 s e fresh bad) tt
      | inl (r, fine) ↦
          rw (handle_sign_on_read config u data_ 1 s r.0 r.1 fresh fine)
            (signed-Extends u s _ fresh (sign_on-Keeps config r.0 s.next (make_client u s)))
    ]
  ]

  handle_update-Extends : Ensures (Extends s) (handle_update now data_ 1 size s)
  handle_update-Extends = elim (Option-cases s.this_client) [
    | inl e ↦ rw (handle_update_null now data_ 1 size s e) tt
    | inr (p, here) ↦
        elim (Result-cases
          (read_variables (suc size) size data_ 1 (set_all_variables_old (s.heap p)) [])) [
            | inr (e, bad) ↦ rw (handle_update_fault now data_ 1 size s p e here bad) tt
            | inl (r, fine) ↦ rw (handle_update_read now data_ 1 size s p r.0 r.1 here fine) (
                Keeps-Extends s _ (
                  finish_update-Keeps now p r.0 r.1 s (
                    set_all_variables_old-IsSame (s.heap p) r.0 (
                      read_variables-IsSame' (suc size) size data_ 1
                        (set_all_variables_old (s.heap p)) [] r fine))))
          ]
  ]

  handle_chat-Extends : Ensures (Extends s) (handle_chat_message data_ 1 s)
  handle_chat-Extends = elim (Result-cases (read_chat data_ 1)) [
    | inr (e, bad) ↦ rw (chat_fault data_ s e bad) tt
    | inl (r, fine) ↦ elim (Option-cases s.this_client) [
      | inl e ↦ rw (chat_null data_ s r fine e) tt
      | inr (p, e) ↦ rw (chat_read data_ s r p fine e) (Keeps-Extends s _ (chat-Keeps p r.0.1 s))
    ]
  ]

  handle_save-Extends : Ensures (Extends s) (handle_save_position_message config s)
  handle_save-Extends = elim (Bool-cases (not config.allow_teleport)) [
    | inl off ↦ rw (save_off config s off) same
    | inr on ↦ elim (Option-cases s.this_client) [
      | inl e ↦ rw (save_null config s on e) tt
      | inr (p, e) ↦ rw (save_on config s p on e) (
          Keeps-Extends s _
            (on_client-Keeps s p save_position (save_position-IsHistory (s.heap p))))
    ]
  ]

  handle_load-Extends : Ensures (Extends s) (handle_load_position_message config s)
  handle_load-Extends = elim (Bool-cases (not config.allow_teleport)) [
    | inl off ↦ rw (load_off config s off) same
    | inr on ↦ elim (Option-cases s.this_client) [
      | inl e ↦ rw (load_null config s on e) tt
      | inr (p, e) ↦
          rw (load_on config s p on e)
            (Keeps-Extends s _ (push_reply-Keeps s (load_position_reply (s.heap p))))
    ]
  ]

  unknown-Extends : Extends s (handle_unknown_message s)
  unfolding handle_unknown_message
  unknown-Extends = Keeps-Extends s _ (push_reply-Keeps s _)

  handle_message-Extends :
      (t : MessageType) → Ensures (Extends s) (handle_message config u now data_ size t s)
  unfolding handle_message handle_player_list handle_server_info handle_level_list
  handle_message-Extends MessageType.sign_on = handle_sign_on-Extends
  handle_message-Extends MessageType.update_game = handle_update-Extends
  handle_message-Extends MessageType.update_self = same
  handle_message-Extends MessageType.message = handle_chat-Extends
  handle_message-Extends MessageType.save_position = handle_save-Extends
  handle_message-Extends MessageType.load_position = handle_load-Extends
  handle_message-Extends MessageType.server_info = Keeps-Extends s _ (push_reply-Keeps s _)
  handle_message-Extends MessageType.level_list = Keeps-Extends s _ (push_reply-Keeps s _)
  handle_message-Extends MessageType.player_list = Keeps-Extends s _ (push_reply-Keeps s _)
  handle_message-Extends _ = unknown-Extends

  request-Extends : Ensures (Extends s) (handle_request config u now data_ size s)
  unfolding handle_request
  request-Extends = elim (Option-cases (get_elem? data_ 0)) [
    | inl e ↦ rw (e, handle_request) tt
    | inr (b, e) ↦ elim (Option-cases (message_of b)) [
      | inl none' ↦ rw (e, none', handle_request) unknown-Extends
      | inr (t, some') ↦ rw (e, some', handle_request) (handle_message-Extends t)
    ]
  ]

  pub handle_request-Extends :
      (t : Session) → handle_request config u now data_ size s ≡ ok t → Extends s t
  handle_request-Extends t e = subst (Ensures (Extends s)) e request-Extends
