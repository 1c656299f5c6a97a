-- ===== src/Handler/Leaves/Request.antt =====
-- What the messages of a connection do to the other players: `handle_request` of
-- src/request_handler.cpp.
use ogmp_server.Base.{
  ℕ, suc, ◌<◌, ◌≡◌, ◌≢◌, inl, inr, ap, ◌∙◌, subst, not, List, [], some, ok, arith, Ensures,
  Bool-cases, Option-cases, Result-cases, get_elem?,
}
use ogmp_server.Reply.{MessageType}
use ogmp_server.Client.{Uninitialised, new_client}
use ogmp_server.Client.Setters.{set_all_variables_old}
use ogmp_server.Config.{Config}
use ogmp_server.Handler.Session.{Session, make_client}
use ogmp_server.Handler.SignOn.{SignOnData, read_sign_on, sign_on, handle_sign_on}
use ogmp_server.Handler.Keeps.Messages.{
  chat_fault, chat_null, chat_read, save_off, save_null, save_on, load_off, load_null, load_on,
}
use ogmp_server.Handler.Invariant.{handle_sign_on-again, handle_sign_on_fault, handle_sign_on_read}
use ogmp_server.Handler.Leaves.Parts.{sign_on-Leaves, finish_update-Leaves, chat-Leaves}
use ogmp_server.Handler.Leaves.{
  write-other, HasMore, Leaves, Leaves-refl, Leaves-trans, on_client-Leaves, push_reply-Leaves,
  print-Leaves,
}
use ogmp_server.Handler.Update.{handle_update}
use ogmp_server.Handler.Update.Read.{read_variables}
use ogmp_server.Handler.Update.Invariant.{
  handle_update_null, handle_update_fault, handle_update_read,
}
use ogmp_server.Handler.Messages.{
  read_chat, handle_chat_message, save_position, handle_save_position_message, load_position_reply,
  handle_load_position_message, handle_unknown_message, handle_player_list, handle_server_info,
  handle_level_list,
}
use ogmp_server.Handler.Dispatch.{message_of, handle_message, handle_request}

module _ (config : Config) (u : Uninitialised) (now : ℕ) (data_ : List ℕ) (size : ℕ) (s : Session)
    (q : ℕ) (allocated : q < s.next) (other : s.this_client ≢ some q) where
  apart : (p : ℕ) → s.this_client ≡ some p → p ≢ q
  apart p e f = other (e ∙ ap some f)

  signed : (d : SignOnData) → Leaves q s (sign_on config d s.next (make_client u s))
  unfolding make_client
  signed d =
      Leaves-trans s (make_client u s) _
        (record {
          has_more = rw (write-other s.next q (new_client u) s.heap fresh) (Leaves-refl s).has_more;
        })
        (sign_on-Leaves s.next fresh config d (make_client u s))
    where
      fresh : s.next ≢ q
      fresh e = absurd (omega (arith, e, allocated))

  handle_sign_on-Leaves : Ensures (Leaves q s) (handle_sign_on config u data_ 1 s)
  handle_sign_on-Leaves = elim (Option-cases s.this_client) [
    | inr (p, e) ↦ rw (handle_sign_on-again config u data_ 1 s p e) (print-Leaves s _)
    | inl fresh ↦ elim (Result-cases (read_sign_on data_ 1)) [
      | inr (e, bad) ↦ rw (handle_sign_on_fault config u data_ 1 s e fresh bad) tt
      | inl (r, fine) ↦ rw (handle_sign_on_read config u data_ 1 s r.0 r.1 fresh fine) (signed r.0)
    ]
  ]

  handle_update-Leaves : Ensures (Leaves q s) (handle_update now data_ 1 size s)
  handle_update-Leaves = elim (Option-cases s.this_client) [
    | inl e ↦ rw (handle_update_null now data_ 1 size s e) tt
    | inr (p, here) ↦
        elim (Result-cases
          (read_variables (suc size) size data_ 1 (set_all_variables_old (s.heap p)) [])) [
            | inr (e, bad) ↦ rw (handle_update_fault now data_ 1 size s p e here bad) tt
            | inl (r, fine) ↦
                rw (handle_update_read now data_ 1 size s p r.0 r.1 here fine)
                  (finish_update-Leaves p (apart p here) now r.0 r.1 s)
          ]
  ]

  handle_chat-Leaves : Ensures (Leaves q s) (handle_chat_message data_ 1 s)
  handle_chat-Leaves = elim (Result-cases (read_chat data_ 1)) [
    | inr (e, bad) ↦ rw (chat_fault data_ s e bad) tt
    | inl (r, fine) ↦ elim (Option-cases s.this_client) [
      | inl e ↦ rw (chat_null data_ s r fine e) tt
      | inr (p, e) ↦ rw (chat_read data_ s r p fine e) (chat-Leaves p (apart p e) r.0.1 s)
    ]
  ]

  handle_save-Leaves : Ensures (Leaves q s) (handle_save_position_message config s)
  handle_save-Leaves = elim (Bool-cases (not config.allow_teleport)) [
    | inl off ↦ rw (save_off config s off) (Leaves-refl s)
    | inr on ↦ elim (Option-cases s.this_client) [
      | inl e ↦ rw (save_null config s on e) tt
      | inr (p, e) ↦ rw (save_on config s p on e) (on_client-Leaves s p save_position (apart p e))
    ]
  ]

  handle_load-Leaves : Ensures (Leaves q s) (handle_load_position_message config s)
  handle_load-Leaves = elim (Bool-cases (not config.allow_teleport)) [
    | inl off ↦ rw (load_off config s off) (Leaves-refl s)
    | inr on ↦ elim (Option-cases s.this_client) [
      | inl e ↦ rw (load_null config s on e) tt
      | inr (p, e) ↦
          rw (load_on config s p on e) (push_reply-Leaves s (load_position_reply (s.heap p)))
    ]
  ]

  unknown-Leaves : Leaves q s (handle_unknown_message s)
  unfolding handle_unknown_message
  unknown-Leaves = push_reply-Leaves s _

  handle_message-Leaves :
      (t : MessageType) → Ensures (Leaves q s) (handle_message config u now data_ size t s)
  unfolding handle_message handle_player_list handle_server_info handle_level_list
  handle_message-Leaves MessageType.sign_on = handle_sign_on-Leaves
  handle_message-Leaves MessageType.update_game = handle_update-Leaves
  handle_message-Leaves MessageType.update_self = Leaves-refl s
  handle_message-Leaves MessageType.message = handle_chat-Leaves
  handle_message-Leaves MessageType.save_position = handle_save-Leaves
  handle_message-Leaves MessageType.load_position = handle_load-Leaves
  handle_message-Leaves MessageType.server_info = push_reply-Leaves s _
  handle_message-Leaves MessageType.level_list = push_reply-Leaves s _
  handle_message-Leaves MessageType.player_list = push_reply-Leaves s _
  handle_message-Leaves _ = unknown-Leaves

  request-Leaves : Ensures (Leaves q s) (handle_request config u now data_ size s)
  unfolding handle_request
  request-Leaves = elim (Option-cases (get_elem? data_ 0)) [
    | inl e ↦ rw (e, handle_request) tt
    | inr (b, e) ↦ elim (Option-cases (message_of b)) [
      | inl none' ↦ rw (e, none', handle_request) unknown-Leaves
      | inr (t, some') ↦ rw (e, some', handle_request) (handle_message-Leaves t)
    ]
  ]

-- Whatever bytes a message has, handling it to its end changes the client of another connection, that
-- has been allocated, in nothing but its inbox, which gets messages at its end or stays as it is.
pub handle_request-HasMore :
    (config : Config) (u : Uninitialised) (now : ℕ) (data_ : List ℕ) (size : ℕ) (s t : Session)
    (q : ℕ)
    → q < s.next
    → s.this_client ≢ some q
    → handle_request config u now data_ size s ≡ ok t
    → HasMore (s.heap q) (t.heap q)
handle_request-HasMore config u now data_ size s t q allocated other e =
    (subst (Ensures (Leaves q s)) e
      (request-Leaves config u now data_ size s q allocated other)).has_more
