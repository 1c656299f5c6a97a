-- ===== src/Examples/Sessions.antt =====
-- Sessions of the three players.
use ogmp_server.Base.{
  get_elem?, true, false, ℕ, ◌+◌, ◌≡◌, refl, List, [], ◌∷◌, ◌++◌, none, some, arith, replicate,
  length, length-replicate, ok, err, Result, out_of_bounds, ◌≤◌,
}
use ogmp_server.Text.{codes}
use ogmp_server.Input.{get_string, get_char, get_chars}
use ogmp_server.Reply.{MessageType, message_code}
use ogmp_server.Client.Variables.{PlayerVariable, variable_of, variable_code}
use ogmp_server.Manager.{get_nr_players}
use ogmp_server.Manager.Levels.{temp_levels, is_on_default}
use ogmp_server.Manager.Levels.Total.{total, total-temp_levels}
use mathlib.Core.Option.{some-injective}
use ogmp_server.Handler.Leaves.{HasMore}
use ogmp_server.Handler.Leaves.Request.{handle_request-HasMore}
use ogmp_server.Handler.Session.{Session}
use ogmp_server.Handler.Messages.{handle_chat_message, read_chat, client_disconnected}
use ogmp_server.Handler.Invariant.{IsSession}
use ogmp_server.Handler.Dispatch.{handle_request, message_of, handle_message}
use ogmp_server.Handler.Dispatch.Faults.{
  needs_client, needs, Stranger, handle_request-returns, handle_request_null,
  handle_request_overrun,
}
use ogmp_server.Handler.Dispatch.Keeps.{client_disconnected-IsSession, handle_request-IsSession}
use ogmp_server.Examples.{zeros, config, server, of_player, of_ann-IsSession}

-- A buffer of 8192 bytes whose first one is the message's type.
abbrev buffer : MessageType → List ℕ
buffer m = message_code m ∷ replicate 8191 0

large : (m : MessageType) → 8192 ≤ length (buffer m)
large m = omega (arith, length-replicate {A = ℕ} 8191 0)

fits : (m : MessageType) → 5 + 4 ≤ length (buffer m)
fits m = omega (arith, large m)

handle_request-returns_example :
    (t : Session) × (handle_request config zeros 9
        (buffer MessageType.update_game)
        5
        (of_player (some 0))
      ≡ ok t)
handle_request-returns_example =
    handle_request-returns config zeros 9 (buffer MessageType.update_game) 5 (of_player (some 0))
      (large MessageType.update_game) 0 refl (fits MessageType.update_game)

-- ann's chat line, and what it does to bob.
chat_line :
    (t : Session) × (handle_request config zeros 9
        (buffer MessageType.message)
        5
        (of_player (some 0))
      ≡ ok t)
chat_line =
    handle_request-returns config zeros 9 (buffer MessageType.message) 5 (of_player (some 0))
      (large MessageType.message) 0 refl (fits MessageType.message)

chat_line_HasMore : HasMore (server.heap 1) (chat_line.0.heap 1)
chat_line_HasMore =
    handle_request-HasMore config zeros 9 (buffer MessageType.message) 5 (of_player (some 0))
      chat_line.0 1 (omega arith) (λ e. absurd (omega (arith, some-injective 0 1 e))) chat_line.1

handle_request_null_example :
    (b : ℕ) × (get_elem? (buffer MessageType.update_game) 0 ≡ some b)
    × Stranger config zeros 9
        (buffer MessageType.update_game)
        5
        (of_player none)
        (large MessageType.update_game)
        b
handle_request_null_example =
    handle_request_null config zeros 9 (buffer MessageType.update_game) 5 (of_player none)
      (large MessageType.update_game) refl

-- An update is such a message, and a sign-on is not.
update_needed : needs config (message_code MessageType.update_game) ≡ true
unfolding needs needs_client message_of
update_needed = refl

sign_on_not_needed : needs config (message_code MessageType.sign_on) ≡ false
unfolding needs needs_client message_of
sign_on_not_needed = refl

handle_request_overrun_example :
    handle_request config zeros 9
      (message_code MessageType.update_game ∷ (255 ∷ [])
        ++ variable_code PlayerVariable.position_x ∷ [])
      3
      (of_player (some 0))
    ≡ err out_of_bounds
unfolding variable_of
handle_request_overrun_example =
    handle_request_overrun config zeros 9 (255 ∷ []) PlayerVariable.position_x (of_player (some 0))
      0 refl (refl, tt) (λ e. cc)

-- A chat message of ann's.
abbrev chat_message : List ℕ
chat_message = message_code MessageType.message ∷ 3 ∷ codes "ann" ++ 2 ∷ codes "hi"

abbrev result_or : Session → Result Session → Session
result_or s (ok t) = t
result_or s (err e) = s

abbrev after_chat : Session
after_chat =
    result_or (of_player (some 0))
      (handle_request config zeros 9 chat_message 8 (of_player (some 0)))

chat_ok : handle_request config zeros 9 chat_message 8 (of_player (some 0)) ≡ ok after_chat
unfolding handle_request message_of handle_message handle_chat_message read_chat get_string get_char
    get_chars
chat_ok = refl

handle_request-IsSession_example : IsSession after_chat
handle_request-IsSession_example =
    handle_request-IsSession config zeros 9 chat_message 8 (of_player (some 0)) after_chat
      of_ann-IsSession chat_ok

ann_has_left : IsSession (client_disconnected (of_player (some 0)))
ann_has_left = client_disconnected-IsSession (of_player (some 0)) of_ann-IsSession

total-temp_levels_example : total (temp_levels config server) ≡ get_nr_players server
unfolding is_on_default
total-temp_levels_example = total-temp_levels config server (refl, tt)
