-- ===== src/Examples/Clients.antt =====
-- A client's history and queues.
use ogmp_server.Base.{
  ℕ, int_eq, int_eq_iff, ◌≢◌, ◌≡◌, refl, [], ◌∷◌, ◌++◌, pos, arith, replicate, false,
}
use mathlib.Core.List.{reverse}
use ogmp_server.Text.{Str, codes, str_eq}
use ogmp_server.StringMap.{StringMap, find}
use ogmp_server.Client.{Client, new_client}
use ogmp_server.Client.History.{
  add_history, get_missing_update_variable_types, get_last_update_key, elem, missing, scan,
  update_eq, collect, add_types,
}
use ogmp_server.Client.History.Cycle.{IsHistory, add_history-IsHistory}
use ogmp_server.Client.History.Missing.{missing_exact, missing_unknown, IsDistinct, sent}
use ogmp_server.Client.History.Lag.{eleven_updates_lost, add_updates}
use ogmp_server.Client.Queues.{
  is_sign_on, index_type, signon_loop, signon_loop_adjacent, drain_inbox,
  get_number_of_inbox_messages, drain_inbox_lem,
}
use ogmp_server.Examples.{zeros}

-- A player after three updates, the last of which was counted as number 2.
abbrev updated : Client
updated = record (new_client zeros) {
  client_update_history = (2, 7 ∷ 8 ∷ []) ∷ (1, 5 ∷ 7 ∷ []) ∷ (0, 3 ∷ []) ∷ [];
  history_index = 3;
}

updated-IsHistory : IsHistory updated
updated-IsHistory = record {
  index = omega arith;
  size = omega arith;
  chain = (refl, (refl, (refl, tt)));
}

add_history-IsHistory_example : IsHistory (add_history (9 ∷ []) updated)
add_history-IsHistory_example = add_history-IsHistory (9 ∷ []) updated updated-IsHistory

missing_exact_example :
    (elem 7 (get_missing_update_variable_types (pos 0) updated)
      ≡ sent 7 ((2, 7 ∷ 8 ∷ []) ∷ (1, 5 ∷ 7 ∷ []) ∷ []))
    × IsDistinct (get_missing_update_variable_types (pos 0) updated)
missing_exact_example =
    missing_exact updated 0 ((2, 7 ∷ 8 ∷ []) ∷ (1, 5 ∷ 7 ∷ []) ∷ []) (3 ∷ []) [] updated-IsHistory
      refl 7

differ : (m n : ℕ) → int_eq (pos m) (pos n) ≡ false → pos m ≢ pos n
differ m n h e = ground (arith, int_eq_iff (pos m) (pos n))

unknown_gets_nothing : get_missing_update_variable_types (pos 5) updated ≡ []
unknown_gets_nothing =
    missing_unknown updated (pos 5) (differ 2 5 refl, (differ 1 5 refl, (differ 0 5 refl, tt)))

-- What the reader of number 0 gets, in order.
updated_missing : get_missing_update_variable_types (pos 0) updated ≡ 5 ∷ 7 ∷ 8 ∷ []
unfolding get_missing_update_variable_types missing scan update_eq collect add_types elem
updated_missing = refl

eleven_updates_lost_example :
    get_missing_update_variable_types
      (get_last_update_key updated)
      (add_updates (replicate 11 (9 ∷ [])) updated)
    ≡ []
eleven_updates_lost_example =
    eleven_updates_lost updated (2, 7 ∷ 8 ∷ []) _ (replicate 11 (9 ∷ [])) updated-IsHistory refl
      refl

abbrev sign_on_command : StringMap Str
sign_on_command = (codes "type", codes "SignOn") ∷ []

adjacent_commands :
    (signon_loop (sign_on_command ∷ sign_on_command ∷ [])).1 ≡ sign_on_command ∷ (signon_loop []).1
unfolding is_sign_on str_eq index_type find
adjacent_commands = signon_loop_adjacent sign_on_command sign_on_command [] refl

abbrev with_inbox : Client
with_inbox = record (new_client zeros) { inbox = (1 ∷ []) ∷ (2 ∷ []) ∷ [] }

drain_inbox_lem_example :
    drain_inbox (get_number_of_inbox_messages with_inbox) ((0 ∷ []) ∷ []) with_inbox
    ≡ (((0 ∷ []) ∷ []) ++ reverse with_inbox.inbox, record with_inbox { inbox = [] })
drain_inbox_lem_example = drain_inbox_lem ((0 ∷ []) ∷ []) with_inbox

drained : reverse with_inbox.inbox ≡ (2 ∷ []) ∷ (1 ∷ []) ∷ []
drained = refl
