-- ===== src/Handler/Update.antt =====
-- `HandleUpdate` of src/request_handler.cpp.
pub mod Read
pub mod Relay
pub mod Delivery
pub mod Send
pub mod Life
pub mod Steps
pub mod Bounds
pub mod Keeps
pub mod Death
pub mod History
pub mod Inbox
pub mod Invariant
pub mod Values
pub mod Untouched
pub mod Recorded
pub mod Replica
pub mod Converge
pub mod Loop
use ogmp_server.Base.{
  ℕ, zero, suc, Bool, List, [], ◌∷◌, Option, none, some, Result, ok, err, null_client,
}
use ogmp_server.Client.{Client}
use ogmp_server.Client.Setters.{set_all_variables_old}
use ogmp_server.Client.History.{add_history}
use ogmp_server.Client.Queues.{drain_inbox, get_number_of_inbox_messages}
use ogmp_server.Manager.{get_clients}
use ogmp_server.Handler.Session.{Session, on_client}
use Read.{read_variables}
use Send.{send_updates}
use Life.{check_life}

-- `if(new_history.size() > 0)`.
unfoldable pub record_history : List ℕ → Client → Client
record_history [] c = c
record_history (t ∷ ts) c = add_history (t ∷ ts) c

-- From the history on, for the client in cell `p`, whose variables have been read into `c`.
unfoldable pub finish_update : ℕ → ℕ → Client → List ℕ → Session → Session
finish_update now p c new_history s =
    let c1 = record_history new_history c in
    let (rep, c2) = drain_inbox (get_number_of_inbox_messages c1) s.rep c1 in
    let s1 = on_client p (λ _. c2) (record s { rep = rep }) in
    let s2 = check_life now p s1 in send_updates p (get_clients (some p) s2.server) s2

unfoldable pub handle_update : ℕ → List ℕ → ℕ → ℕ → Session → Result Session
handle_update now data_ data_index size s = elim s.this_client [
  | none ↦ err null_client
  | some p ↦
      elim (read_variables (suc size) size data_ data_index (set_all_variables_old (s.heap p)) []) [
        | err e ↦ err e
        | ok (c, new_history) ↦ ok (finish_update now p c new_history s)
      ]
]
