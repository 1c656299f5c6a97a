-- ===== src/Handler/Leaves/Parts.antt =====
-- What the parts of the handlers of src/request_handler.cpp on one client do to the other players.
use ogmp_server.Base.{false, ℕ, ◌≢◌, not, List, [], ◌∷◌, none, some, int_eq, negsuc}
use ogmp_server.Text.{Str}
use ogmp_server.StringMap.{StringMap}
use ogmp_server.Client.{Client}
use ogmp_server.Client.History.{get_key, get_last_update_key}
use ogmp_server.Client.Queues.{drain_inbox, get_number_of_inbox_messages}
use ogmp_server.Client.Setters.{set_death_changed}
use ogmp_server.Config.{Config}
use ogmp_server.Manager.{get_clients}
use ogmp_server.Handler.Session.{Session, on_client, push_reply, add_error_message}
use ogmp_server.Handler.SignOn.{
  SignOnData, fill_client, spawn_others, enter, announce, accept, default_name, is_invalid,
  is_forbidden, is_taken, refuse_invalid, refuse_forbidden, refuse_taken, sign_on,
}
use ogmp_server.Handler.Leaves.{
  Leaves, Leaves-refl, Leaves-trans, Leaves-if, on_client-Leaves, push_reply-Leaves, print-Leaves,
  broadcast-Leaves, add_client-Leaves,
}
use ogmp_server.Handler.Update.{record_history, finish_update}
use ogmp_server.Handler.Update.Send.{send_update, send_updates, add_update_self}
use ogmp_server.Handler.Update.Life.{check_life, announce_death, revive, is_dead, is_over}
use ogmp_server.Handler.Messages.{chat}

-- The parts of the handlers that work on the client in cell `p`.
module _ {q : ℕ} (p : ℕ) (n : p ≢ q) where
  spawn_others-Leaves : (items : StringMap ℕ) (s : Session) → Leaves q s (spawn_others items s)
  unfolding spawn_others
  spawn_others-Leaves [] s = Leaves-refl s
  spawn_others-Leaves ((k, r) ∷ items) s =
      Leaves-trans s _ _ (push_reply-Leaves s _) (spawn_others-Leaves items (push_reply _ s))

  accept-Leaves :
      (config : Config) (d : SignOnData) (name : Str) (s : Session)
      → Leaves q s (accept config d name p s)
  unfolding accept enter announce
  accept-Leaves config d name s =
      Leaves-trans s _ _
        (Leaves-trans s _ _
          (Leaves-trans s _ _ (on_client-Leaves s p (fill_client d name) n) (add_client-Leaves _ p))
          (Leaves-trans _ _ _ (push_reply-Leaves _ _) (spawn_others-Leaves _ _)))
        (Leaves-trans _ _ _ (Leaves-trans _ _ _ (broadcast-Leaves _ _ (some p)) (print-Leaves _ _))
          (broadcast-Leaves _ _ (some p)))

  pub sign_on-Leaves :
      (config : Config) (d : SignOnData) (s : Session) → Leaves q s (sign_on config d p s)
  unfolding sign_on refuse_invalid refuse_forbidden refuse_taken add_error_message
  sign_on-Leaves config d s =
      Leaves-if (is_invalid d) s _ _ (Leaves-trans s _ _ (push_reply-Leaves s _) (print-Leaves _ _))
        (Leaves-if (is_forbidden config d) s _ _ (push_reply-Leaves s _) (
          Leaves-if (is_taken s.heap d.username (get_clients none s.server)) s _ _
            (push_reply-Leaves s _)
            (accept-Leaves config d (default_name config.map_list d.levelpath d.levelname) s)))

  announce_death-Leaves : (now : ℕ) (s : Session) → Leaves q s (announce_death now p s)
  unfolding announce_death
  announce_death-Leaves now s =
      Leaves-trans _ _ _
        (Leaves-trans _ _ _ (on_client-Leaves s p _ n) (broadcast-Leaves _ _ (some p)))
        (on_client-Leaves _ p _ n)

  revive-Leaves : (s : Session) → Leaves q s (revive p s)
  unfolding revive add_update_self
  revive-Leaves s =
      Leaves-trans _ _ _ (Leaves-trans _ _ _ (on_client-Leaves s p _ n) (push_reply-Leaves _ _))
        (on_client-Leaves _ p _ n)

  check_life-Leaves : (now : ℕ) (s : Session) → Leaves q s (check_life now p s)
  unfolding check_life
  check_life-Leaves now s =
      Leaves-if (is_dead (s.heap p)) s _ _
        (Leaves-if (not (s.heap p).death_changed) s _ _ (announce_death-Leaves now s)
          (Leaves-if (is_over now (s.heap p)) s _ _ (revive-Leaves s) (Leaves-refl s)))
        (on_client-Leaves s p (set_death_changed false) n)

  send_update-Leaves : (r : ℕ) (s : Session) → Leaves q s (send_update p r s)
  unfolding send_update
  send_update-Leaves r s =
      Leaves-if (int_eq (get_key (s.heap r).username (s.heap p)) (negsuc 0)) s _ _
        (Leaves-if (int_eq (get_last_update_key (s.heap r)) (negsuc 0)) s _ _ (Leaves-refl s)
          (on_client-Leaves s p _ n))
        (Leaves-if _ s _ _ (Leaves-refl s)
          (Leaves-trans _ _ _ (on_client-Leaves s p _ n) (push_reply-Leaves _ _)))

  send_updates-Leaves : (items : StringMap ℕ) (s : Session) → Leaves q s (send_updates p items s)
  unfolding send_updates
  send_updates-Leaves [] s = Leaves-refl s
  send_updates-Leaves ((k, r) ∷ items) s =
      Leaves-trans s (send_update p r s) _ (send_update-Leaves r s)
        (send_updates-Leaves items (send_update p r s))

  pub finish_update-Leaves :
      (now : ℕ) (c : Client) (hs : List ℕ) (s : Session) → Leaves q s (finish_update now p c hs s)
  unfolding finish_update
  finish_update-Leaves now c hs s =
      Leaves-trans s _ _ (Leaves-trans s _ _ drained (check_life-Leaves now _))
        (send_updates-Leaves _ _)
    where
      inbox : List (List ℕ) × Client
      inbox =
          drain_inbox (get_number_of_inbox_messages (record_history hs c)) s.rep
            (record_history hs c)

      drained : Leaves q s (on_client p (λ _. inbox.1) (record s { rep = inbox.0 }))
      drained =
          Leaves-trans s (record s { rep = inbox.0 }) _
            (record { has_more = (Leaves-refl s).has_more }) (on_client-Leaves _ p _ n)

  pub chat-Leaves : (content : Str) (s : Session) → Leaves q s (chat p content s)
  unfolding chat
  chat-Leaves content s =
      Leaves-trans s _ _ (Leaves-trans s _ _ (print-Leaves s _) (broadcast-Leaves _ _ (some p)))
        (on_client-Leaves _ p _ n)
