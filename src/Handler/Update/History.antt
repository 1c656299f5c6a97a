-- ===== src/Handler/Update/History.antt =====
-- `HandleUpdate` of src/request_handler.cpp and its parts keep the order of the histories.
use ogmp_server.Base.{ℕ, ℤ, some, refl, not, List, [], ◌∷◌, int_eq, negsuc}
use ogmp_server.Text.{Str}
use ogmp_server.StringMap.{StringMap}
use ogmp_server.Reply.{Reply}
use ogmp_server.Client.{Client}
use ogmp_server.Client.Queues.{drain_inbox, drain_inbox_lem, get_number_of_inbox_messages}
use ogmp_server.Client.Queues
use ogmp_server.Client.History.{set_key, get_key, get_last_update_key}
use ogmp_server.Client.History.Cycle.{IsHistory, add_history-IsHistory}
use ogmp_server.Client.Setters.{
  set_remove_blood, set_death_changed, set_time_of_death, set_blood_health, set_permanent_health,
  set_blood_damage, set_block_health, set_temp_health, set_knocked_out, set_blood_amount,
  set_recovery_time, set_roll_recovery_time, set_cut_throat,
}
use ogmp_server.Handler.Session.{Session, on_client}
use ogmp_server.Handler.Keeps.{
  Keeps, Keeps-refl, Keeps-trans, Keeps-if, IsHistory-same, push_reply-Keeps, on_client-Keeps,
  broadcast-Keeps,
}
use ogmp_server.Handler.Update.Keeps.{IsSame}
use ogmp_server.Handler.Update.Send.{send_update, send_updates, add_update_self}
use ogmp_server.Handler.Update.Life.{check_life, announce_death, revive, revived, is_dead, is_over}
use ogmp_server.Handler.Update.{record_history, finish_update}

-- A change of a client that does not touch the history.
module _ (c : Client) (h : IsHistory c) where
  set_key-IsHistory : (name : Str) (k : ℤ) → IsHistory (set_key name k c)
  unfolding set_key
  set_key-IsHistory name k = record { index = h.index; size = h.size; chain = h.chain }

  pub add_to_inbox-IsHistory : (m : Reply) → IsHistory (Queues.add_to_inbox m c)
  unfolding Queues.add_to_inbox
  add_to_inbox-IsHistory m = record { index = h.index; size = h.size; chain = h.chain }

  revived-IsHistory : IsHistory (revived c)
  unfolding revived set_remove_blood set_blood_health set_permanent_health set_blood_damage
      set_block_health set_temp_health set_knocked_out set_blood_amount set_recovery_time
      set_roll_recovery_time set_cut_throat
  revived-IsHistory = record { index = h.index; size = h.size; chain = h.chain }

  pub record_history-IsHistory : (ts : List ℕ) → IsHistory (record_history ts c)
  unfolding record_history
  record_history-IsHistory [] = h
  record_history-IsHistory (t ∷ ts) = add_history-IsHistory (t ∷ ts) c h

  drain_inbox-IsHistory :
      (rep : List Reply) → IsHistory (drain_inbox (get_number_of_inbox_messages c) rep c).1
  drain_inbox-IsHistory rep =
      rw (drain_inbox_lem rep c) (record { index = h.index; size = h.size; chain = h.chain })

announce_death-Keeps : (now p : ℕ) (s : Session) → Keeps s (announce_death now p s)
unfolding announce_death set_death_changed set_time_of_death
announce_death-Keeps now p s =
    Keeps-trans _ _ _
      (Keeps-trans _ _ _
        (on_client-Keeps s p _ (λ h. record { index = h.index; size = h.size; chain = h.chain }))
        (broadcast-Keeps _ _ (some p)))
      (on_client-Keeps _ p _ (λ h. add_to_inbox-IsHistory _ h _))

revive-Keeps : (p : ℕ) (s : Session) → Keeps s (revive p s)
unfolding revive add_update_self set_remove_blood
revive-Keeps p s =
    Keeps-trans _ _ _
      (Keeps-trans _ _ _ (on_client-Keeps s p revived (λ h. revived-IsHistory _ h))
        (push_reply-Keeps _ _))
      (on_client-Keeps _ p _ (λ h. record { index = h.index; size = h.size; chain = h.chain }))

check_life-Keeps : (now p : ℕ) (s : Session) → Keeps s (check_life now p s)
unfolding check_life set_death_changed
check_life-Keeps now p s =
    Keeps-if (is_dead (s.heap p)) s _ _
      (Keeps-if (not (s.heap p).death_changed) s _ _ (announce_death-Keeps now p s)
        (Keeps-if (is_over now (s.heap p)) s _ _ (revive-Keeps p s) (Keeps-refl s)))
      (on_client-Keeps s p _ (λ h. record { index = h.index; size = h.size; chain = h.chain }))

set_key-Keeps :
    (p : ℕ) (name : Str) (k : ℤ) (s : Session) → Keeps s (on_client p (set_key name k) s)
set_key-Keeps p name k s = on_client-Keeps s p (set_key name k) (λ h. set_key-IsHistory _ h name k)

send_update-Keeps : (p q : ℕ) (s : Session) → Keeps s (send_update p q s)
unfolding send_update
send_update-Keeps p q s =
    Keeps-if (int_eq (get_key (s.heap q).username (s.heap p)) (negsuc 0)) s _ _
      (Keeps-if (int_eq (get_last_update_key (s.heap q)) (negsuc 0)) s _ _ (Keeps-refl s)
        (set_key-Keeps p _ _ s))
      (Keeps-if _ s _ _ (Keeps-refl s)
        (Keeps-trans _ _ _ (set_key-Keeps p _ _ s) (push_reply-Keeps _ _)))

send_updates-Keeps : (p : ℕ) (items : StringMap ℕ) (s : Session) → Keeps s (send_updates p items s)
unfolding send_updates
send_updates-Keeps p [] s = Keeps-refl s
send_updates-Keeps p ((k, q) ∷ items) s =
    Keeps-trans s (send_update p q s) _ (send_update-Keeps p q s)
      (send_updates-Keeps p items (send_update p q s))

pub finish_update-Keeps :
    (now p : ℕ) (c : Client) (hs : List ℕ) (s : Session)
    → IsSame (s.heap p) c
    → Keeps s (finish_update now p c hs s)
unfolding finish_update
finish_update-Keeps now p c hs s e =
    Keeps-trans s _ _ (Keeps-trans s _ _ read (check_life-Keeps now p _)) (send_updates-Keeps p _ _)
  where
    drained : List Reply × Client
    drained =
        drain_inbox (get_number_of_inbox_messages (record_history hs c)) s.rep (record_history hs c)

    read : Keeps s (on_client p (λ _. drained.1) (record s { rep = drained.0 }))
    read =
        Keeps-trans s (record s { rep = drained.0 }) _
          (record { cells = refl; client = refl; histories = λ h. h })
          (on_client-Keeps _ p _ (λ h.
            drain_inbox-IsHistory _
              (record_history-IsHistory c (IsHistory-same (s.heap p) c e.1 e.2 h) hs) s.rep))
