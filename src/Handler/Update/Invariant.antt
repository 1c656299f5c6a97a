-- ===== src/Handler/Update/Invariant.antt =====
-- The invariant of a session, kept by `HandleUpdate` of src/request_handler.cpp and its parts.
use ogmp_server.Base.{
  ℕ, zero, suc, ◌≡◌, refl, ◌∙◌, Bool, true, false, not, List, [], ◌∷◌, ◌++◌, none, some, ok, err,
  Ensures, Fault, null_client, ℤ, arith, if◌then◌else◌, Bool-cases, Option-cases, Result-cases, inl,
  inr, ◌==◌, length, int_eq, negsuc,
}
use ogmp_server.Text.{Str}
use ogmp_server.StringMap.{StringMap}
use ogmp_server.Reply.{Reply}
use ogmp_server.Client.{Client}
use ogmp_server.Client.Queues.{drain_inbox, get_inbox_message, take_back}
use ogmp_server.Client.Queues
use ogmp_server.Client.History.{add_history, set_key, get_key, get_last_update_key}
use ogmp_server.Client.Setters.{
  set_all_variables_old, set_remove_blood, set_death_changed, set_time_of_death, set_blood_health,
  set_permanent_health, set_blood_damage, set_block_health, set_temp_health, set_knocked_out,
  set_blood_amount, set_recovery_time, set_roll_recovery_time, set_cut_throat,
}
use ogmp_server.Handler.Session.{Session, push_reply, on_client}
use ogmp_server.Handler.Invariant.{
  IsSession, push_reply-IsSession, on_client-IsSession, broadcast-IsSession,
}
use ogmp_server.Handler.Update.Keeps.{read_variables-IsSame'}
use ogmp_server.Handler.Update.Read.{read_variables}
use ogmp_server.Handler.Update.Send.{
  send_update, send_updates, add_update_self, add_other_client_variables, update_head,
}
use ogmp_server.Handler.Update.Life.{check_life, announce_death, revive, revived, is_dead, is_over}
use ogmp_server.Handler.Update.{record_history, finish_update, handle_update}

pub if-IsSession :
    (b : Bool) (s t : Session) → IsSession s → IsSession t → IsSession (if b then s else t)
if-IsSession true s t v w = v
if-IsSession false s t v w = w

record_history-name : (hs : List ℕ) (c : Client) → (record_history hs c).username ≡ c.username
unfolding record_history add_history
record_history-name [] c = refl
record_history-name (h ∷ hs) c = refl

get_inbox_message-name :
    (c : Client) (m : Reply) (d : Client)
    → get_inbox_message c ≡ some (m, d)
    → d.username ≡ c.username
unfolding get_inbox_message
get_inbox_message-name c m d e = ground arith

drain_inbox-name :
    (n : ℕ) (rep : List Reply) (c : Client) → (drain_inbox n rep c).1.username ≡ c.username
unfolding drain_inbox
drain_inbox-name zero rep c = refl
drain_inbox-name (suc n) rep c = elim (Option-cases (get_inbox_message c)) [
  | inl e ↦ rw (e, drain_inbox) refl
  | inr (r, e) ↦
      rw (e, drain_inbox)
        (drain_inbox-name n (rep ++ r.0 ∷ []) r.1 ∙ get_inbox_message-name c r.0 r.1 e)
]

revived-name : (c : Client) → (revived c).username ≡ c.username
unfolding revived set_remove_blood set_blood_health set_permanent_health set_blood_damage
    set_block_health set_temp_health set_knocked_out set_blood_amount set_recovery_time
    set_roll_recovery_time set_cut_throat
revived-name c = refl

announce_death-IsSession :
    (now p : ℕ) (s : Session) → IsSession s → IsSession (announce_death now p s)
unfolding announce_death set_death_changed set_time_of_death
announce_death-IsSession now p s v =
    on_client-IsSession _ (broadcast-IsSession _ (on_client-IsSession s v p _ refl) _ (some p)) p _
      (unfold Queues.add_to_inbox in refl)

revive-IsSession : (p : ℕ) (s : Session) → IsSession s → IsSession (revive p s)
unfolding revive add_update_self
revive-IsSession p s v =
    on_client-IsSession _
      (push_reply-IsSession _ (on_client-IsSession s v p revived (revived-name (s.heap p))) _) p
      (set_remove_blood false) (unfold set_remove_blood in refl)

check_life-IsSession : (now p : ℕ) (s : Session) → IsSession s → IsSession (check_life now p s)
unfolding check_life
check_life-IsSession now p s v =
    if-IsSession (is_dead (s.heap p))
      (if not (s.heap p).death_changed
        then announce_death now p s
        else if is_over now (s.heap p)
        then revive p s
        else s)
      (on_client p (set_death_changed false) s)
      (if-IsSession (not (s.heap p).death_changed) (announce_death now p s)
        (if is_over now (s.heap p) then revive p s else s) (announce_death-IsSession now p s v)
        (if-IsSession (is_over now (s.heap p)) (revive p s) s (revive-IsSession p s v) v))
      (on_client-IsSession s v p (set_death_changed false) (unfold set_death_changed in refl))

set_key-IsSession :
    (p : ℕ) (name : Str) (k : ℤ) (s : Session)
    → IsSession s
    → IsSession (on_client p (set_key name k) s)
set_key-IsSession p name k s v = on_client-IsSession s v p (set_key name k) (unfold set_key in refl)

-- A round of the sending loop stores a key in the client, or not, and adds a reply, or not.
send_update-IsSession : (p q : ℕ) (s : Session) → IsSession s → IsSession (send_update p q s)
unfolding send_update
send_update-IsSession p q s v =
    elim (Bool-cases (int_eq (get_key (s.heap q).username (s.heap p)) (negsuc 0))) [
      | inl new ↦ rw new (
          if-IsSession (int_eq (get_last_update_key (s.heap q)) (negsuc 0)) s
            (on_client p (set_key (s.heap q).username (get_last_update_key (s.heap q))) s) v
            (set_key-IsSession p _ _ s v))
      | inr known ↦ rw known (
          if-IsSession (length full == length (update_head (s.heap q))) s
            (push_reply full
              (on_client p (set_key (s.heap q).username (get_last_update_key (s.heap q))) s))
            v (push_reply-IsSession _ (set_key-IsSession p _ _ s v) full))
    ]
  where
    full : Reply
    full =
        add_other_client_variables (s.heap q) (get_key (s.heap q).username (s.heap p))
          (update_head (s.heap q))

send_updates-IsSession :
    (p : ℕ) (items : StringMap ℕ) (s : Session) → IsSession s → IsSession (send_updates p items s)
unfolding send_updates
send_updates-IsSession p [] s v = v
send_updates-IsSession p ((k, q) ∷ items) s v =
    send_updates-IsSession p items (send_update p q s) (send_update-IsSession p q s v)

finish_update-IsSession :
    (now p : ℕ) (c : Client) (hs : List ℕ) (s : Session)
    → c.username ≡ (s.heap p).username
    → IsSession s
    → IsSession (finish_update now p c hs s)
unfolding finish_update
finish_update-IsSession now p c hs s e v = send_updates-IsSession p _ _ (
    check_life-IsSession now p _ (
      on_client-IsSession _ (record { server = v.server; client = v.client }) p _
        (drain_inbox-name _ s.rep (record_history hs c) ∙ (record_history-name hs c ∙ e))))

module _ (now : ℕ) (data_ : List ℕ) (i size : ℕ) (s : Session) where
  pub handle_update_null : s.this_client ≡ none → handle_update now data_ i size s ≡ err null_client
  unfolding handle_update
  handle_update_null e = ground arith

  pub handle_update_fault :
      (p : ℕ) (e : Fault)
      → s.this_client ≡ some p
      → read_variables (suc size) size data_ i (set_all_variables_old (s.heap p)) [] ≡ err e
      → handle_update now data_ i size s ≡ err e
  unfolding handle_update
  handle_update_fault p e here bad = ground arith

  pub handle_update_read :
      (p : ℕ) (c : Client) (hs : List ℕ)
      → s.this_client ≡ some p
      → read_variables (suc size) size data_ i (set_all_variables_old (s.heap p)) [] ≡ ok (c, hs)
      → handle_update now data_ i size s ≡ ok (finish_update now p c hs s)
  unfolding handle_update
  handle_update_read p c hs here fine = ground arith

  pub handle_update-IsSession : IsSession s → Ensures IsSession (handle_update now data_ i size s)
  handle_update-IsSession v = elim (Option-cases s.this_client) [
    | inl e ↦ rw (handle_update_null e) tt
    | inr (p, here) ↦
        elim (Result-cases
          (read_variables (suc size) size data_ i (set_all_variables_old (s.heap p)) [])) [
            | inr (e, bad) ↦ rw (handle_update_fault p e here bad) tt
            | inl (r, fine) ↦ rw (handle_update_read p r.0 r.1 here fine) (
                finish_update-IsSession now p r.0 r.1 s
                  ((read_variables-IsSame' (suc size) size data_ i
                      (set_all_variables_old (s.heap p)) [] r fine).0
                    ∙ (unfold set_all_variables_old in refl))
                  v)
          ]
  ]
