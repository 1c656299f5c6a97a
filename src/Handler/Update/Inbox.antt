-- ===== src/Handler/Update/Inbox.antt =====
-- What `HandleUpdate` of src/request_handler.cpp does with the player's inbox.
use mathlib.Core.List.{reverse}
use ogmp_server.Base.{
  ℕ, suc, ◌≡◌, refl, sym, ap, ◌∙◌, Bool, not, List, [], ◌∷◌, ◌++◌, append_assoc, append-nil, some,
  ok, Result-cases, arith, inl, inr, int_eq, negsuc, if◌then◌else◌,
}
use ogmp_server.StringMap.{StringMap}
use ogmp_server.Reply.{Reply}
use ogmp_server.Client.{Client}
use ogmp_server.Client.Setters.{set_all_variables_old, set_death_changed}
use ogmp_server.Client.History.{add_history, get_key, get_last_update_key}
use ogmp_server.Client.Queues.{drain_inbox, drain_inbox_lem, get_number_of_inbox_messages}
use ogmp_server.Manager.{get_clients}
use ogmp_server.Handler.Session.{Session, on_client, on_server, push_reply}
use ogmp_server.Handler.Update.Keeps.{read_variables-IsSame'}
use ogmp_server.Handler.Update.Read.{read_variables}
use ogmp_server.Handler.Update.Send.{send_update, send_updates, add_update_self}
use ogmp_server.Handler.Update.Life.{check_life, announce_death, revive, is_dead, is_over}
use ogmp_server.Handler.Update.{record_history, finish_update, handle_update}

-- Replies are put behind those that wait, and none of these is lost.
abbrev pub Adds : Session → Session → Type 0
Adds s t = (more : List Reply) × (t.rep ≡ s.rep ++ more)

Adds-none : (s t : Session) → t.rep ≡ s.rep → Adds s t
Adds-none s t e = ([], e ∙ sym (append-nil s.rep))

Adds-trans : (s t u : Session) → Adds s t → Adds t u → Adds s u
Adds-trans s t u (more, e) (further, f) =
    (more ++ further, f ∙ ap (λ r. r ++ further) e ∙ append_assoc s.rep more further)

Adds-if : (b : Bool) (s t u : Session) → Adds s t → Adds s u → Adds s (if b then t else u)
Adds-if Bool.true s t u h k = h
Adds-if Bool.false s t u h k = k

push_reply-Adds : (r : Reply) (s : Session) → Adds s (push_reply r s)
unfolding push_reply
push_reply-Adds r s = (r ∷ [], refl)

on_client-Adds : (p : ℕ) (f : Client → Client) (s : Session) → Adds s (on_client p f s)
unfolding on_client
on_client-Adds p f s = Adds-none s (on_client p f s) refl

answer-Adds :
    (r : Reply) (p : ℕ) (f : Client → Client) (s : Session)
    → Adds s (push_reply r (on_client p f s))
unfolding on_client push_reply
answer-Adds r p f s = (r ∷ [], refl)

announce_death-Adds : (now p : ℕ) (s : Session) → Adds s (announce_death now p s)
unfolding announce_death on_client on_server
announce_death-Adds now p s = Adds-none s (announce_death now p s) refl

revive-Adds : (p : ℕ) (s : Session) → Adds s (revive p s)
unfolding revive add_update_self on_client push_reply
revive-Adds p s = push_reply-Adds _ s

check_life-Adds : (now p : ℕ) (s : Session) → Adds s (check_life now p s)
unfolding check_life
check_life-Adds now p s =
    Adds-if (is_dead (s.heap p)) s _ _
      (Adds-if (not (s.heap p).death_changed) s _ _ (announce_death-Adds now p s)
        (Adds-if (is_over now (s.heap p)) s _ _ (revive-Adds p s) (Adds-none s s refl)))
      (on_client-Adds p (set_death_changed Bool.false) s)

pub send_update-Adds : (p q : ℕ) (s : Session) → Adds s (send_update p q s)
unfolding send_update
send_update-Adds p q s =
    Adds-if (int_eq (get_key (s.heap q).username (s.heap p)) (negsuc 0)) s _ _
      (Adds-if (int_eq (get_last_update_key (s.heap q)) (negsuc 0)) s _ _ (Adds-none s s refl)
        (on_client-Adds p _ s))
      (Adds-if _ s _ _ (Adds-none s s refl) (answer-Adds _ p _ s))

pub send_updates-Adds :
    (p : ℕ) (items : StringMap ℕ) (s : Session) → Adds s (send_updates p items s)
unfolding send_updates
send_updates-Adds p [] s = Adds-none s s refl
send_updates-Adds p ((k, q) ∷ items) s =
    Adds-trans s (send_update p q s) (send_updates p items (send_update p q s))
      (send_update-Adds p q s) (send_updates-Adds p items (send_update p q s))

record_history-inbox : (ts : List ℕ) (c : Client) → (record_history ts c).inbox ≡ c.inbox
unfolding record_history add_history
record_history-inbox [] c = refl
record_history-inbox (t ∷ ts) c = refl

-- The inbox, newest first, in front of what the rest of the handler adds.
abbrev pub Delivers : Client → Session → Session → Type 0
Delivers c s t = (more : List Reply) × (t.rep ≡ s.rep ++ (reverse c.inbox ++ more))

finish_update-Delivers :
    (now p : ℕ) (c : Client) (hs : List ℕ) (s : Session) → Delivers c s (finish_update now p c hs s)
unfolding finish_update
finish_update-Delivers now p c hs s = (
  added.0,
  added.1 ∙ ap (λ r. r ++ added.0) drained_rep ∙ append_assoc s.rep (reverse c.inbox) added.0,
)
  where
    drained : List Reply × Client
    drained =
        drain_inbox (get_number_of_inbox_messages (record_history hs c)) s.rep (record_history hs c)

    s1 : Session
    s1 = on_client p (λ _. drained.1) (record s { rep = drained.0 })

    drained_rep : s1.rep ≡ s.rep ++ reverse c.inbox
    drained_rep =
        unfold on_client in
        ap (λ (d : List Reply × Client). d.0) (drain_inbox_lem s.rep (record_history hs c))
        ∙ ap (λ i. s.rep ++ reverse i) (record_history-inbox hs c)

    added : Adds s1 (finish_update now p c hs s)
    added =
        Adds-trans s1 (check_life now p s1) (finish_update now p c hs s) (check_life-Adds now p s1)
          (send_updates-Adds p (get_clients (some p) (check_life now p s1).server)
            (check_life now p s1))

-- An update that is handled to its end has been read to its end.
update-read :
    (now : ℕ) (data_ : List ℕ) (i size p : ℕ) (s t : Session)
    → s.this_client ≡ some p
    → handle_update now data_ i size s ≡ ok t
    → (r : Client × List ℕ) × (read_variables
          (suc size)
          size
          data_
          i
          (set_all_variables_old (s.heap p))
          []
        ≡ ok r)
      × (t ≡ finish_update now p r.0 r.1 s)
unfolding handle_update
update-read now data_ i size p s t here e =
    elim (Result-cases
      (read_variables (suc size) size data_ i (set_all_variables_old (s.heap p)) [])) [
        | inl (r, fine) ↦ (r, fine, ground arith)
        | inr (fault, bad) ↦ absurd (ground arith)
      ]

-- An update that is handled to its end puts every message of the player's inbox behind the replies
-- that wait, the newest first, and whatever else it answers behind them.
pub handle_update-Delivers :
    (now : ℕ) (data_ : List ℕ) (i size p : ℕ) (s t : Session)
    → s.this_client ≡ some p
    → handle_update now data_ i size s ≡ ok t
    → Delivers (s.heap p) s t
unfolding set_all_variables_old
handle_update-Delivers now data_ i size p s t here e =
    let (r, fine, result) = update-read now data_ i size p s t here e in
    let same =
      read_variables-IsSame' (suc size) size data_ i (set_all_variables_old (s.heap p)) [] r fine in
    let (more, delivered) = finish_update-Delivers now p r.0 r.1 s in
    rw (result, ← same.3) (more, delivered)
