-- ===== src/Handler/Update/Converge.antt =====
-- The copy of a player's variables over whole runs of `HandleUpdate` of src/request_handler.cpp by the
-- player, and a round about the player in the reader's.
use ogmp_server.Text.{c_str}
use ogmp_server.Base.{
  ◌<◌, ℕ, suc, ◌≤◌, ◌≡◌, refl, ◌∙◌, ap, sym, subst, List, [], ◌∷◌, ◌++◌, Bool, true, false, ◌&&◌,
  length, arith, some, ok, Bool-cases, Result-cases, inl, inr, ==-refl,
}
use ogmp_server.StringMap.{StringMap}
use ogmp_server.Reply.{Reply}
use ogmp_server.Client.{Client, Player}
use ogmp_server.Client.Queues
use ogmp_server.Client.Queues.{drain_inbox, drain_inbox_lem, get_number_of_inbox_messages}
use ogmp_server.Client.Setters.{set_all_variables_old, set_death_changed, set_time_of_death}
use ogmp_server.Client.History.{UpdateHistory, add_history, set_key, get_key, get_last_update_key}
use ogmp_server.Client.History.Cycle.{IsHistory}
use ogmp_server.Manager.{add_to_inbox}
use ogmp_server.Manager.Invariant.{broadcast_keeps}
use ogmp_server.Handler.Session.{Session, on_client, on_server, server_message}
use ogmp_server.Handler.Leaves.{HasMore}
use ogmp_server.Handler.Update.{record_history, finish_update, handle_update}
use ogmp_server.Handler.Update.Read.{read_variables}
use ogmp_server.Handler.Update.Send.{send_update, send_updates}
use ogmp_server.Handler.Update.Life.{check_life, announce_death, died, is_dead, is_over}
use ogmp_server.Handler.Update.Relay.{IsUpToDate, send_update-same, write-same}
use ogmp_server.Handler.Update.Values.{View, value_of}
use ogmp_server.Handler.Update.Recorded.{Updates, stays, silent, update, aside}
use ogmp_server.Handler.Update.Replica.{learn, caught_up}

-- What the histories and the variables of a client are.
Shared : Client → Player × ℕ × List UpdateHistory
Shared c = (c.player, c.history_index, c.client_update_history)

-- The change leaves that alone.
abbrev Spares : (Client → Client) → Type 0
Spares f = (c : Client) → Shared (f c) ≡ Shared c

on_client-Shared :
    (p q : ℕ) (f : Client → Client) (s : Session)
    → Spares f
    → Shared ((on_client p f s).heap q) ≡ Shared (s.heap q)
unfolding on_client
on_client-Shared p q f s spares = write-same Shared p q (f (s.heap p)) s.heap (spares (s.heap p))

announce_death-Shared :
    (now p q : ℕ) (s : Session) → Shared ((announce_death now p s).heap q) ≡ Shared (s.heap q)
unfolding announce_death on_server add_to_inbox
announce_death-Shared now p q s =
    on_client-Shared p q (Queues.add_to_inbox message) _ spares
    ∙ broadcast_keeps Shared (Queues.add_to_inbox message) spares (some p) dead.clients dead.heap q
    ∙ on_client-Shared p q (λ c. set_time_of_death now (set_death_changed true c)) s
        (λ c. unfold Shared set_time_of_death set_death_changed in refl)
  where
    dead : Session
    dead = on_client p (λ c. set_time_of_death now (set_death_changed true c)) s

    message : Reply
    message = server_message (died (dead.heap p).username)

    spares : Spares (Queues.add_to_inbox message)
    spares c = unfold Shared Queues.add_to_inbox in refl

-- Whether the check of a player's life revives the player.
abbrev pub is_revived : ℕ → Client → Bool
is_revived now c = is_dead c && (c.death_changed && is_over now c)

check_life-Shared :
    (now p q : ℕ) (s : Session)
    → is_revived now (s.heap p) ≡ false
    → Shared ((check_life now p s).heap q) ≡ Shared (s.heap q)
unfolding check_life Shared is_over
check_life-Shared now p q s alive = elim (Bool-cases (is_dead (s.heap p))) [
  | inr lives ↦ rw lives (
      on_client-Shared p q (set_death_changed false) s
        (λ c. unfold Shared set_death_changed in refl))
  | inl dead ↦ elim (Bool-cases (s.heap p).death_changed) [
    | inr new ↦ rw (dead, new) (announce_death-Shared now p q s)
    | inl old ↦
        let young : is_over now (s.heap p) ≡ false = ground arith in rw (dead, old, young) refl
  ]
]

send_updates-Shared :
    (p q : ℕ) (items : StringMap ℕ) (s : Session)
    → Shared ((send_updates p items s).heap q) ≡ Shared (s.heap q)
unfolding send_updates
send_updates-Shared p q [] s = refl
send_updates-Shared p q ((k, r) ∷ items) s =
    send_updates-Shared p q items (send_update p r s)
    ∙ send_update-same Shared (λ n k c. unfold Shared set_key in refl) p r q s

recorded-is_revived :
    (now : ℕ) (ts : List ℕ) (c : Client)
    → is_revived now (record (record_history ts c) { inbox = [] }) ≡ is_revived now c
unfolding record_history add_history is_dead is_over
recorded-is_revived now [] c = refl
recorded-is_revived now (t ∷ ts) c = refl

-- Behind the reading, the handler changes no more of what is shared.
finish_update-Shared :
    (now p : ℕ) (c : Client) (ts : List ℕ) (s : Session)
    → is_revived now c ≡ false
    → Shared ((finish_update now p c ts s).heap p) ≡ Shared (record_history ts c)
unfolding finish_update
finish_update-Shared now p c ts s alive =
    send_updates-Shared p p _ (check_life now p read)
    ∙ check_life-Shared now p p read
        (ap (is_revived now) self ∙ recorded-is_revived now ts c ∙ alive)
    ∙ ap Shared self
    ∙ unfold Shared in refl
  where
    drained : List Reply × Client
    drained =
        drain_inbox (get_number_of_inbox_messages (record_history ts c)) s.rep (record_history ts c)

    read : Session
    read = on_client p (λ _. drained.1) (record s { rep = drained.0 })

    written : read.heap p ≡ drained.1
    written = unfold on_client in rw (==-refl p) refl

    self : read.heap p ≡ record (record_history ts c) { inbox = [] }
    self =
        written
        ∙ ap (λ (x : List Reply × Client). x.1) (drain_inbox_lem s.rep (record_history ts c))

-- The variables of a message, as they are read.
abbrev Reading : ℕ → List ℕ → Client → Client → List ℕ → Type 0
Reading size data_ c e ts =
    read_variables (suc size) size data_ 1 (set_all_variables_old c) [] ≡ ok (e, ts)

handle_update_ok :
    (now : ℕ) (data_ : List ℕ) (size q : ℕ) (s t : Session)
    → s.this_client ≡ some q
    → handle_update now data_ 1 size s ≡ ok t
    → (e : Client) × (ts : List ℕ) × Reading size data_ (s.heap q) e ts
      × (t ≡ finish_update now q e ts s)
unfolding handle_update
handle_update_ok now data_ size q s t own f =
    elim (Result-cases
      (read_variables (suc size) size data_ 1 (set_all_variables_old (s.heap q)) [])) [
        | inl (r, fine) ↦ (r.0, r.1, fine, ground arith)
        | inr (fault, bad) ↦ absurd (ground arith)
      ]

-- From one state of the client in cell `q` to a later one, over so many of its own updates, each
-- handled to its end without a revival of the player, and whatever else puts messages into its inbox
-- at most.
pub data Plays (q : ℕ) (c : Client) : ℕ → Client → Type 0 where
  idles : Plays q c 0 c
  plays :
      {n : ℕ} (now size : ℕ) (data_ : List ℕ) (s t : Session)
      → Plays q c n (s.heap q)
      → s.this_client ≡ some q
      → handle_update now data_ 1 size s ≡ ok t
      → ((e : Client) (ts : List ℕ) → Reading size data_ (s.heap q) e ts → is_revived now e ≡ false)
      → Plays q c (suc n) (t.heap q)
  hears : {n : ℕ} {d e : Client} → Plays q c n d → HasMore d e → Plays q c n e

-- The updates that were recorded on the way.
abbrev Recorded : Client → ℕ → Client → Type 0
Recorded c n d = (newer : List UpdateHistory) × Updates c newer d × (length newer ≤ n)

aside-Shared :
    {c : Client} {newer : List UpdateHistory} {d e : Client}
    → Updates c newer d
    → Shared e ≡ Shared d
    → Updates c newer e
unfolding Shared
aside-Shared us same = aside us (ap (λ x. x.0) same) (ap (λ x. x.1) same) (ap (λ x. x.2) same)

Recorded-update :
    (c : Client) (n now size q : ℕ) (data_ : List ℕ) (e : Client) (ts : List ℕ) (s : Session)
    → Recorded c n (s.heap q)
    → Reading size data_ (s.heap q) e ts
    → is_revived now e ≡ false
    → Recorded c (suc n) ((finish_update now q e ts s).heap q)
Recorded-update c n now size q data_ e [] s (newer, us, short) f alive = (
  newer,
  aside-Shared (silent us data_ size f) (finish_update-Shared now q e [] s alive),
  omega arith,
)
Recorded-update c n now size q data_ e (t ∷ ts) s (newer, us, short) f alive = (
  (e.history_index, t ∷ ts) ∷ newer,
  aside-Shared (update us data_ size f) (finish_update-Shared now q e (t ∷ ts) s alive),
  omega arith,
)

Plays-Recorded : (q : ℕ) (c : Client) {n : ℕ} {d : Client} → Plays q c n d → Recorded c n d
Plays-Recorded q c idles = ([], stays, omega arith)
Plays-Recorded q c (plays {n = n} now size data_ s t before own f alive) =
    let (e, ts, read, result) = handle_update_ok now data_ size q s t own f in
    subst (λ x. Recorded c (suc n) (x.heap q)) (sym result)
      (Recorded-update c n now size q data_ e ts s (Plays-Recorded q c before) read
        (alive e ts read))
Plays-Recorded q c (hears {d = d} before (more, e)) =
    let (newer, us, short) = Plays-Recorded q c before in
    (newer, aside-Shared us (ap Shared e ∙ unfold Shared in refl), short)

-- A reader whose copy of a player's variables was right, and who knew the player's newest update then,
-- gets by the next round about the player what makes the copy right again, and knows the newest update.
pub round_converges :
    (p q : ℕ) (c : Client) (h : UpdateHistory) (older : List UpdateHistory) (n : ℕ) (s : Session)
    (view : View)
    → IsHistory c
    → c.client_update_history ≡ h ∷ older
    → ((u : ℕ) → view u ≡ value_of u c)
    → Plays q c n (s.heap q)
    → n ≤ 9
    → get_key (s.heap q).username (s.heap p) ≡ get_last_update_key c
    → length (c_str (s.heap q).username) < 256
    → (news : List Reply) × ((send_update p q s).rep ≡ s.rep ++ news)
      × (length news ≤ 1)
      × ((u : ℕ)
          → learn (c_str (s.heap q).username) news view u ≡ value_of u ((send_update p q s).heap q))
      × IsUpToDate p q (send_update p q s)
round_converges p q c h older n s view v e right run few key named =
    let (newer, us, short) = Plays-Recorded q c run in
    caught_up p q c h older newer s view v e right us (omega arith) key named
