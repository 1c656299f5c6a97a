-- ===== src/Handler/Update/Death.antt =====
-- The death of a player in `HandleUpdate` of src/request_handler.cpp is announced once.
use ogmp_server.Base.{
  ℕ, ◌+◌, ◌≤◌, ◌≡◌, ◌≢◌, refl, ◌∙◌, ap, true, false, some, arith, ==-refl, ◌&&◌, if◌then◌else◌,
}
use ogmp_server.Client.{Client}
use ogmp_server.Client.Setters.{set_death_changed, set_time_of_death}
use ogmp_server.Client.Queues
use ogmp_server.Manager.{Heap, Server, write, add_to_inbox, is_recipient}
use ogmp_server.Manager.Broadcast.{listed, is_recipient-write}
use ogmp_server.Reply.{Reply}
use ogmp_server.Handler.Leaves.{write-other}
use ogmp_server.Manager.Invariant.{
  IsServer, write-IsServer, add_to_inbox-initiator, add_to_inbox_lem,
}
use ogmp_server.Handler.Session.{Session, on_server, on_client, server_message}
use ogmp_server.Handler.Update.Life.{is_dead, is_over, died, announce_death, check_life}

-- The client that is found dead, when the announcement is over.
abbrev pub buried : ℕ → Client → Client
buried now c =
    Queues.add_to_inbox (server_message (died c.username))
      (set_time_of_death now (set_death_changed true c))

write_self : (p : ℕ) (c : Client) (heap : Heap) → write p c heap p ≡ c
write_self p c heap = rw (==-refl p)

on_client_self :
    (p : ℕ) (f : Client → Client) (s : Session) → (on_client p f s).heap p ≡ f (s.heap p)
unfolding on_client
on_client_self p f s = write_self p (f (s.heap p)) s.heap

announce_death_self :
    (now p : ℕ) (s : Session)
    → IsServer s.server
    → (announce_death now p s).heap p ≡ buried now (s.heap p)
unfolding announce_death on_client on_server set_time_of_death set_death_changed
announce_death_self now p s v =
    on_client_self p (Queues.add_to_inbox (server_message (died (heap' p).username))) (
      on_server (add_to_inbox (server_message (died (heap' p).username)) (some p))
        (on_client p (λ c. set_time_of_death now (set_death_changed true c)) s))
    ∙ ap (Queues.add_to_inbox (server_message (died (heap' p).username))) (
        add_to_inbox-initiator (server_message (died (heap' p).username)) p
          (record s.server { heap = heap' }) (write-IsServer p dead s.server refl v))
    ∙ ap (λ (c : Client). Queues.add_to_inbox (server_message (died c.username)) c)
        (write_self p dead s.heap)
  where
    dead : Client
    dead = set_time_of_death now (set_death_changed true (s.heap p))

    heap' : Heap
    heap' = write p dead s.heap

check_life_first :
    (now p : ℕ) (s : Session)
    → is_dead (s.heap p) ≡ true
    → (s.heap p).death_changed ≡ false
    → check_life now p s ≡ announce_death now p s
unfolding check_life
check_life_first now p s dead new = rw (dead, new)

check_life_again :
    (now p : ℕ) (s : Session)
    → is_dead (s.heap p) ≡ true
    → (s.heap p).death_changed ≡ true
    → now ≤ (s.heap p).time_of_death + 5
    → check_life now p s ≡ s
unfolding check_life
check_life_again now p s dead old soon = rw (young, dead, old)
  where
    young : is_over now (s.heap p) ≡ false
    young = unfold is_over in ground arith

-- Everybody else hears of it or is left alone.
announce_death-other :
    (now p q : ℕ) (s : Session)
    → IsServer s.server
    → p ≢ q
    → (announce_death now p s).heap q ≡ (
        if listed q s.clients && is_recipient s.heap (some p) q
        then Queues.add_to_inbox (server_message (died (s.heap p).username)) (s.heap q)
        else s.heap q)
unfolding announce_death on_client on_server set_time_of_death set_death_changed
announce_death-other now p q s v other =
    write-other p q _ (add_to_inbox (message heap') (some p) marked).heap other
    ∙ add_to_inbox_lem (message heap') (some p) marked q (write-IsServer p dead s.server refl v)
    ∙ ap (λ (c : Client). either (server_message (died c.username)) (heap' q))
        (write_self p dead s.heap)
    ∙ ap (either (message s.heap)) (write-other p q dead s.heap other)
    ∙ ap
        (λ r.
          if listed q s.clients && r
          then Queues.add_to_inbox (message s.heap) (s.heap q)
          else s.heap q)
        (is_recipient-write (λ c. set_time_of_death now (set_death_changed true c)) s.heap (some p)
          p q (λ c. refl))
  where
    dead : Client
    dead = set_time_of_death now (set_death_changed true (s.heap p))

    heap' : Heap
    heap' = write p dead s.heap

    marked : Server
    marked = record s.server { heap = heap' }

    message : Heap → Reply
    message h = server_message (died (h p).username)

    either : Reply → Client → Client
    either m c =
        if listed q s.clients && is_recipient heap' (some p) q then Queues.add_to_inbox m c else c

-- A player who is found dead, and whose death has not been announced, is marked dead at that time
-- with the announcement in the inbox. The map of players being well formed, another client has the
-- announcement at the end of its inbox if the map lists it and it is on the player's level, and is
-- left as it is otherwise. Whatever has happened to the session since, while the player is dead and
-- still marked with that time, a further check up to five seconds later changes nothing: there is
-- no second announcement, and no revival.
pub death_announced_once :
    (now later p q : ℕ) (s t : Session)
    → IsServer s.server
    → p ≢ q
    → is_dead (s.heap p) ≡ true
    → (s.heap p).death_changed ≡ false
    → later ≤ now + 5
    → is_dead (t.heap p) ≡ true
    → (t.heap p).death_changed ≡ ((check_life now p s).heap p).death_changed
    → (t.heap p).time_of_death ≡ ((check_life now p s).heap p).time_of_death
    → ((check_life now p s).heap p ≡ buried now (s.heap p))
      × ((check_life now p s).heap q ≡ (
          if listed q s.clients && is_recipient s.heap (some p) q
          then Queues.add_to_inbox (server_message (died (s.heap p).username)) (s.heap q)
          else s.heap q))
      × (check_life later p t ≡ t)
death_announced_once now later p q s t v other dead new soon still mark time = (
  self,
  ap (λ (x : Session). x.heap q) first ∙ announce_death-other now p q s v other,
  check_life_again later p t still
      (mark
        ∙ ap (λ (c : Client). c.death_changed) self
        ∙ (unfold Queues.add_to_inbox set_time_of_death set_death_changed in refl))
      (omega (arith, soon, time, ap (λ (c : Client). c.time_of_death) self, dated)),
)
  where
    first : check_life now p s ≡ announce_death now p s
    first = check_life_first now p s dead new

    self : (check_life now p s).heap p ≡ buried now (s.heap p)
    self = ap (λ (x : Session). x.heap p) first ∙ announce_death_self now p s v

    dated : (buried now (s.heap p)).time_of_death ≡ now
    dated = unfold Queues.add_to_inbox set_time_of_death set_death_changed in refl
