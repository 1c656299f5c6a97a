-- ===== src/Network/Isolation.antt =====
-- What a step of the server does to the client of a connection that it leaves alone: all of
-- src/connection.cpp, src/connection_manager.cpp and src/server.cpp with the request handler.
use ogmp_server.Base.{
  ℕ, ◌-◌, ◌≡◌, ◌≢◌, sym, ap, ◌∙◌, inl, inr, Bool, true, false, not, ◌||◌, Option, none, some,
  Option-cases, Bool-cases, if◌then◌else◌,
}
use mathlib.Core.Option.{some-injective}
use ogmp_server.Client.{Uninitialised}
use ogmp_server.Config.{Config}
use ogmp_server.Handler.Session.{Session}
use ogmp_server.Handler.Leaves.{
  HasMore, HasMore-refl, HasMore-trans, Leaves, Leaves-trans, Leaves-refl, print-Leaves,
  broadcast-Leaves, remove_client-Leaves,
}
use ogmp_server.Handler.Leaves.Request.{handle_request-HasMore}
use ogmp_server.Handler.Keeps.Messages.{disconnected_none, disconnected_some}
use ogmp_server.Handler.Messages.{client_disconnected, disconnect}
use ogmp_server.Network.Connection.{Connection, pending, arrived}
use ogmp_server.Network.Clients.{HasClient}
use ogmp_server.Network.Tables.{find}
use ogmp_server.Network.World.{
  World, session, set_connection, manager_start, manager_stop, stop, stop_all, accepted, signalled,
  answer, read_failed, timed_out_line, client_timed_out, is_signed_on, wrote,
}
use ogmp_server.Network.Stop.{stop-keeps, stop_each-keeps, find-set_connection}
use ogmp_server.Network.Write.{answer_lem, read_done_ok}
use ogmp_server.Network.Steps.{
  Step, connect, arrive, read, fail, wait_ends, time_out, write_ends, signal, Reach,
}
use ogmp_server.Network.Invariant.StoreSteps.{Reach-HasStore}

client_disconnected-Leaves : (q : ℕ) (s : Session) → Leaves q s (client_disconnected s)
unfolding disconnect
client_disconnected-Leaves q s = elim (Option-cases s.this_client) [
  | inl e ↦ rw (disconnected_none s e) (Leaves-refl s)
  | inr (p, e) ↦ rw (disconnected_some s p e) (
      Leaves-trans s _ _ (Leaves-trans s _ _ (broadcast-Leaves s _ (some p)) (print-Leaves _ _))
        (Leaves-trans _ _ _ (broadcast-Leaves _ _ (some p)) (remove_client-Leaves _ (some p))))
]

module _ (q : ℕ) (w : World) where
  abbrev Grows : World → Type 0
  Grows v = HasMore (w.server.heap q) (v.server.heap q)

  stop-Grows : (a : ℕ) (v : World) → Grows v → Grows (stop a v)
  stop-Grows = stop-keeps Grows (λ a c v e h.
      unfold set_connection session in
      HasMore-trans _ (v.server.heap q) _ h (client_disconnected-Leaves q (session c v)).has_more)

  stopped-Grows :
      (a : ℕ) (x : Connection) (v : World) → Grows v → Grows (manager_stop a (set_connection a x v))
  unfolding manager_stop set_connection
  stopped-Grows a x v h = stop-Grows a _ h

  wrote-Grows : (ec : Bool) (a : ℕ) (c : Connection) → Grows (wrote ec a c w)
  unfolding wrote set_connection
  wrote-Grows ec a c = elim (Bool-cases (not (is_signed_on c w))) [
    | inl stranger ↦ rw stranger (HasMore-refl (w.server.heap q))
    | inr player ↦ rw player (at ec)
  ]
    where
      c' : Connection
      c' = record c { writing = c.writing - 1 }

      at :
          (k : Bool)
          → Grows (if k then manager_stop a (set_connection a c' w) else set_connection a c' w)
      at true = stopped-Grows a c' w (HasMore-refl (w.server.heap q))
      at false = HasMore-refl (w.server.heap q)

timed_out_line-Leaves : (q : ℕ) (p : Option ℕ) (s : Session) → Leaves q s (timed_out_line p s)
unfolding timed_out_line
timed_out_line-Leaves q none s = Leaves-refl s
timed_out_line-Leaves q (some p) s = print-Leaves s _

-- The connection whose message has been handled is not as it was.
read-changes :
    (a b size : ℕ) (c d : Connection) (w v : World) (s : Session)
    → find a w.connections ≡ some c
    → find b w.connections ≡ some d
    → c.reading ≡ arrived size
    → find b (set_connection a (answer s c) v).connections ≡ some d
    → a ≢ b
read-changes a b size c d w v s e f r g same = arrived_pending (
    sym r
    ∙ ap (λ (x : Connection). x.reading)
        (some-injective c d (sym e ∙ (ap (λ i. find i w.connections) same ∙ f))
          ∙ sym (
              some-injective (answer s c) d (
                sym (find-set_connection a (answer s c) v)
                ∙ (ap (λ i. find i (set_connection a (answer s c) v).connections) same ∙ g))))
    ∙ ap (λ (x : Connection). x.reading) (answer_lem s c))
  where
    arrived_pending : arrived size ≢ pending
    arrived_pending = cc

-- The step is not the one in which the message of the connection at `b` is handled.
abbrev pub IsOther : ℕ → {config : Config} {w t : World} → Step config w t → Type 0
IsOther b (read a c size u now t e p k) = a ≢ b
IsOther b _ = Unit

-- A client whose connection is not the one that handles a message gets messages at most.
pub Step-Grows :
    (config : Config) (u : Uninitialised) {w t : World}
    → Reach config u w
    → (st : Step config w t) (b q : ℕ) → HasClient b q w
    → IsOther b st
    → HasMore (w.server.heap q) (t.server.heap q)
unfolding accepted manager_start signalled stop_all read_failed client_timed_out session
Step-Grows config u {w = w} r (connect ec a buffer e l o) b q h n =
    elim (Bool-cases (not w.accepting || ec)) [
      | inl gone ↦ rw gone (HasMore-refl (w.server.heap q))
      | inr open_ ↦ rw open_ (unfold set_connection in HasMore-refl (w.server.heap q))
    ]
Step-Grows config u {w = w} r (arrive a c bytes e p o l) b q h n =
    unfold set_connection in HasMore-refl (w.server.heap q)
Step-Grows config u {w = w} r (read a c size v now t e p k) b q (d, f, h) n =
    let (s, handled, result) = read_done_ok config v now a size c w t k in
    let store = Reach-HasStore config u r in
    let more =
      handle_request-HasMore config v now c.buffer size (session c w) s q (store.clients b d q f h)
        (λ i. n (store.separate a b c d q e f i h)) handled in
    rw result (unfold set_connection in more)
Step-Grows config u {w = w} r (fail a c e p) b q h n =
    stopped-Grows q w a _ w (HasMore-refl (w.server.heap q))
Step-Grows config u {w = w} r (wait_ends a c e p) b q h n =
    unfold set_connection in HasMore-refl (w.server.heap q)
Step-Grows config u {w = w} r (time_out a c e p) b q h n =
    stopped-Grows q w a _
      (record w { server = (timed_out_line c.this_client (session c w)).server })
      (timed_out_line-Leaves q c.this_client (session c w)).has_more
Step-Grows config u {w = w} r (write_ends a c ec e p) b q h n = wrote-Grows q w ec a c
Step-Grows config u {w = w} r (signal e) b q h n =
    stop_each-keeps (Grows q w) (stop-Grows q w) w.managed _ (HasMore-refl (w.server.heap q))

unchanged-IsOther :
    {config : Config} {w t : World} (st : Step config w t) (b : ℕ) (d : Connection)
    → find b w.connections ≡ some d
    → find b t.connections ≡ some d
    → IsOther b st
unchanged-IsOther {w = w} (read a c size v now t e p k) b d f g =
    let (s, handled, result) = read_done_ok _ v now a size c w t k in
    read-changes a b size c d w (record w { server = s.server }) s e f p
      (ap (λ (x : World). find b x.connections) (sym result) ∙ g)
unchanged-IsOther _ b d f g = tt

-- In a world that the server reaches, a step that leaves a connection as it is changes that
-- connection's client in nothing but its inbox, which gets messages at its end or stays as it is:
-- whatever the other connections send, and in whatever order the handlers run.
pub Step-HasMore :
    (config : Config) (u : Uninitialised) {w t : World}
    → Reach config u w
    → Step config w t
    → (b q : ℕ) (d : Connection) → find b w.connections ≡ some d
    → find b t.connections ≡ some d
    → d.this_client ≡ some q
    → HasMore (w.server.heap q) (t.server.heap q)
Step-HasMore config u r st b q d f g h =
    Step-Grows config u r st b q (d, f, h) (unchanged-IsOther st b d f g)
