-- ===== src/Network/Invariant/StoreSteps.antt =====
-- The handlers of src/connection.cpp and src/server.cpp, one by one, and the shared state.
use ogmp_server.Base.{
  ℕ, ◌<◌, ◌-◌, ◌≡◌, ◌⊎◌, inl, inr, refl, ◌∙◌, sym, none, some, ok, Bool, arith, Option, List,
  Bool-cases, not, ◌||◌, true, false, if◌then◌else◌,
}
use mathlib.Core.Option.{some-injective}
use ogmp_server.Client.{Uninitialised}
use ogmp_server.Config.{Config}
use ogmp_server.Client.History.Cycle.{new_client-IsHistory}
use ogmp_server.Manager.{Server}
use ogmp_server.Handler.Session.{Session}
use ogmp_server.Handler.Keeps.{Keeps-refl, Keeps, print-Keeps}
use ogmp_server.Handler.Invariant.{IsSession, print-IsSession}
use ogmp_server.Handler.Messages.{client_disconnected}
use ogmp_server.Handler.Dispatch.Keeps.{handle_request-IsSession, client_disconnected-IsSession}
use ogmp_server.Handler.Extends.{Extends, handle_request-Extends}
use ogmp_server.Handler.Keeps.Messages.{client_disconnected-Keeps}
use ogmp_server.Network.Connection.{
  Connection, new_connection, close, cancel_one, do_read, shutdown, take_in, expire,
}
use ogmp_server.Network.Tables.{Table, find}
use ogmp_server.Network.World.{
  World, session, set_connection, stop, manager_stop, manager_start, stop_all, accepted, signalled,
  read_done, read_failed, timed_out_line, client_timed_out, is_signed_on, wrote,
}
use ogmp_server.Network.Write.{answer_lem, read_done_ok}
use ogmp_server.Network.Stop.{stop-keeps, stop_each-keeps}
use ogmp_server.Network.Steps.{
  Step, connect, arrive, read, fail, wait_ends, time_out, write_ends, signal, here, then_, start,
  Reach,
}
use ogmp_server.Network.Invariant.Store.{IsStore, IsOwn, IsStore-put}

abbrev pub HasStore : World → Type 0
HasStore w = IsStore w.server w.connections

-- The same client as before.
same_client :
    (s s' : Server) (t : Table Connection) (a : ℕ) (c x : Connection)
    → find a t ≡ some c
    → x.this_client ≡ c.this_client
    → IsOwn s s' t a x
same_client s s' t a c x e f p g = inl (c, e, sym f ∙ g)

session-IsSession :
    (a : ℕ) (c : Connection) (w : World)
    → find a w.connections ≡ some c
    → HasStore w
    → IsSession (session c w)
unfolding session
session-IsSession a c w e v = record { server = v.server; client = λ p f. v.clients a c p e f }

-- A step that changes a connection alone.
set_connection-HasStore :
    (a : ℕ) (c x : Connection) (w : World)
    → find a w.connections ≡ some c
    → x.this_client ≡ c.this_client
    → HasStore w
    → HasStore (set_connection a x w)
unfolding set_connection
set_connection-HasStore a c x w e f v =
    IsStore-put w.server w.server w.connections a x v v.server v.histories (omega arith)
      (same_client w.server w.server w.connections a c x e f)

-- A step that hands the shared state to the request handler, and keeps the connection's client.
handled-HasStore :
    (a : ℕ) (c x : Connection) (w : World) (s : Session)
    → find a w.connections ≡ some c
    → x.this_client ≡ c.this_client
    → HasStore w
    → IsSession s
    → Keeps (session c w) s
    → HasStore (set_connection a x (record w { server = s.server }))
unfolding set_connection session
handled-HasStore a c x w s e f v i k =
    IsStore-put w.server s.server w.connections a x v i.server (k.histories v.histories)
      (omega (arith, k.cells)) (same_client w.server s.server w.connections a c x e f)

stop-HasStore : (a : ℕ) (w : World) → HasStore w → HasStore (stop a w)
stop-HasStore = stop-keeps HasStore (λ a c w e v.
    handled-HasStore a c (close c) w (client_disconnected (session c w)) e (unfold close in refl) v
      (client_disconnected-IsSession (session c w) (session-IsSession a c w e v))
      (client_disconnected-Keeps (session c w)))

manager_stop-HasStore : (a : ℕ) (w : World) → HasStore w → HasStore (manager_stop a w)
unfolding manager_stop
manager_stop-HasStore a w v = stop-HasStore a _ v

signalled-HasStore : (w : World) → HasStore w → HasStore (signalled w)
unfolding signalled stop_all
signalled-HasStore w v = stop_each-keeps HasStore stop-HasStore w.managed _ v

accepted-HasStore :
    (ec : Bool) (a : ℕ) (buffer : List ℕ) (w : World)
    → HasStore w
    → HasStore (accepted ec a buffer w)
unfolding accepted manager_start set_connection new_connection do_read
accepted-HasStore ec a buffer w v = elim (Bool-cases (not w.accepting || ec)) [
  | inl gone ↦ rw gone v
  | inr open_ ↦ rw open_ (
      IsStore-put w.server w.server w.connections a _ v v.server v.histories (omega arith)
        (λ p f. absurd (cc)))
]

handled_client :
    (a : ℕ) (c : Connection) (w : World) (s : Session)
    → find a w.connections ≡ some c
    → Extends (session c w) s
    → (p : ℕ) → s.this_client ≡ some p
    → ((d : Connection) × (find a w.connections ≡ some d) × (d.this_client ≡ some p))
      ⊎ ((p ≡ w.server.next) × (p < s.next))
unfolding session
handled_client a c w s e x p f = elim x.client [
  | inl same ↦ inl (c, e, sym same ∙ f)
  | inr (fresh, new, lt) ↦
      let g = sym f ∙ new in inr (some-injective p w.server.next g, ground arith)
]

read_done-HasStore :
    (config : Config) (u : Uninitialised) (now a size : ℕ) (c : Connection) (w t : World)
    → find a w.connections ≡ some c
    → HasStore w
    → read_done config u now a size c w ≡ ok t
    → HasStore t
unfolding set_connection session
read_done-HasStore config u now a size c w t e v f =
    let (s, handled, result) = read_done_ok config u now a size c w t f in
    let i =
      handle_request-IsSession config u now c.buffer size (session c w) s
        (session-IsSession a c w e v) handled in
    let x = handle_request-Extends config u now c.buffer size (session c w) s handled in
    rw (result, answer_lem s c)
      (IsStore-put w.server s.server w.connections a _ v i.server (x.histories v.histories) x.cells
        (handled_client a c w s e x))

timed_out_line-IsSession :
    (p : Option ℕ) (s : Session) → IsSession s → IsSession (timed_out_line p s)
unfolding timed_out_line
timed_out_line-IsSession none s v = v
timed_out_line-IsSession (some p) s v = print-IsSession s v _

timed_out_line-Keeps : (p : Option ℕ) (s : Session) → Keeps s (timed_out_line p s)
unfolding timed_out_line
timed_out_line-Keeps none s = Keeps-refl s
timed_out_line-Keeps (some p) s = print-Keeps s _

client_timed_out-HasStore :
    (a : ℕ) (c : Connection) (w : World)
    → find a w.connections ≡ some c
    → HasStore w
    → HasStore (client_timed_out a c w)
unfolding client_timed_out
client_timed_out-HasStore a c w e v = manager_stop-HasStore a _ (
    handled-HasStore a c _ w (timed_out_line c.this_client (session c w)) e refl v
      (timed_out_line-IsSession c.this_client (session c w) (session-IsSession a c w e v))
      (timed_out_line-Keeps c.this_client (session c w)))

read_failed-HasStore :
    (a : ℕ) (c : Connection) (w : World)
    → find a w.connections ≡ some c
    → HasStore w
    → HasStore (read_failed a c w)
unfolding read_failed cancel_one
read_failed-HasStore a c w e v =
    manager_stop-HasStore a _ (set_connection-HasStore a c _ w e refl v)

wrote-HasStore :
    (ec : Bool) (a : ℕ) (c : Connection) (w : World)
    → find a w.connections ≡ some c
    → HasStore w
    → HasStore (wrote ec a c w)
unfolding wrote shutdown
wrote-HasStore ec a c w e v = elim (Bool-cases (not (is_signed_on c w))) [
  | inl stranger ↦ rw stranger (set_connection-HasStore a c _ w e refl v)
  | inr player ↦ rw player (at ec)
]
  where
    at :
        (b : Bool)
        → HasStore (
            if b
            then manager_stop a (set_connection a (record c { writing = c.writing - 1 }) w)
            else set_connection a (record c { writing = c.writing - 1 }) w)
    at true = manager_stop-HasStore a _ (set_connection-HasStore a c _ w e refl v)
    at false = set_connection-HasStore a c _ w e refl v

Step-HasStore : {config : Config} {w t : World} → Step config w t → HasStore w → HasStore t
Step-HasStore {w = w} (connect ec a buffer e l o) v = accepted-HasStore ec a buffer w v
Step-HasStore {w = w} (arrive a c bytes e p o l) v =
    unfold take_in in set_connection-HasStore a c _ w e refl v
Step-HasStore {config = config} {w = w} (read a c size u now t e r f) v =
    read_done-HasStore config u now a size c w t e v f
Step-HasStore {w = w} (fail a c e p) v = read_failed-HasStore a c w e v
Step-HasStore {w = w} (wait_ends a c e p) v =
    unfold expire in set_connection-HasStore a c _ w e refl v
Step-HasStore {w = w} (time_out a c e p) v = client_timed_out-HasStore a c w e v
Step-HasStore {w = w} (write_ends a c ec e p) v = wrote-HasStore ec a c w e v
Step-HasStore {w = w} (signal e) v = signalled-HasStore w v

-- In every world that a run of the server reaches, whatever messages the connections send and in
-- whatever order the handlers run, the map of players is well formed, every client's history has its
-- indices in their cycle, every connection's client has been allocated, and no two connections have a
-- client in common.
pub Reach-HasStore :
    (config : Config) (u : Uninitialised) {w : World} → Reach config u w → HasStore w
unfolding start
Reach-HasStore config u here = record {
  server = record { sorted = tt; named = tt; allocated = tt };
  histories = λ q. new_client-IsHistory u;
  clients = λ a c p e f. absurd (unfold find in cc);
  separate = λ a b c d p e f g h. absurd (unfold find in cc);
}
Reach-HasStore config u (then_ r st) = Step-HasStore st (Reach-HasStore config u r)
