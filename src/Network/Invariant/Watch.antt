-- ===== src/Network/Invariant/Watch.antt =====
-- The manager's set and what its connections wait for, over every step of the server.
use ogmp_server.Base.{
  ℕ, ◌-◌, ◌≡◌, ◌≢◌, inl, inr, refl, subst, Bool, true, false, not, ◌||◌, List, some, ok, Bool-cases,
  arith, if◌then◌else◌,
}
use ogmp_server.Client.{Uninitialised}
use ogmp_server.Config.{Config}
use ogmp_server.Network.Connection.{
  Connection, Socket, connected, shut, closed, new_connection, do_read, shutdown, take_in, expire,
}
use ogmp_server.Network.Tables.{find, contains}
use ogmp_server.Network.World.{
  World, session, set_connection, manager_start, manager_stop, stop_all, accepted, signalled,
  read_done, read_failed, timed_out_line, client_timed_out, is_signed_on, wrote,
}
use ogmp_server.Network.Watch.{
  IsTimed, IsWatchedAt, IsWatched, IsWatched-put, IsWatched-insert, manager_stop-IsWatched,
  IsWatched-IsClosedBut, stop_each-IsClosedBut, IsClosedBut-IsWatched,
}
use ogmp_server.Network.Write.{answer_lem, read_done_ok}
use ogmp_server.Network.Steps.{
  Step, connect, arrive, read, fail, wait_ends, time_out, write_ends, signal, here, then_, start,
  Reach,
}

abbrev pub HasWatch : World → Type 0
HasWatch w = IsWatched w.connections w.managed

-- A step that changes one connection alone: its socket is as before, and it is timed if it was.
set_connection-HasWatch :
    (a : ℕ) (c x : Connection) (w : World)
    → find a w.connections ≡ some c
    → (c.socket ≡ closed → x.socket ≡ closed)
    → (IsTimed c → IsTimed x)
    → HasWatch w
    → HasWatch (set_connection a x w)
unfolding set_connection
set_connection-HasWatch a c x w e f g v =
    IsWatched-put a x w.connections w.managed v
      (at (contains a w.managed) (subst (λ o. IsWatchedAt (contains a w.managed) o) e (v a)))
  where
    at : (b : Bool) → IsWatchedAt b (some c) → IsWatchedAt b (some x)
    at true h = g h
    at false h = f h

signalled-HasWatch : (w : World) → HasWatch w → HasWatch (signalled w)
unfolding signalled stop_all
signalled-HasWatch w v =
    let w' = record w { accepting = false; awaiting = false } in
    IsClosedBut-IsWatched _
      (stop_each-IsClosedBut w.managed w' (IsWatched-IsClosedBut w.connections w.managed v))

accepted-HasWatch :
    (ec : Bool) (a : ℕ) (buffer : List ℕ) (w : World)
    → HasWatch w
    → HasWatch (accepted ec a buffer w)
unfolding accepted manager_start set_connection do_read new_connection
accepted-HasWatch ec a buffer w v = elim (Bool-cases (not w.accepting || ec)) [
  | inl gone ↦ rw gone v
  | inr open_ ↦ rw open_ (IsWatched-insert a _ w.connections w.managed v new)
]
  where
    new : IsTimed (do_read (new_connection buffer))
    new = (cc, cc, inl refl)

shutdown_closed : (c : Connection) → c.socket ≡ closed → (shutdown c).socket ≡ closed
unfolding shutdown
shutdown_closed c e = rw e refl

shutdown_open : (c : Connection) → c.socket ≢ closed → (shutdown c).socket ≢ closed
unfolding shutdown
shutdown_open c n = at c.socket n
  where
    at :
        (s : Socket)
        → s ≢ closed
        → (elim s [ connected ↦ shut | shut ↦ shut | closed ↦ closed ]) ≢ closed
    at connected n = cc
    at shut n = cc
    at closed n = n

read_done-HasWatch :
    (config : Config) (u : Uninitialised) (now a size : ℕ) (c : Connection) (w t : World)
    → find a w.connections ≡ some c
    → HasWatch w
    → read_done config u now a size c w ≡ ok t
    → HasWatch t
read_done-HasWatch config u now a size c w t e v f =
    let (s, handled, result) = read_done_ok config u now a size c w t f in
    rw (result, answer_lem s c)
      (set_connection-HasWatch a c _ (record w { server = s.server }) e (λ h. h)
        (λ h. (h.0, cc, inl refl)) v)

wrote-HasWatch :
    (ec : Bool) (a : ℕ) (c : Connection) (w : World)
    → find a w.connections ≡ some c
    → HasWatch w
    → HasWatch (wrote ec a c w)
unfolding wrote shutdown
wrote-HasWatch ec a c w e v = elim (Bool-cases (not (is_signed_on c w))) [
  | inl stranger ↦ rw stranger (
      set_connection-HasWatch a c _ w e (shutdown_closed c) (λ h. (shutdown_open c h.0, h.1, h.2))
        v)
  | inr player ↦ rw player (at ec)
]
  where
    at :
        (b : Bool)
        → HasWatch (
            if b
            then manager_stop a (set_connection a (record c { writing = c.writing - 1 }) w)
            else set_connection a (record c { writing = c.writing - 1 }) w)
    at true = manager_stop-IsWatched a _ w v
    at false = set_connection-HasWatch a c _ w e (λ h. h) (λ h. h) v

Step-HasWatch : {config : Config} {w t : World} → Step config w t → HasWatch w → HasWatch t
unfolding take_in expire read_failed client_timed_out
Step-HasWatch {w = w} (connect ec a buffer e l o) v = accepted-HasWatch ec a buffer w v
Step-HasWatch {w = w} (arrive a c bytes e p o l) v =
    set_connection-HasWatch a c _ w e (λ h. h) (λ h. (h.0, cc, h.2)) v
Step-HasWatch {config = config} {w = w} (read a c size u now t e r f) v =
    read_done-HasWatch config u now a size c w t e v f
Step-HasWatch {w = w} (fail a c e p) v = manager_stop-IsWatched a _ w v
Step-HasWatch {w = w} (wait_ends a c e p) v =
    set_connection-HasWatch a c _ w e (λ h. h) (λ h. (h.0, h.1, inr (omega arith))) v
Step-HasWatch {w = w} (time_out a c e p) v =
    manager_stop-IsWatched a _
      (record w { server = (timed_out_line c.this_client (session c w)).server }) v
Step-HasWatch {w = w} (write_ends a c ec e p) v = wrote-HasWatch ec a c w e v
Step-HasWatch {w = w} (signal e) v = signalled-HasWatch w v

-- In every world that a run of the server reaches, each connection in the manager's set exists and its
-- socket has not been closed, it reads or its read handler is to run, and its timer runs or has expired
-- with the handler still to run; and every connection that is not in the set is closed.
pub Reach-HasWatch :
    (config : Config) (u : Uninitialised) {w : World} → Reach config u w → HasWatch w
unfolding start
Reach-HasWatch config u here = λ a. unfold find contains in tt
Reach-HasWatch config u (then_ r st) = Step-HasWatch st (Reach-HasWatch config u r)
