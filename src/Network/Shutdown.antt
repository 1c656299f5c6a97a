-- ===== src/Network/Shutdown.antt =====
-- The server after a signal: the handler of `do_await_stop` of src/server.cpp, and the handlers that
-- still run after it.
use ogmp_server.Base.{
  ℕ, ◌+◌, ◌-◌, ◌≤◌, ◌<◌, ◌≡◌, ◌⊎◌, inl, inr, refl, ap, ◌∙◌, Bool, true, false, not, some, arith,
  Bool-cases, ==_iff, if◌then◌else◌,
}
use ogmp_server.Config.{Config}
use ogmp_server.Manager.{Server}
use ogmp_server.Network.Connection.{
  Connection, Reading, closed, idle, pending, arrived, close, cancel_one, shutdown, expire,
}
use ogmp_server.Network.Tables.{Table, find, put, find-put, sum, sum-put, Every, Every-put}
use ogmp_server.Network.World.{
  World, session, set_connection, manager_stop, answer, read_failed, timed_out_line,
  client_timed_out, is_signed_on, wrote,
}
use ogmp_server.Network.Watch.{manager_stop_lem, manager_stop-flags}
use ogmp_server.Network.Write.{answer_lem, read_done_ok}
use ogmp_server.Network.Steps.{
  Step, connect, arrive, read, fail, wait_ends, time_out, write_ends, signal,
}

-- The acceptor is closed, the wait for a signal is over, and every connection is closed.
pub record IsStopped (w : World) : Type 0 where
  pub refuses : w.accepting ≡ false
  pub deaf : w.awaiting ≡ false
  pub closed_ : Every (λ c. c.socket ≡ closed) w.connections

-- How often the read handler of a connection runs yet at most, and how often the others do.
abbrev pub rank : Reading → ℕ
rank idle = 0
rank pending = 1
rank (arrived n) = 2

abbrev pub waits : Bool → ℕ
waits true = 2
waits false = 0

abbrev pub reads : Connection → ℕ
reads c = rank c.reading

abbrev pub rest : Connection → ℕ
rest c = waits c.waiting + c.expired + c.writing

-- Between two tables, either fewer reads are left, or no more reads and fewer of the other handlers.
abbrev pub Falls : Table Connection → Table Connection → Type 0
Falls t t' =
    (sum reads t' < sum reads t) ⊎ ((sum reads t' ≤ sum reads t) × (sum rest t' < sum rest t))

abbrev FallsAt : Connection → Connection → Type 0
FallsAt c x = (reads x < reads c) ⊎ ((reads x ≤ reads c) × (rest x < rest c))

put-Falls :
    (a : ℕ) (c x : Connection) (t : Table Connection)
    → find a t ≡ some c
    → FallsAt c x
    → Falls t (put a x t)
put-Falls a c x t e (inl l) = inl (omega (arith, sum-put reads a x c t e))
put-Falls a c x t e (inr (m, l)) =
    inr (omega (arith, sum-put reads a x c t e), omega (arith, sum-put rest a x c t e))

close-Falls :
    (a : ℕ) (c x : Connection) (t : Table Connection)
    → find a t ≡ some c
    → FallsAt c x
    → Falls t (put a (close x) (put a x t))
unfolding close
close-Falls a c x t e l = elim (put-Falls a c x t e l) [
  | inl fewer ↦ inl (omega (arith, same_reads, fewer))
  | inr (no_more, fewer) ↦ inr (omega (arith, same_reads, no_more), omega (arith, same_rest, fewer))
]
  where
    found : find a (put a x t) ≡ some x
    found = ground (arith, find-put a a x t, ==_iff a a)

    same_reads : sum reads (put a (close x) (put a x t)) + reads x ≡ sum reads (put a x t) + reads x
    same_reads = sum-put reads a (close x) x (put a x t) found

    same_rest : sum rest (put a (close x) (put a x t)) + rest x ≡ sum rest (put a x t) + rest x
    same_rest = sum-put rest a (close x) x (put a x t) found

abbrev pub IsAfter : World → World → Type 0
IsAfter w t = IsStopped t × Falls w.connections t.connections

set_connection-IsAfter :
    (a : ℕ) (c x : Connection) (w : World)
    → find a w.connections ≡ some c
    → x.socket ≡ closed
    → FallsAt c x
    → IsStopped w
    → IsAfter w (set_connection a x w)
unfolding set_connection
set_connection-IsAfter a c x w e h l v = (
  record {
    refuses = v.refuses;
    deaf = v.deaf;
    closed_ = Every-put (λ d. d.socket ≡ closed) a x w.connections h v.closed_;
  },
  put-Falls a c x w.connections e l,
)

manager_stop-IsAfter :
    (a : ℕ) (c x : Connection) (w : World)
    → find a w.connections ≡ some c
    → x.socket ≡ closed
    → FallsAt c x
    → IsStopped w
    → IsAfter w (manager_stop a (set_connection a x w))
unfolding close
manager_stop-IsAfter a c x w e h l v =
    let (connections, _) = manager_stop_lem a x w in
    let (accepting, awaiting) = manager_stop-flags a x w in
    (
      record {
        refuses = accepting ∙ v.refuses;
        deaf = awaiting ∙ v.deaf;
        closed_ =
            rw connections
              (Every-put is_closed a (close x) _ refl (Every-put is_closed a x _ h v.closed_));
      },
      rw connections (close-Falls a c x w.connections e l),
    )
  where
    is_closed : Connection → Type 0
    is_closed d = d.socket ≡ closed

shutdown_closed : (c : Connection) → c.socket ≡ closed → (shutdown c).socket ≡ closed
unfolding shutdown
shutdown_closed c e = rw e refl

wrote-IsAfter :
    (ec : Bool) (a : ℕ) (c : Connection) (w : World)
    → find a w.connections ≡ some c
    → 0 < c.writing
    → IsStopped w
    → IsAfter w (wrote ec a c w)
unfolding wrote shutdown
wrote-IsAfter ec a c w e l v = elim (Bool-cases (not (is_signed_on c w))) [
  | inl stranger ↦
      rw stranger (set_connection-IsAfter a c _ w e (shutdown_closed c (v.closed_ a c e)) fewer v)
  | inr player ↦ rw player (at ec)
]
  where
    c' : Connection
    c' = record c { writing = c.writing - 1 }

    fewer : FallsAt c c'
    fewer = inr (omega arith, omega (arith, l))

    at :
        (b : Bool)
        → IsAfter w (if b then manager_stop a (set_connection a c' w) else set_connection a c' w)
    at true = manager_stop-IsAfter a c c' w e (v.closed_ a c e) fewer v
    at false = set_connection-IsAfter a c c' w e (v.closed_ a c e) fewer v

-- Fewer reads are left: the read handler has run.
read_fell : (c x : Connection) (n : ℕ) → c.reading ≡ arrived n → x.reading ≡ pending → FallsAt c x
read_fell c x n e f = inl (omega (arith, ap rank e, ap rank f))

fail_fell : (c x : Connection) → c.reading ≡ pending → x.reading ≡ idle → FallsAt c x
fail_fell c x e f = inl (omega (arith, ap rank e, ap rank f))

wait_fell : (c : Connection) → c.waiting ≡ true → FallsAt c (expire c)
unfolding expire
wait_fell c e = inr (omega arith, omega (arith, ap waits e))

same_stop : {w : World} {server : Server} → IsStopped w → IsStopped (record w { server = server })
same_stop v = record { refuses = v.refuses; deaf = v.deaf; closed_ = v.closed_ }

-- A step of a server that has stopped.
pub Step-IsAfter : {config : Config} {w t : World} → Step config w t → IsStopped w → IsAfter w t
unfolding cancel_one expire read_failed client_timed_out
Step-IsAfter (connect ec a buffer e l o) v = absurd (let r = v.refuses in cc)
Step-IsAfter (arrive a c bytes e p o l) v = absurd (o (v.closed_ a c e))
Step-IsAfter {config = config} {w = w} (read a c size u now t e r f) v =
    let (s, handled, result) = read_done_ok config u now a size c w t f in
    let same = answer_lem s c in
    rw result (
      set_connection-IsAfter a c (answer s c) (record w { server = s.server }) e
        (ap (λ (d : Connection). d.socket) same ∙ v.closed_ a c e)
        (read_fell c (answer s c) size r (ap (λ (d : Connection). d.reading) same)) (same_stop v))
Step-IsAfter {w = w} (fail a c e p) v =
    let c' = record c { reading = idle; waiting = false } in
    manager_stop-IsAfter a c c' w e (v.closed_ a c e) (fail_fell c c' p refl) v
Step-IsAfter {w = w} (wait_ends a c e p) v =
    set_connection-IsAfter a c _ w e (v.closed_ a c e) (wait_fell c p) v
Step-IsAfter {w = w} (time_out a c e p) v =
    manager_stop-IsAfter a c (record c { expired = c.expired - 1 })
      (record w { server = (timed_out_line c.this_client (session c w)).server }) e
      (v.closed_ a c e) (inr (omega arith, omega (arith, p))) (same_stop v)
Step-IsAfter {w = w} (write_ends a c ec e p) v = wrote-IsAfter ec a c w e p v
Step-IsAfter {w = w} (signal e) v = absurd (let r = v.deaf in cc)
