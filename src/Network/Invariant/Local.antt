-- ===== src/Network/Invariant/Local.antt =====
-- A property of single connections that each of their members keeps holds of every connection that a
-- run of the server makes.
use ogmp_server.Base.{
  ℕ, ◌-◌, ◌≤◌, ◌≡◌, inl, inr, Bool, true, false, not, ◌||◌, List, length, Bool-cases, if◌then◌else◌,
}
use ogmp_server.Client.{Uninitialised}
use ogmp_server.Config.{Config}
use ogmp_server.Handler.Session.{Session}
use ogmp_server.Network.Connection.{
  Connection, idle, new_connection, do_read, cancel_one, close, shutdown, take_in, expire,
}
use ogmp_server.Network.Tables.{Every, Every-put, find}
use ogmp_server.Network.World.{
  World, set_connection, manager_start, manager_stop, stop, stop_all, accepted, signalled, answer,
  read_failed, client_timed_out, is_signed_on, wrote,
}
use ogmp_server.Network.Stop.{stop-keeps, stop_each-keeps}
use ogmp_server.Network.Write.{read_done_ok}
use ogmp_server.Network.Steps.{
  buffer_size, Step, connect, arrive, read, fail, wait_ends, time_out, write_ends, signal, here,
  then_, start, Reach,
}

pub record Local (P : Connection → Type 0) : Type 0 where
  pub starts : (buffer : List ℕ) → length buffer ≡ buffer_size → P (do_read (new_connection buffer))
  pub receives :
      (c : Connection) (bytes : List ℕ) → length bytes ≤ buffer_size → P c → P (take_in bytes c)
  pub answers : (c : Connection) (s : Session) → P c → P (answer s c)
  pub fails : (c : Connection) → P c → P (cancel_one (record c { reading = idle }))
  pub closes : (c : Connection) → P c → P (close c)
  pub shuts : (c : Connection) → P c → P (shutdown c)
  pub expires : (c : Connection) → P c → P (expire c)
  pub times_out : (c : Connection) → P c → P (record c { expired = c.expired - 1 })
  pub writes : (c : Connection) → P c → P (record c { writing = c.writing - 1 })

module _ (P : Connection → Type 0) (local : Local P) where
  abbrev pub HasEvery : World → Type 0
  HasEvery w = Every P w.connections

  set_connection-HasEvery :
      (a : ℕ) (x : Connection) (w : World) → P x → HasEvery w → HasEvery (set_connection a x w)
  unfolding set_connection
  set_connection-HasEvery a x w h v = Every-put P a x w.connections h v

  stop-HasEvery : (a : ℕ) (w : World) → HasEvery w → HasEvery (stop a w)
  stop-HasEvery =
      stop-keeps HasEvery
        (λ a c w e v. set_connection-HasEvery a (close c) _ (local.closes c (v a c e)) v)

  stopped-HasEvery :
      (a : ℕ) (x : Connection) (w : World)
      → P x
      → HasEvery w
      → HasEvery (manager_stop a (set_connection a x w))
  unfolding manager_stop
  stopped-HasEvery a x w h v = stop-HasEvery a _ (set_connection-HasEvery a x w h v)

  wrote-HasEvery :
      (ec : Bool) (a : ℕ) (c : Connection) (w : World)
      → P c
      → HasEvery w
      → HasEvery (wrote ec a c w)
  unfolding wrote
  wrote-HasEvery ec a c w h v = elim (Bool-cases (not (is_signed_on c w))) [
    | inl stranger ↦ rw stranger (set_connection-HasEvery a _ w (local.shuts c' less) v)
    | inr player ↦ rw player (at ec)
  ]
    where
      c' : Connection
      c' = record c { writing = c.writing - 1 }

      less : P c'
      less = local.writes c h

      at :
          (b : Bool)
          → HasEvery (if b then manager_stop a (set_connection a c' w) else set_connection a c' w)
      at true = stopped-HasEvery a c' w less v
      at false = set_connection-HasEvery a c' w less v

  Step-HasEvery : {config : Config} {w t : World} → Step config w t → HasEvery w → HasEvery t
  unfolding accepted manager_start signalled stop_all read_failed client_timed_out
  Step-HasEvery {w = w} (connect ec a buffer e l o) v = elim (Bool-cases (not w.accepting || ec)) [
    | inl gone ↦ rw gone v
    | inr open_ ↦ rw open_ (set_connection-HasEvery a _ _ (local.starts buffer l) v)
  ]
  Step-HasEvery {w = w} (arrive a c bytes e p o l) v =
      set_connection-HasEvery a _ w (local.receives c bytes l (v a c e)) v
  Step-HasEvery {config = config} {w = w} (read a c size u now t e r f) v =
      let (s, handled, result) = read_done_ok config u now a size c w t f in
      rw result (set_connection-HasEvery a _ _ (local.answers c s (v a c e)) v)
  Step-HasEvery {w = w} (fail a c e p) v = stopped-HasEvery a _ w (local.fails c (v a c e)) v
  Step-HasEvery {w = w} (wait_ends a c e p) v =
      set_connection-HasEvery a _ w (local.expires c (v a c e)) v
  Step-HasEvery {w = w} (time_out a c e p) v =
      stopped-HasEvery a _ _ (local.times_out c (v a c e)) v
  Step-HasEvery {w = w} (write_ends a c ec e p) v = wrote-HasEvery ec a c w (v a c e) v
  Step-HasEvery {w = w} (signal e) v = stop_each-keeps HasEvery stop-HasEvery w.managed _ v

  pub Reach-HasEvery :
      (config : Config) (u : Uninitialised) {w : World} → Reach config u w → HasEvery w
  unfolding start
  Reach-HasEvery config u here = λ a c e. absurd (unfold find in cc)
  Reach-HasEvery config u (then_ r st) = Step-HasEvery st (Reach-HasEvery config u r)
