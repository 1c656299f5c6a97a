-- ===== src/Network/Silence.antt =====
-- A connection that stays silent: `client_timed_out` of src/connection.cpp.
use ogmp_server.Base.{
  ℕ, ◌-◌, ◌<◌, ◌≡◌, ◌≢◌, ◌⊎◌, inl, inr, refl, ◌∙◌, Bool, true, false, Option, none, some, arith,
  ==_iff,
}
use ogmp_server.Client.{Uninitialised}
use ogmp_server.Config.{Config}
use ogmp_server.Network.Connection.{Connection, closed, close, expire}
use ogmp_server.Network.Tables.{Table, Set, find, put, find-put, erase, contains, contains-erase}
use ogmp_server.Network.World.{
  World, session, set_connection, manager_stop, timed_out_line, client_timed_out,
}
use ogmp_server.Network.Stop.{find-set_connection}
use ogmp_server.Network.Watch.{IsWatchedAt, manager_stop_lem}
use ogmp_server.Network.Steps.{wait_ends, time_out, Steps, here, then_, Reach}
use ogmp_server.Network.Invariant.Watch.{Reach-HasWatch}

-- The connection at `a` is closed and out of the set, and no other connection has changed.
abbrev pub HasLost : ℕ → World → World → Type 0
HasLost a w t =
    ((c : Connection) × (find a t.connections ≡ some c) × (c.socket ≡ closed))
    × (contains a t.managed ≡ false)
    × ((b : ℕ) → a ≢ b → find b t.connections ≡ find b w.connections)

module _ (a : ℕ) where
  stopped-HasLost :
      (x : Connection) (v w : World)
      → ((b : ℕ) → a ≢ b → find b v.connections ≡ find b w.connections)
      → HasLost a w (manager_stop a (set_connection a x v))
  unfolding close
  stopped-HasLost x v w same =
      let (c, m) = manager_stop_lem a x v in
      rw (c, m)
        (
          (close x, found (close x) (put a x v.connections), refl),
          gone v.managed,
          λ b n. other b n ∙ same b n,
        )
    where
      found : (y : Connection) (t : Table Connection) → find a (put a y t) ≡ some y
      found y t = ground (arith, find-put a a y t, ==_iff a a)

      gone : (m : Set) → contains a (erase a m) ≡ false
      gone m = ground (arith, contains-erase a a m, ==_iff a a)

      other :
          (b : ℕ) → a ≢ b → find b (put a (close x) (put a x v.connections)) ≡ find b v.connections
      other b n = ground (
        arith,
        find-put a b (close x) (put a x v.connections),
        find-put a b x v.connections,
        ==_iff a b,
      )

  timed_out-HasLost :
      (c : Connection) (v w : World)
      → ((b : ℕ) → a ≢ b → find b v.connections ≡ find b w.connections)
      → HasLost a w (client_timed_out a c v)
  unfolding client_timed_out
  timed_out-HasLost c v w same =
      stopped-HasLost (record c { expired = c.expired - 1 })
        (record v { server = (timed_out_line c.this_client (session c v)).server }) w same

  expired-other :
      (c : Connection) (w : World) (b : ℕ)
      → a ≢ b
      → find b (set_connection a c w).connections ≡ find b w.connections
  unfolding set_connection
  expired-other c w b n = ground (arith, find-put a b c w.connections, ==_iff a b)

  silent :
      (config : Config) (c : Connection) (w : World)
      → find a w.connections ≡ some c
      → (c.waiting ≡ true) ⊎ (0 < c.expired)
      → (t : World) × Steps config w t × HasLost a w t
  silent config c w e (inl waits) = (
    client_timed_out a (expire c) (set_connection a (expire c) w),
    then_ (then_ here (wait_ends a c e waits))
        (time_out a (expire c) (find-set_connection a (expire c) w) (unfold expire in omega arith)),
    timed_out-HasLost (expire c) (set_connection a (expire c) w) w (expired-other (expire c) w),
  )
  silent config c w e (inr late) = (
    client_timed_out a c w,
    then_ here (time_out a c e late),
    timed_out-HasLost c w w (λ b n. refl),
  )

-- From every world that the server reaches, whatever a peer has sent or not sent, a connection of the
-- manager's set can be got rid of: some further steps of the server close it and take it out of the
-- set, and leave every other connection as it was.
pub silence_ends :
    (config : Config) (u : Uninitialised) {w : World}
    → Reach config u w
    → (a : ℕ) → contains a w.managed ≡ true
    → (t : World) × Steps config w t × HasLost a w t
silence_ends config u {w} r a m =
    at (contains a w.managed) (find a w.connections) m refl (Reach-HasWatch config u r a)
  where
    at :
        (b : Bool) (o : Option Connection)
        → b ≡ true
        → find a w.connections ≡ o
        → IsWatchedAt b o
        → (t : World) × Steps config w t × HasLost a w t
    at true (some c) m e h = silent a config c w e h.2
    at true none m e h = absurd h
    at false o m e h = cc
