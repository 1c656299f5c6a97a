-- ===== src/Network/Stop.antt =====
-- What stopping connections changes: `stop` of src/connection.cpp, and the loop of `stop_all` of
-- src/connection_manager.cpp.
use ogmp_server.Base.{ℕ, ◌≡◌, [], ◌∷◌, none, some, Option-cases, inl, inr, arith, ==_iff}
use ogmp_server.Handler.Messages.{client_disconnected}
use ogmp_server.Network.Connection.{Connection, close}
use ogmp_server.Network.World.{World, session, set_connection, stop, stop_each}
use ogmp_server.Network.Tables.{Set, find, find-put}

pub stop-none : (a : ℕ) (w : World) → find a w.connections ≡ none → stop a w ≡ w
unfolding stop
stop-none a w e = ground arith

pub stop-some :
    (a : ℕ) (c : Connection) (w : World)
    → find a w.connections ≡ some c
    → stop a w
      ≡ set_connection a
          (close c)
          (record w { server = (client_disconnected (session c w)).server })
unfolding stop
stop-some a c w e = ground arith

pub find-set_connection :
    (a : ℕ) (c : Connection) (w : World) → find a (set_connection a c w).connections ≡ some c
unfolding set_connection
find-set_connection a c w = ground (arith, find-put a a c w.connections, ==_iff a a)

-- A property of a world that stopping one connection keeps is kept by stopping several.
module _ (P : World → Type 0)
    (one : (a : ℕ) (c : Connection) (w : World)
      → find a w.connections ≡ some c
      → P w
      → P (
          set_connection a
            (close c)
            (record w { server = (client_disconnected (session c w)).server }))) where
  pub stop-keeps : (a : ℕ) (w : World) → P w → P (stop a w)
  stop-keeps a w h = elim (Option-cases (find a w.connections)) [
    | inl e ↦ rw (stop-none a w e) h
    | inr (c, e) ↦ rw (stop-some a c w e) (one a c w e h)
  ]

module _ (P : World → Type 0) (step : (a : ℕ) (w : World) → P w → P (stop a w)) where
  pub stop_each-keeps : (s : Set) (w : World) → P w → P (stop_each s w)
  unfolding stop_each
  stop_each-keeps [] w h = h
  stop_each-keeps (a ∷ s) w h = stop_each-keeps s (stop a w) (step a w h)
