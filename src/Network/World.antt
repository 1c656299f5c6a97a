-- ===== src/Network/World.antt =====
-- The connections of the server, by their addresses, and the completion handlers of src/connection.cpp,
-- src/connection_manager.cpp and src/server.cpp.
use ogmp_server.Base.{
  ℕ, ◌-◌, Bool, false, not, ◌||◌, List, [], ◌∷◌, ◌++◌, Option, none, some, Result, ok, err,
  if◌then◌else◌,
}
use ogmp_server.Text.{codes}
use ogmp_server.Client.{Uninitialised}
use ogmp_server.Config.{Config}
use ogmp_server.Manager.{Server}
use ogmp_server.Handler.Session.{Session, print}
use ogmp_server.Handler.Messages.{client_disconnected}
use ogmp_server.Handler.Dispatch.{handle_request}
use ogmp_server.Network.Connection.{
  Connection, new_connection, do_read, do_write, cancel_one, close, shutdown, idle,
}
use ogmp_server.Network.Tables.{Table, find, put, Set, insert, erase}

-- The handler's state, the connections that have been made, `connections_` of the manager, whether the
-- acceptor is open, and whether the wait for a signal is outstanding.
pub record World : Type 0 where
  pub server : Server
  pub connections : Table Connection
  pub managed : Set
  pub accepting : Bool
  pub awaiting : Bool

-- What the request handler works on when a connection calls it.
unfoldable pub session : Connection → World → Session
session c w = record { server = w.server; this_client = c.this_client; rep = c.replies }

unfoldable pub set_connection : ℕ → Connection → World → World
set_connection a c w = record w { connections = put a c w.connections }

-- `connection::stop`.
unfoldable pub stop : ℕ → World → World
stop a w = elim (find a w.connections) [
  | none ↦ w
  | some c ↦
      set_connection a (close c) (record w { server = (client_disconnected (session c w)).server })
]

-- `connection_manager::start`, with `connection::start`.
unfoldable pub manager_start : ℕ → Connection → World → World
manager_start a c w = set_connection a (do_read c) (record w { managed = insert a w.managed })

-- `connection_manager::stop`.
unfoldable pub manager_stop : ℕ → World → World
manager_stop a w = stop a (record w { managed = erase a w.managed })

-- The loop of `connection_manager::stop_all`.
unfoldable pub stop_each : Set → World → World
stop_each [] w = w
stop_each (a ∷ rest) w = stop_each rest (stop a w)

unfoldable pub stop_all : World → World
stop_all w = record (stop_each w.managed w) { managed = [] }

-- The handler of `server::do_accept`, with or without an error; a new connection is at the address `a`.
-- The handler does nothing once the acceptor is closed, and otherwise accepts again.
unfoldable pub accepted : Bool → ℕ → List ℕ → World → World
accepted ec a buffer w =
    if not w.accepting || ec then w else manager_start a (new_connection buffer) w

-- The handler of `server::do_await_stop`.
unfoldable pub signalled : World → World
signalled w = stop_all (record w { accepting = false; awaiting = false })

-- What that handler does with the connection once the message has been handled.
unfoldable pub answer : Session → Connection → Connection
answer s c =
    do_read (cancel_one (do_write (record c { this_client = s.this_client; replies = s.rep })))

-- The handler of `async_read_some` in `connection::do_read`, without an error: `size` bytes have been
-- read into the buffer.
unfoldable pub read_done : Config → Uninitialised → ℕ → ℕ → ℕ → Connection → World → Result World
read_done config u now a size c w = elim (handle_request config u now c.buffer size (session c w)) [
  | err e ↦ err e
  | ok s ↦ ok (set_connection a (answer s c) (record w { server = s.server }))
]

-- The same with an error.
unfoldable pub read_failed : ℕ → Connection → World → World
read_failed a c w = manager_stop a (set_connection a (cancel_one (record c { reading = idle })) w)

unfoldable pub timed_out_line : Option ℕ → Session → Session
timed_out_line none s = s
timed_out_line (some p) s = print (codes "Client timed out " ++ (s.heap p).username) s

-- `connection::client_timed_out`, for a wait that has expired.
unfoldable pub client_timed_out : ℕ → Connection → World → World
client_timed_out a c w = manager_stop a (
    set_connection a (record c { expired = c.expired - 1 })
      (record w { server = (timed_out_line c.this_client (session c w)).server }))

-- `this_client_->get_signed_on()`, false without a client.
unfoldable pub is_signed_on : Connection → World → Bool
is_signed_on c w = elim c.this_client [ none ↦ false | some p ↦ (w.server.heap p).has_signed_on ]

-- The handler of `async_write` in `connection::do_write`, with an error or without.
unfoldable pub wrote : Bool → ℕ → Connection → World → World
wrote ec a c w =
    let c' = record c { writing = c.writing - 1 } in
    if not (is_signed_on c w)
    then set_connection a (shutdown c') w
    else if ec
    then manager_stop a (set_connection a c' w)
    else set_connection a c' w
