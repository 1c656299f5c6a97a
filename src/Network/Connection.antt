-- ===== src/Network/Connection.antt =====
-- A connection of include/connection.hpp, and the parts of src/connection.cpp that change no more than
-- it. An asynchronous operation of boost.asio is outstanding until its completion handler runs; the
-- members below count those that are outstanding. A stopped connection stays in the table for the
-- handlers that still hold it.
use ogmp_server.Base.{ℕ, ◌+◌, Bool, true, false, List, [], ◌∷◌, ◌++◌, Option, none, length, drop}
use ogmp_server.Reply.{Reply, add_size_byte}

-- The socket: open, shut down in both directions, or closed.
pub data Socket : Type 0 where
  connected shut closed : Socket

-- `async_read_some`: none outstanding, one that waits, or one that has read so many bytes into the
-- buffer and whose handler has not run.
pub data Reading : Type 0 where
  idle pending : Reading
  arrived : ℕ → Reading

-- Of the timer: whether a wait is outstanding, and the waits that have expired and whose handlers have
-- not run. `handed` are the buffers that the calls of `async_write` were given, one for each, with the bytes
-- that they held at the call, open socket or not; what becomes of a write is not in them. `writing` are
-- the writes whose handlers have not run.
pub record Connection : Type 0 where
  pub socket : Socket
  pub reading : Reading
  pub waiting : Bool
  pub expired : ℕ
  pub writing : ℕ
  pub handed : List (List ℕ)
  pub buffer : List ℕ
  pub this_client : Option ℕ
  pub replies : List Reply

-- A connection on a new socket; the buffer holds what it holds.
unfoldable pub new_connection : List ℕ → Connection
new_connection buffer = record {
  socket = connected;
  reading = idle;
  waiting = false;
  expired = 0;
  writing = 0;
  handed = [];
  buffer = buffer;
  this_client = none;
  replies = [];
}

-- `connection::do_read`. `expires_from_now` cancels the wait that is outstanding, whose handler then
-- does nothing; `async_wait` and `async_read_some` start a new one each.
unfoldable pub do_read : Connection → Connection
do_read c = record c { waiting = true; reading = pending }

-- `m_timer->cancel_one()`.
unfoldable pub cancel_one : Connection → Connection
cancel_one c = record c { waiting = false }

-- The loop of `connection::do_write`.
unfoldable pub write_replies : List Reply → Connection → Connection
write_replies [] c = record c { replies = [] }
write_replies (r ∷ rs) c =
    write_replies rs (record c {
      handed = c.handed ++ add_size_byte r ∷ [];
      writing = c.writing + 1;
      replies = rs;
    })

unfoldable pub do_write : Connection → Connection
do_write c = write_replies c.replies c

-- `socket_.close()`, which fails the read that is outstanding.
unfoldable pub close : Connection → Connection
close c = record c { socket = closed }

-- `socket_.shutdown(shutdown_both)`, which leaves a closed socket closed.
unfoldable pub shutdown : Connection → Connection
shutdown c = record c {
  socket = elim c.socket [ connected ↦ shut | shut ↦ shut | closed ↦ closed ];
}

-- What boost.asio does between two handlers: it reads bytes into the front of the buffer, and it lets
-- a wait expire.
unfoldable pub take_in : List ℕ → Connection → Connection
take_in bytes c = record c {
  reading = arrived (length bytes);
  buffer = bytes ++ drop (length bytes) c.buffer;
}

unfoldable pub expire : Connection → Connection
expire c = record c { waiting = false; expired = c.expired + 1 }
