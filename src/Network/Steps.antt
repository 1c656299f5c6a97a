-- ===== src/Network/Steps.antt =====
-- The steps of the server: a completion handler of src/connection.cpp or src/server.cpp runs, or
-- boost.asio and the network do something between two handlers. A message whose handling reads where it
-- must not has no step: what the code does then is undefined. One thread runs the handlers, one at a
-- time. What boost.asio documents of an operation is the premise of its step: the handler of an
-- operation runs once, a closed socket receives nothing, and a read fills the buffer at most.
use ogmp_server.Base.{ℕ, ◌≤◌, ◌<◌, ◌≡◌, ◌≢◌, Bool, true, List, [], none, some, ok, length}
use ogmp_server.Client.{Uninitialised, new_client}
use ogmp_server.Config.{Config}
use ogmp_server.Network.Connection.{Connection, closed, pending, arrived, take_in, expire}
use ogmp_server.Network.World.{
  World, set_connection, accepted, signalled, read_done, read_failed, client_timed_out, wrote,
}
use ogmp_server.Network.Tables.{find}

-- `std::array<char, 8192>`.
abbrev pub buffer_size : ℕ
buffer_size = 8192

pub data Step (config : Config) (w : World) : World → Type 0 where
  connect :
      (ec : Bool) (a : ℕ) (buffer : List ℕ)
      → find a w.connections ≡ none
      → length buffer ≡ buffer_size
      → w.accepting ≡ true
      → Step config w (accepted ec a buffer w)
  arrive :
      (a : ℕ) (c : Connection) (bytes : List ℕ)
      → find a w.connections ≡ some c
      → c.reading ≡ pending
      → c.socket ≢ closed
      → length bytes ≤ buffer_size
      → Step config w (set_connection a (take_in bytes c) w)
  read :
      (a : ℕ) (c : Connection) (size : ℕ) (u : Uninitialised) (now : ℕ) (t : World)
      → find a w.connections ≡ some c
      → c.reading ≡ arrived size
      → read_done config u now a size c w ≡ ok t
      → Step config w t
  fail :
      (a : ℕ) (c : Connection)
      → find a w.connections ≡ some c
      → c.reading ≡ pending
      → Step config w (read_failed a c w)
  wait_ends :
      (a : ℕ) (c : Connection)
      → find a w.connections ≡ some c
      → c.waiting ≡ true
      → Step config w (set_connection a (expire c) w)
  time_out :
      (a : ℕ) (c : Connection)
      → find a w.connections ≡ some c
      → 0 < c.expired
      → Step config w (client_timed_out a c w)
  write_ends :
      (a : ℕ) (c : Connection) (ec : Bool)
      → find a w.connections ≡ some c
      → 0 < c.writing
      → Step config w (wrote ec a c w)
  signal : w.awaiting ≡ true → Step config w (signalled w)

pub data Steps (config : Config) (w : World) : World → Type 0 where
  here : Steps config w w
  then_ : {s t : World} → Steps config w s → Step config s t → Steps config w t

-- The server when it begins to run. No client has been made: what the free cells of the store hold is
-- not looked at.
unfoldable pub start : Uninitialised → World
start u = record {
  server = record { heap = λ _. new_client u; next = 0; clients = []; log = [] };
  connections = [];
  managed = [];
  accepting = true;
  awaiting = true;
}

-- The worlds that a run of the server reaches.
abbrev pub Reach : Config → Uninitialised → World → Type 0
Reach config u w = Steps config (start u) w
