-- ===== src/Network/Progress.antt =====
-- The buffer of a connection, and the messages that are handled to their end: `do_read` of
-- src/connection.cpp with the request handler.
use ogmp_server.Base.{
  ℕ, ◌+◌, ◌≤◌, ◌≡◌, List, some, ok, length, length-append, length-drop, drop, arith,
}
use ogmp_server.Client.{Uninitialised}
use ogmp_server.Config.{Config}
use ogmp_server.Handler.Dispatch.Faults.{handle_request-returns}
use ogmp_server.Network.Connection.{
  Connection, Reading, idle, pending, arrived, new_connection, do_read, cancel_one, close, shutdown,
  take_in, expire,
}
use ogmp_server.Network.Tables.{find}
use ogmp_server.Network.World.{World, session, set_connection, answer, read_done}
use ogmp_server.Network.Write.{answer_lem, read_done_at}
use ogmp_server.Network.Steps.{buffer_size, Reach}
use ogmp_server.Network.Invariant.Local.{Local, Reach-HasEvery}

abbrev pub FitsIn : Reading → Type 0
FitsIn idle = Unit
FitsIn pending = Unit
FitsIn (arrived n) = n ≤ buffer_size

-- The buffer has its size, and no more bytes than that have been read into it.
abbrev pub HasBuffer : Connection → Type 0
HasBuffer c = (length c.buffer ≡ buffer_size) × FitsIn c.reading

received :
    (bytes : List ℕ) (c : Connection)
    → length bytes ≤ buffer_size
    → length c.buffer ≡ buffer_size
    → HasBuffer (take_in bytes c)
unfolding take_in
received bytes c l h = (
  omega (
    arith,
    length-append bytes (drop (length bytes) c.buffer),
    length-drop (length bytes) c.buffer,
  ),
  l,
)

HasBuffer-Local : Local HasBuffer
HasBuffer-Local = record {
  starts = λ buffer l. unfold do_read new_connection in (l, tt);
  receives = λ c bytes l h. received bytes c l h.0;
  answers = λ c s h. rw (answer_lem s c) (h.0, tt);
  fails = λ c h. unfold cancel_one in (h.0, tt);
  closes = λ c h. unfold close in h;
  shuts = λ c h. unfold shutdown in h;
  expires = λ c h. unfold expire in h;
  times_out = λ c h. h;
  writes = λ c h. h;
}

-- In a world that the server reaches, on a connection with a client, a message that has arrived and
-- leaves four bytes of the buffer or more is handled to its end: nothing is read behind the buffer or
-- through an empty pointer, and the loop of an update ends.
pub read_done-returns :
    (config : Config) (u : Uninitialised) {w : World}
    → Reach config u w
    → (v : Uninitialised) (now a size p : ℕ) (c : Connection) → find a w.connections ≡ some c
    → c.reading ≡ arrived size
    → c.this_client ≡ some p
    → size + 4 ≤ buffer_size
    → (t : World) × (read_done config v now a size c w ≡ ok t)
unfolding session
read_done-returns config u {w} r v now a size p c e f g l =
    let fits = (Reach-HasEvery HasBuffer HasBuffer-Local config u r a c e).0 in
    let (s, handled) =
      handle_request-returns config v now c.buffer size (session c w) (omega (arith, fits)) p g
        (omega (arith, fits)) in
    (
      set_connection a (answer s c) (record w { server = s.server }),
      read_done_at config v now a size c w s handled,
    )
