-- ===== src/Network/Stream.antt =====
-- What a connection hands to `async_write`: `do_write` of src/connection.cpp with
-- `add_size_byte` of src/reply.cpp.
use ogmp_server.Base.{
  ℕ, ◌≤◌, ◌≡◌, refl, sym, ap, ◌∙◌, List, [], ◌++◌, some, length, length-append, arith,
}
use ogmp_server.Client.{Uninitialised}
use ogmp_server.Config.{Config}
use ogmp_server.Reply.{Reply}
use ogmp_server.Handler.Session.{Session}
use ogmp_server.Network.Connection.{
  Connection, new_connection, do_read, cancel_one, close, shutdown, take_in, expire,
}
use ogmp_server.Network.Tables.{find}
use ogmp_server.Network.World.{World, answer}
use ogmp_server.Network.Write.{answer_lem, framed, framed-append}
use ogmp_server.Network.Steps.{Reach}
use ogmp_server.Network.Invariant.Local.{Local, Reach-HasEvery}

-- Each write has been handed one reply with its size, and no reply waits; at most one write for each of
-- them is outstanding.
abbrev pub IsStream : Connection → Type 0
IsStream c = (rs : List Reply) × (c.handed ≡ framed rs) × (c.replies ≡ []) × (c.writing ≤ length rs)

answer-IsStream : (c : Connection) (s : Session) → IsStream c → IsStream (answer s c)
answer-IsStream c s (rs, sent, none_left, le) = rw (answer_lem s c) (
  rs ++ s.rep,
  ap (λ t. t ++ framed s.rep) sent ∙ sym (framed-append rs s.rep),
  refl,
  omega (arith, le, length-append rs s.rep),
)

IsStream-Local : Local IsStream
IsStream-Local = record {
  starts = λ buffer l. unfold do_read new_connection framed in ([], refl, refl, omega arith);
  receives = λ c bytes l h. unfold take_in in h;
  answers = answer-IsStream;
  fails = λ c h. unfold cancel_one in h;
  closes = λ c h. unfold close in h;
  shuts = λ c h. unfold shutdown in h;
  expires = λ c h. unfold expire in h;
  times_out = λ c h. h;
  writes = λ c (rs, sent, none_left, le). (rs, sent, none_left, omega (arith, le));
}

pub Reach-IsStream :
    (config : Config) (u : Uninitialised) {w : World}
    → Reach config u w
    → (a : ℕ) (c : Connection) → find a w.connections ≡ some c
    → IsStream c
Reach-IsStream config u r = Reach-HasEvery IsStream IsStream-Local config u r
