-- ===== src/Examples/Delivery.antt =====
-- A second player signs on, and the first one's next update takes the news to its socket.
use mathlib.Core.List.{reverse}
use ogmp_server.Base.{
  ℕ, ◌≡◌, refl, List, [], ◌∷◌, ◌++◌, none, some, arith, replicate, length, length-replicate, false,
  ok,
}
use ogmp_server.Text.{Str, codes}
use ogmp_server.Reply.{Reply, MessageType, message_code}
use ogmp_server.Input.{get_string, get_char, get_chars, get_float}
use ogmp_server.Handler.Session.{Session, make_client}
use ogmp_server.Handler.SignOn.{SignOnData, handle_sign_on, read_sign_on, sign_on}
use ogmp_server.Handler.Dispatch.{message_of, handle_message, handle_request}
use ogmp_server.Network.Connection.{Connection, connected, new_connection, do_read, take_in}
use ogmp_server.Network.Tables.{find, put}
use ogmp_server.Network.World.{
  World, session, set_connection, accepted, manager_start, answer, read_done,
}
use ogmp_server.Network.Stop.{find-set_connection}
use ogmp_server.Network.Write.{read_done_at, framed}
use ogmp_server.Network.Steps.{Step, connect, arrive, read, then_, start, Reach}
use ogmp_server.Network.Progress.{read_done-returns}
use ogmp_server.Handler.Leaves.{HasMore}
use ogmp_server.Network.Isolation.{Step-HasMore}
use ogmp_server.Network.Delivery.{inbox_delivered}
use ogmp_server.Examples.{zeros, config}
use ogmp_server.Examples.Network.{
  counted, buffer, waiting, playing, playing-Reach, played, played_client, played_reading,
  played_open, played_connected, updating,
}

abbrev message : Str
message =
    message_code MessageType.sign_on ∷ counted (codes "eve")
    ++ counted (codes "c.xml")
    ++ counted (codes "A level")
    ++ counted (codes "a.xml")
    ++ counted (codes "1")
    ++ replicate 12 0

abbrev opened : World
opened = accepted false 2 buffer playing

abbrev pub full : Connection
full = take_in message waiting

abbrev pub sent : World
sent = set_connection 2 full opened

abbrev pub eve_data : SignOnData
eve_data = record {
  username = codes "eve";
  character = codes "c.xml";
  levelname = codes "A level";
  levelpath = codes "a.xml";
  version = codes "1";
  posx = 0;
  posy = 0;
  posz = 0;
}

abbrev pub eve : Session
eve = sign_on config eve_data (session full sent).next (make_client zeros (session full sent))

handled_ok :
    handle_request config zeros 11 full.buffer (length message) (session full sent) ≡ ok eve
unfolding handle_request session take_in do_read new_connection message_of handle_message
    handle_sign_on read_sign_on get_string get_char get_chars get_float
handled_ok = refl

abbrev pub joined : World
joined = set_connection 2 (answer eve full) (record sent { server = eve.server })

second_is_free : find 2 playing.connections ≡ none
unfolding set_connection accepted manager_start start put find
second_is_free = refl

opened_found : find 2 opened.connections ≡ some waiting
unfolding set_connection accepted manager_start start put find
opened_found = refl

first_is_there : find 1 joined.connections ≡ some played
unfolding set_connection accepted manager_start start put find
first_is_there = refl

first_was_there : find 1 sent.connections ≡ some played
unfolding set_connection accepted manager_start start put find
first_was_there = refl

sent-Reach : Reach config zeros sent
sent-Reach =
    then_
      (then_ playing-Reach (
        connect false 2 buffer second_is_free (length-replicate {A = ℕ} 8192 0)
          (unfold set_connection accepted manager_start start in refl)))
      (arrive 2 waiting message opened_found (unfold do_read in refl)
        (unfold do_read new_connection in cc) (omega arith))

eve_joins : Step config sent joined
eve_joins =
    read 2 full (length message) zeros 11 joined (find-set_connection 2 full opened)
      (unfold take_in in refl)
      (read_done_at config zeros 11 2 (length message) full sent eve handled_ok)

pub joined-Reach : Reach config zeros joined
joined-Reach = then_ sent-Reach eve_joins

-- dan's client gets news of eve, and nothing else happens to it.
Step-HasMore_example : HasMore (sent.server.heap 0) (joined.server.heap 0)
Step-HasMore_example =
    Step-HasMore config zeros sent-Reach eve_joins 1 0 played first_was_there first_is_there
      played_client

-- dan's update, which holds nothing.
abbrev busy : World
busy = set_connection 1 updating joined

busy-Reach : Reach config zeros busy
busy-Reach = then_ joined-Reach (
    arrive 1 played (message_code MessageType.update_game ∷ []) first_is_there played_reading
      played_open (omega arith))

updated : (t : World) × (read_done config zeros 12 1 1 updating busy ≡ ok t)
updated =
    read_done-returns config zeros busy-Reach zeros 12 1 1 0 updating
      (find-set_connection 1 updating joined) (unfold take_in in refl)
      (unfold take_in in played_client) (omega arith)

inbox_delivered_example :
    (d : Connection) × (more : List Reply) × (find 1 updated.0.connections ≡ some d)
    × (d.socket ≡ connected)
    × (d.handed ≡ updating.handed ++ (framed (reverse (busy.server.heap 0).inbox) ++ framed more))
inbox_delivered_example =
    inbox_delivered config zeros busy-Reach zeros 12 1 1 0 updating updated.0
      (find-set_connection 1 updating joined) (unfold take_in in played_connected)
      (unfold take_in in played_client) (unfold take_in in refl) updated.1
