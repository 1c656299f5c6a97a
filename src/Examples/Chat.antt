-- ===== src/Examples/Chat.antt =====
-- The second player says something, and the first one's next update takes it to its socket.
use ogmp_server.Base.{
  ◌≡◌, ◌≢◌, refl, sym, ap, ◌∙◌, List, [], ◌∷◌, ◌++◌, some, ok, arith, length, true, ◌&&◌,
}
use ogmp_server.Text.{Str, codes, str_eq, str_lt, c_str}
use ogmp_server.Reply.{Reply, MessageType, message_code}
use ogmp_server.Input.{get_string, get_char, get_chars}
use ogmp_server.Manager.{is_recipient, get_clients, add_to_inbox, others, add_client, broadcast}
use ogmp_server.StringMap.{insert}
use ogmp_server.Client.Queues
use ogmp_server.Client.Record.{new_client}
use ogmp_server.Client.Setters.{
  set_signed_on, set_character, set_saved_posz, set_saved_posy, set_saved_posx, set_posz, set_posy,
  set_posx, set_level_name, set_level_path, set_team, set_username,
}
use ogmp_server.Manager.Broadcast.{listed}
use ogmp_server.Handler.Session.{
  Session, make_client, on_server, print, push_reply, on_client, server_message,
}
use ogmp_server.Handler.SignOn.{
  sign_on, is_invalid, is_forbidden, is_taken, accept, announce, enter, entered, spawn_others,
  fill_client, default_name, is_allowed,
}
use ogmp_server.Handler.Messages.{read_chat, chat}
use ogmp_server.Handler.Keeps.SignOn.{sign_on-Keeps}
use ogmp_server.Network.Connection.{
  Connection, connected, closed, pending, new_connection, do_read, take_in,
}
use ogmp_server.Network.Tables.{find, put}
use ogmp_server.Network.World.{
  World, session, set_connection, accepted, manager_start, answer, read_done,
}
use ogmp_server.Network.Stop.{find-set_connection}
use ogmp_server.Network.Write.{answer_lem, read_done_at, framed}
use ogmp_server.Network.Steps.{Step, arrive, read, then_, start, Reach}
use ogmp_server.Network.Progress.{read_done-returns}
use ogmp_server.Network.Chat.{Waits, chat_line, stands, passes, chat-request, chat_delivered}
use ogmp_server.Examples.{zeros, config}
use ogmp_server.Examples.Network.{
  counted, played, played_client, played_reading, played_open, played_connected, updating,
}
use ogmp_server.Examples.Delivery.{sent, full, eve_data, eve, joined, joined-Reach}

abbrev line : Str
line = message_code MessageType.message ∷ counted (codes "eve") ++ counted (codes "hi")

abbrev signed_on : Connection
signed_on = answer eve full

abbrev speaking : Connection
speaking = take_in line signed_on

abbrev talking : World
talking = set_connection 2 speaking joined

signed_on_reading : signed_on.reading ≡ pending
signed_on_reading = ap (λ (c : Connection). c.reading) (answer_lem eve full)

signed_on_open : signed_on.socket ≢ closed
unfolding take_in do_read new_connection
signed_on_open e =
    absurd (apart (sym (ap (λ (c : Connection). c.socket) (answer_lem eve full)) ∙ e))
  where
    apart : connected ≢ closed
    apart f = cc

second : (make_client zeros (session full sent)).this_client ≡ some 1
unfolding listed is_recipient sign_on is_invalid is_forbidden is_taken get_clients make_client
    session set_connection accepted start manager_start accept announce on_server add_to_inbox print
    enter spawn_others others push_reply add_client insert on_client str_eq fill_client
    set_signed_on set_character set_saved_posz set_saved_posy set_saved_posx set_posz set_posy
    set_posx set_level_name set_level_path set_team set_username new_client Queues.add_to_inbox
    server_message entered default_name is_allowed str_lt c_str broadcast put chat take_in
second = refl

signed_on_client : signed_on.this_client ≡ some 1
signed_on_client =
    ap (λ (c : Connection). c.this_client) (answer_lem eve full)
    ∙ (sign_on-Keeps config eve_data (session full sent).next
        (make_client zeros (session full sent))).client
    ∙ second

talking-Reach : Reach config zeros talking
talking-Reach = then_ joined-Reach (
    arrive 2 signed_on line (find-set_connection 2 signed_on _) signed_on_reading signed_on_open
      (omega arith))

abbrev spoken : Session
spoken = chat 1 (codes "hi") (session speaking talking)

abbrev told : World
told = set_connection 2 (answer spoken speaking) (record talking { server = spoken.server })

said : read_chat speaking.buffer 1 ≡ ok ((codes "eve", codes "hi"), 8)
unfolding take_in read_chat get_string get_char get_chars
said = refl

told_done : read_done config zeros 12 2 (length line) speaking talking ≡ ok told
told_done = read_done_at config zeros 12 2 (length line) speaking talking spoken (
    chat-request config zeros 12 speaking.buffer (length line) 1 (session speaking talking)
      ((codes "eve", codes "hi"), 8) (unfold take_in in refl) said
      (unfold session take_in in signed_on_client))

first_is_there : find 1 talking.connections ≡ some played
unfolding set_connection accepted manager_start start put find
first_is_there = refl

first_stays : find 1 told.connections ≡ some played
unfolding set_connection accepted manager_start start put find
first_stays = refl

first_hears :
    (listed 0 talking.server.clients && is_recipient talking.server.heap (some 1) 0) ≡ true
unfolding listed is_recipient sign_on is_invalid is_forbidden is_taken get_clients make_client
    session set_connection accepted start manager_start accept announce on_server add_to_inbox print
    enter spawn_others others push_reply add_client insert on_client str_eq fill_client
    set_signed_on set_character set_saved_posz set_saved_posy set_saved_posx set_posz set_posy
    set_posx set_level_name set_level_path set_team set_username new_client Queues.add_to_inbox
    server_message entered default_name is_allowed str_lt c_str broadcast put chat take_in
first_hears = refl

-- dan's update, which holds nothing.
abbrev busy : World
busy = set_connection 1 updating told

busy-Waits : Waits config 1 told busy
busy-Waits =
    passes stands
      (arrive 1 played (message_code MessageType.update_game ∷ []) first_stays played_reading
        played_open (omega arith))
      tt

busy-Reach : Reach config zeros busy
busy-Reach = then_ (then_ talking-Reach talks) (
    arrive 1 played (message_code MessageType.update_game ∷ []) first_stays played_reading
      played_open (omega arith))
  where
    talks : Step config talking told
    talks =
        read 2 speaking (length line) zeros 12 told (find-set_connection 2 speaking joined)
          (unfold take_in in refl) told_done

updated : (t : World) × (read_done config zeros 13 1 1 updating busy ≡ ok t)
updated =
    read_done-returns config zeros busy-Reach zeros 13 1 1 0 updating
      (find-set_connection 1 updating told) (unfold take_in in refl)
      (unfold take_in in played_client) (omega arith)

chat_delivered_example :
    (f : Connection) × (before : List Reply) × (after : List Reply) × (find 1 updated.0.connections
      ≡ some f)
    × (f.socket ≡ connected)
    × (f.handed
        ≡ updating.handed
          ++ framed (before ++ chat_line (talking.server.heap 1).username (codes "hi") ∷ after))
chat_delivered_example =
    chat_delivered config zeros talking-Reach zeros 12 2 (length line) 1 speaking
      ((codes "eve", codes "hi"), 8) 1 0 (find-set_connection 2 speaking joined)
      (unfold take_in in refl) (unfold take_in in signed_on_client) (unfold take_in in refl) said
      told_done (played, first_is_there, played_client) first_hears busy-Waits zeros 13 1 updating
      (find-set_connection 1 updating told) (unfold take_in in played_connected)
      (unfold take_in in refl) updated.1
