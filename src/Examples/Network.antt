-- ===== src/Examples/Network.antt =====
-- A connection that signs a player on, times out, and is stopped again by its aborted read.
use ogmp_server.Base.{
  ℕ, ◌≡◌, ◌≢◌, refl, sym, ap, ◌∙◌, ◌&&◌, if◌then◌else◌, [], ◌∷◌, ◌++◌, some, arith, replicate,
  length, length-replicate, true, false, ok,
}
use ogmp_server.Text.{Str, codes}
use ogmp_server.Reply.{MessageType, message_code}
use ogmp_server.Handler.Session.{Session, make_client}
use ogmp_server.Handler.Keeps.SignOn.{sign_on-Keeps}
use ogmp_server.Handler.Dispatch.{handle_request}
use ogmp_server.Network.Connection.{
  Connection, new_connection, do_read, take_in, connected, closed, close, pending,
}
use ogmp_server.Network.Tables.{put, find, contains}
use ogmp_server.Network.World.{
  World, session, set_connection, accepted, manager_start, answer, read_done, read_failed,
  stop_each, stop_all, signalled,
}
use ogmp_server.Handler.Dispatch.{message_of, handle_message}
use ogmp_server.Handler.SignOn.{SignOnData, handle_sign_on, read_sign_on, sign_on}
use ogmp_server.Input.{get_string, get_char, get_chars, get_float}
use ogmp_server.Network.Stop.{find-set_connection}
use ogmp_server.Network.Write.{answer_lem, read_done_at}
use ogmp_server.Network.Steps.{
  Step, connect, arrive, read, signal, Steps, here, then_, start, Reach,
}
use mathlib.Core.WellFounded.{Acc}
use ogmp_server.Client.Queues
use ogmp_server.Manager.{is_recipient}
use ogmp_server.Manager.Broadcast.{listed}
use ogmp_server.Handler.Session.{server_message}
use ogmp_server.Handler.Messages.{client_disconnected, left, remove_character_reply}
use ogmp_server.Network.Stop.{stop-some}
use ogmp_server.Network.Tables.{insert}
use ogmp_server.Network.Invariant.StoreSteps.{HasStore, Reach-HasStore}
use ogmp_server.Network.Invariant.Watch.{HasWatch, Reach-HasWatch}
use ogmp_server.Network.Silence.{HasLost, silence_ends}
use ogmp_server.Network.Ends.{signalled-Acc}
use ogmp_server.Network.Progress.{read_done-returns}
use ogmp_server.Network.Again.{stopped_again}
use ogmp_server.Examples.{zeros, config}

abbrev pub counted : Str → Str
counted s = length s ∷ s

-- dan's sign-on.
abbrev message : Str
message =
    message_code MessageType.sign_on ∷ counted (codes "dan")
    ++ counted (codes "c.xml")
    ++ counted (codes "A level")
    ++ counted (codes "a.xml")
    ++ counted (codes "1")
    ++ replicate 12 0

abbrev pub buffer : Str
buffer = replicate 8192 0

abbrev opened : World
opened = accepted false 1 buffer (start zeros)

abbrev pub waiting : Connection
waiting = do_read (new_connection buffer)

abbrev sent : World
sent = set_connection 1 (take_in message waiting) opened

abbrev full : Connection
full = take_in message waiting

abbrev dan_data : SignOnData
dan_data = record {
  username = codes "dan";
  character = codes "c.xml";
  levelname = codes "A level";
  levelpath = codes "a.xml";
  version = codes "1";
  posx = 0;
  posy = 0;
  posz = 0;
}

abbrev dan : Session
dan = sign_on config dan_data 0 (make_client zeros (session full sent))

handled_ok : handle_request config zeros 9 full.buffer (length message) (session full sent) ≡ ok dan
unfolding handle_request session take_in do_read new_connection message_of handle_message
    handle_sign_on read_sign_on get_string get_char get_chars get_float set_connection accepted
    manager_start start
handled_ok = refl

-- dan has the first client.
dan_client : dan.this_client ≡ some 0
dan_client =
    (sign_on-Keeps config dan_data 0 (make_client zeros (session full sent))).client
    ∙ (unfold make_client session set_connection accepted manager_start start in refl)

abbrev pub played : Connection
played = answer dan full

abbrev pub playing : World
playing = set_connection 1 played (record sent { server = dan.server })

opened_found : find 1 opened.connections ≡ some waiting
unfolding accepted manager_start start set_connection put find
opened_found = refl

pub playing-Reach : Reach config zeros playing
playing-Reach =
    then_
      (then_
        (then_ here (
          connect false 1 buffer (unfold start find in refl) (length-replicate {A = ℕ} 8192 0)
            (unfold start in refl)))
        (arrive 1 waiting message opened_found (unfold do_read in refl)
          (unfold do_read new_connection in cc) (omega arith)))
      (read 1 full (length message) zeros 9 playing (find-set_connection 1 full opened)
        (unfold take_in in refl)
        (read_done_at config zeros 9 1 (length message) full sent dan handled_ok))

pub played_client : played.this_client ≡ some 0
played_client = ap (λ (c : Connection). c.this_client) (answer_lem dan full) ∙ dan_client

Reach-HasStore_example : HasStore playing
Reach-HasStore_example = Reach-HasStore config zeros playing-Reach

Reach-HasWatch_example : HasWatch playing
Reach-HasWatch_example = Reach-HasWatch config zeros playing-Reach

played_found : find 1 playing.connections ≡ some played
played_found = find-set_connection 1 played (record sent { server = dan.server })

-- dan's connection is in the manager's set.
playing_managed : contains 1 playing.managed ≡ true
unfolding set_connection accepted manager_start insert contains start
playing_managed = refl

silence_ends_example : (t : World) × Steps config playing t × HasLost 1 playing t
silence_ends_example = silence_ends config zeros playing-Reach 1 playing_managed

signalled-Acc_example : Acc (λ t v. Step config v t) (signalled playing)
signalled-Acc_example = signalled-Acc config zeros playing-Reach

-- An update without a variable arrives.
abbrev pub updating : Connection
updating = take_in (message_code MessageType.update_game ∷ []) played

abbrev busy : World
busy = set_connection 1 updating playing

pub played_reading : played.reading ≡ pending
played_reading = ap (λ (c : Connection). c.reading) (answer_lem dan full)

pub played_connected : played.socket ≡ connected
unfolding take_in do_read new_connection
played_connected = ap (λ (c : Connection). c.socket) (answer_lem dan full)

pub played_open : played.socket ≢ closed
unfolding take_in do_read new_connection
played_open e = absurd (ap_cc (sym (ap (λ (c : Connection). c.socket) (answer_lem dan full)) ∙ e))
  where
    ap_cc : connected ≡ closed → ⊥
    ap_cc f = cc

busy-Reach : Reach config zeros busy
busy-Reach = then_ playing-Reach (
    arrive 1 played (message_code MessageType.update_game ∷ []) played_found played_reading
      played_open (omega arith))

read_done-returns_example : (t : World) × (read_done config zeros 10 1 1 updating busy ≡ ok t)
read_done-returns_example =
    read_done-returns config zeros busy-Reach zeros 10 1 1 0 updating
      (find-set_connection 1 updating playing) (unfold take_in in refl)
      (unfold take_in in played_client) (omega arith)

pub playing_awaits : playing.awaiting ≡ true
playing_awaits = unfold set_connection accepted manager_start start in refl

-- The server is told to stop; dan's read is aborted, and its handler runs.
abbrev ended : World
ended = signalled playing

abbrev aborted : Connection
aborted = close played

ended_found : find 1 ended.connections ≡ some aborted
unfolding signalled stop_all stop_each set_connection accepted manager_start insert start
ended_found =
    ap (λ (v : World). find 1 v.connections) (stop-some 1 played stopping played_found)
    ∙ find-set_connection 1 aborted
        (record stopping { server = (client_disconnected (session played stopping)).server })
  where
    stopping : World
    stopping = record playing { accepting = false; awaiting = false }

stopped_again_example :
    ((read_failed 1 aborted ended).server.heap 0 ≡ (
      if listed 0 ended.server.clients && is_recipient ended.server.heap (some 0) 0
      then Queues.add_to_inbox (remove_character_reply (ended.server.heap 0).username) (
          Queues.add_to_inbox
            (server_message (left (ended.server.heap 0).username))
            (ended.server.heap 0))
      else ended.server.heap 0))
    × ((read_failed 1 aborted ended).server.clients ≡ [])
stopped_again_example =
    stopped_again config zeros (then_ playing-Reach (signal playing_awaits)) 1 0 0 aborted
      ended_found gone aborted_reading aborted_client
  where
    gone : contains 1 ended.managed ≡ false
    gone = unfold signalled stop_all contains in refl

    aborted_reading : aborted.reading ≡ pending
    aborted_reading = unfold close in played_reading

    aborted_client : aborted.this_client ≡ some 0
    aborted_client = unfold close in played_client
