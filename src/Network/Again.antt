-- ===== src/Network/Again.antt =====
-- A connection that is stopped twice: `stop` of src/connection.cpp on a connection whose read or wait
-- is aborted by an earlier `stop`.
use ogmp_server.Base.{ℕ, ◌≡◌, ap, false, ◌&&◌, [], some, if◌then◌else◌}
use ogmp_server.Client.Queues
use ogmp_server.Config.{Config}
use ogmp_server.Client.{Uninitialised}
use ogmp_server.Manager.{is_recipient}
use ogmp_server.Manager.Broadcast.{listed}
use ogmp_server.Handler.Session.{server_message}
use ogmp_server.Handler.Messages.{client_disconnected, left, remove_character_reply}
use ogmp_server.Handler.Farewell.{client_disconnected_lem}
use ogmp_server.Network.Connection.{Connection, idle, pending, cancel_one}
use ogmp_server.Network.Tables.{find, contains}
use ogmp_server.Network.World.{World, session, set_connection, read_failed}
use ogmp_server.Network.Watch.{manager_stop_at}
use ogmp_server.Network.Steps.{Reach}
use ogmp_server.Network.Invariant.StoreSteps.{Reach-HasStore}

-- The shared state after a failed read is the one that `client_disconnected` leaves.
read_failed-server :
    (a : ℕ) (c : Connection) (w : World)
    → (read_failed a c w).server ≡ (client_disconnected (session c w)).server
unfolding read_failed session set_connection cancel_one
read_failed-server a c w =
    ap (λ (v : World). v.server)
      (manager_stop_at a (record c { reading = idle; waiting = false }) w)

-- In a world that the server reaches, a connection that has been stopped, with the read that this
-- aborts still outstanding and with a client, says farewell again when the handler of the read runs:
-- the players who are in the map by then and on the client's level get the chat line and the message
-- that removes the character, no other client changes, and every player is taken out of the map.
pub stopped_again :
    (config : Config) (u : Uninitialised) {w : World}
    → Reach config u w
    → (a p q : ℕ) (c : Connection) → find a w.connections ≡ some c
    → contains a w.managed ≡ false
    → c.reading ≡ pending
    → c.this_client ≡ some p
    → ((read_failed a c w).server.heap q ≡ (
        if listed q w.server.clients && is_recipient w.server.heap (some p) q
        then Queues.add_to_inbox (remove_character_reply (w.server.heap p).username) (
            Queues.add_to_inbox
              (server_message (left (w.server.heap p).username))
              (w.server.heap q))
        else w.server.heap q))
      × ((read_failed a c w).server.clients ≡ [])
unfolding session
stopped_again config u {w} r a p q c e gone waits here =
    rw (read_failed-server a c w)
      (client_disconnected_lem p q (session c w) (Reach-HasStore config u r).server here)
