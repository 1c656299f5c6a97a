-- ===== src/Handler/Farewell.antt =====
-- What the other players are told when a player enters and leaves, by `HandleSignOn` and
-- `client_disconnected` of src/request_handler.cpp.
use ogmp_server.Base.{ℕ, ◌≡◌, ◌∙◌, ap, ◌&&◌, [], some, if◌then◌else◌}
use ogmp_server.Client.{Client}
use ogmp_server.Client.Queues
use ogmp_server.Manager.{is_recipient, add_to_inbox, remove_client}
use ogmp_server.Manager.Broadcast.{listed}
use ogmp_server.Manager.Invariant.{
  IsServer, add_to_inbox-initiator, add_to_inbox_twice, remove_client_all,
}
use ogmp_server.Handler.Session.{Session, on_server, print, server_message}
use ogmp_server.Handler.SignOn.{announce, entered, spawn_reply}
use ogmp_server.Handler.Messages.{disconnect, client_disconnected, left, remove_character_reply}

announce-server :
    (p : ℕ) (s : Session)
    → IsServer s.server
    → (announce p s).heap
      ≡ (add_to_inbox
          (spawn_reply (s.heap p).username (s.heap p).team (s.heap p))
          (some p)
          (add_to_inbox (server_message (entered (s.heap p).username)) (some p) s.server)).heap
unfolding announce on_server print add_to_inbox
announce-server p s v =
    ap
      (λ (c : Client).
        (add_to_inbox (spawn_reply c.username c.team c) (some p)
          (add_to_inbox (server_message (entered (s.heap p).username)) (some p) s.server)).heap)
      (add_to_inbox-initiator (server_message (entered (s.heap p).username)) p s.server v)

-- Where the map of players is well formed, a player who enters is announced: the other players in
-- the map on the same level get the chat line and then the message that shows the player, at the
-- end of their inboxes, and no other client changes.
pub announce_lem :
    (p q : ℕ) (s : Session)
    → IsServer s.server
    → (announce p s).heap q ≡ (
        if listed q s.clients && is_recipient s.heap (some p) q
        then Queues.add_to_inbox
            (spawn_reply (s.heap p).username (s.heap p).team (s.heap p))
            (Queues.add_to_inbox (server_message (entered (s.heap p).username)) (s.heap q))
        else s.heap q)
announce_lem p q s v =
    ap (λ (h : ℕ → Client). h q) (announce-server p s v)
    ∙ add_to_inbox_twice (server_message (entered (s.heap p).username))
        (spawn_reply (s.heap p).username (s.heap p).team (s.heap p)) p q s.server v

disconnect-heap :
    (p : ℕ) (s : Session)
    → IsServer s.server
    → (disconnect p s).heap
      ≡ (add_to_inbox
          (remove_character_reply (s.heap p).username)
          (some p)
          (add_to_inbox (server_message (left (s.heap p).username)) (some p) s.server)).heap
unfolding disconnect on_server print add_to_inbox remove_client
disconnect-heap p s v =
    ap
      (λ (c : Client).
        (add_to_inbox (remove_character_reply c.username) (some p)
          (add_to_inbox (server_message (left (s.heap p).username)) (some p) s.server)).heap)
      (add_to_inbox-initiator (server_message (left (s.heap p).username)) p s.server v)

-- Where the map of players is well formed, and a connection with a client ends, the other players
-- in the map on the client's level get the chat line and the message that removes the character,
-- and no other client changes; and the map of players is empty afterwards, whoever else is
-- connected.
pub client_disconnected_lem :
    (p q : ℕ) (s : Session)
    → IsServer s.server
    → s.this_client ≡ some p
    → ((client_disconnected s).heap q ≡ (
        if listed q s.clients && is_recipient s.heap (some p) q
        then Queues.add_to_inbox
            (remove_character_reply (s.heap p).username)
            (Queues.add_to_inbox (server_message (left (s.heap p).username)) (s.heap q))
        else s.heap q))
      × ((client_disconnected s).clients ≡ [])
unfolding client_disconnected
client_disconnected_lem p q s v e =
    rw (e, client_disconnected)
      (
        ap (λ (h : ℕ → Client). h q) (disconnect-heap p s v)
            ∙ add_to_inbox_twice (server_message (left (s.heap p).username))
                (remove_character_reply (s.heap p).username) p q s.server v,
        cleared,
      )
  where
    cleared : (disconnect p s).clients ≡ []
    cleared =
        unfold disconnect on_server print add_to_inbox remove_client in
        remove_client_all p s.server v
