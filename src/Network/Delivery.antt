-- ===== src/Network/Delivery.antt =====
-- From a player's inbox to its socket: `HandleUpdate` of src/request_handler.cpp and `do_write` of
-- src/connection.cpp.
use mathlib.Core.List.{reverse}
use ogmp_server.Base.{ℕ, ◌≡◌, refl, sym, ap, ◌∙◌, List, [], ◌++◌, some, ok, get_elem?}
use ogmp_server.Client.{Client, Uninitialised}
use ogmp_server.Config.{Config}
use ogmp_server.Reply.{Reply, MessageType, message_code}
use ogmp_server.Handler.Session.{Session}
use ogmp_server.Handler.Update.{handle_update}
use ogmp_server.Handler.Update.Inbox.{Delivers, handle_update-Delivers}
use ogmp_server.Handler.Dispatch.{message_of, handle_message, handle_request}
use ogmp_server.Network.Connection.{Connection, connected}
use ogmp_server.Network.Tables.{find}
use ogmp_server.Network.World.{World, session, answer, read_done}
use ogmp_server.Network.Stop.{find-set_connection}
use ogmp_server.Network.Stream.{Reach-IsStream}
use ogmp_server.Network.Write.{answer_lem, read_done_ok, framed, framed-append}
use ogmp_server.Network.Steps.{Reach}

update-request :
    (config : Config) (u : Uninitialised) (now : ℕ) (data_ : List ℕ) (size : ℕ) (s : Session)
    → get_elem? data_ 0 ≡ some (message_code MessageType.update_game)
    → handle_request config u now data_ size s ≡ handle_update now data_ 1 size s
unfolding handle_request handle_message message_of
update-request config u now data_ size s e = rw (e, handle_request) refl

handed-Delivers :
    (c : Client) (d : Connection) (s t : Session)
    → d.replies ≡ []
    → s.rep ≡ d.replies
    → Delivers c s t
    → (more : List Reply) × ((answer t d).handed
        ≡ d.handed ++ (framed (reverse c.inbox) ++ framed more))
handed-Delivers c d s t none_left same (more, e) = (
  more,
  ap (λ (x : Connection). x.handed) (answer_lem t d)
      ∙ ap (λ r. d.handed ++ framed r)
          (e ∙ ap (λ r. r ++ (reverse c.inbox ++ more)) (same ∙ none_left))
      ∙ ap (λ r. d.handed ++ r) (framed-append (reverse c.inbox) more),
)

-- In a world that the server reaches, when an update of a player has been read, the player's socket is
-- open, and the update is handled to its end, every message that is in the player's inbox at that time
-- is handed to `async_write` on the open socket, whole and with its size, one call for each, the newest
-- message first; anything else that the update is answered with comes behind them.
pub inbox_delivered :
    (config : Config) (u : Uninitialised) {w : World}
    → Reach config u w
    → (v : Uninitialised) (now a size p : ℕ) (c : Connection) (t : World)
    → find a w.connections ≡ some c
    → c.socket ≡ connected
    → c.this_client ≡ some p
    → get_elem? c.buffer 0 ≡ some (message_code MessageType.update_game)
    → read_done config v now a size c w ≡ ok t
    → (d : Connection) × (more : List Reply) × (find a t.connections ≡ some d)
      × (d.socket ≡ connected)
      × (d.handed ≡ c.handed ++ (framed (reverse (w.server.heap p).inbox) ++ framed more))
unfolding session
inbox_delivered config u {w} r v now a size p c t e open_ here kind f =
    let (rs, sent, none_left, le) = Reach-IsStream config u r a c e in
    let (s, handled, result) = read_done_ok config v now a size c w t f in
    let updated = sym (update-request config v now c.buffer size (session c w) kind) ∙ handled in
    let delivers = handle_update-Delivers now c.buffer 1 size p (session c w) s here updated in
    let (more, written) =
      handed-Delivers (w.server.heap p) c (session c w) s none_left refl delivers in
    (
      answer s c,
      more,
      rw result (find-set_connection a (answer s c) (record w { server = s.server })),
      ap (λ (x : Connection). x.socket) (answer_lem s c) ∙ open_,
      written,
    )
