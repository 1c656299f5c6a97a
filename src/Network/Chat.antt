-- ===== src/Network/Chat.antt =====
-- A chat line from one player's connection to the socket of another: `HandleChatMessage`, the inbox,
-- `HandleUpdate` and `do_write`, with the steps of the server in between.
use mathlib.Core.List.{reverse, reverse-append, reverse-cons}
use mathlib.Core.Option.{some-injective}
use ogmp_server.Base.{
  ℕ, ◌≡◌, ◌≢◌, refl, sym, ap, ◌∙◌, List, [], ◌∷◌, ◌++◌, append_assoc, true, ◌&&◌, some, ok, arith,
  get_elem?, ==_iff, if◌then◌else◌, subst, length, ◌%◌,
}
use ogmp_server.Text.{Str, codes, c_str}
use ogmp_server.Client.{Client, Uninitialised}
use ogmp_server.Client.Queues
use ogmp_server.Config.{Config}
use ogmp_server.Reply.{Reply, MessageType, message_code, add_bool, add_string, add_message_type}
use ogmp_server.Manager.{Server, is_recipient, add_to_inbox}
use ogmp_server.Manager.Broadcast.{listed}
use ogmp_server.Manager.Invariant.{IsServer, add_to_inbox_lem}
use ogmp_server.Handler.Session.{Session, on_client, on_server, print}
use ogmp_server.Handler.Messages.{read_chat, chat, chat_reply}
use ogmp_server.Handler.Keeps.Messages.{chat_read}
use ogmp_server.Handler.Leaves.{HasMore, HasMore-refl, HasMore-trans, write-other}
use ogmp_server.Handler.Dispatch.{message_of, handle_message, handle_request}
use ogmp_server.Network.Connection.{Connection, arrived, connected}
use ogmp_server.Network.Tables.{find}
use ogmp_server.Network.World.{World, session, set_connection, read_done}
use ogmp_server.Network.Clients.{HasClient, Step-HasClient}
use ogmp_server.Network.Isolation.{IsOther, Step-Grows}
use ogmp_server.Network.Delivery.{inbox_delivered}
use ogmp_server.Network.Write.{read_done_ok, framed, framed-append}
use ogmp_server.Network.Steps.{Step, read, then_, Reach}
use ogmp_server.Network.Invariant.StoreSteps.{Reach-HasStore}

-- Steps of the server in none of which a message of the connection at `b` is handled.
pub data Waits (config : Config) (b : ℕ) (w : World) : World → Type 0 where
  stands : Waits config b w w
  passes :
      {s t : World}
      → Waits config b w s
      → (st : Step config s t) → IsOther b st
      → Waits config b w t

module _ (config : Config) (u : Uninitialised) (b q : ℕ) {w : World} (r : Reach config u w) where
  Waits-Reach : {t : World} → Waits config b w t → Reach config u t
  Waits-Reach stands = r
  Waits-Reach (passes s st o) = then_ (Waits-Reach s) st

  Waits-HasClient : {t : World} → HasClient b q w → Waits config b w t → HasClient b q t
  Waits-HasClient h stands = h
  Waits-HasClient h (passes s st o) = Step-HasClient b q st (Waits-HasClient h s)

  Waits-HasMore :
      {t : World}
      → HasClient b q w
      → Waits config b w t
      → HasMore (w.server.heap q) (t.server.heap q)
  Waits-HasMore h stands = HasMore-refl (w.server.heap q)
  Waits-HasMore h (passes {s = s} {t = t} before st o) =
      HasMore-trans (w.server.heap q) (s.server.heap q) (t.server.heap q) (Waits-HasMore h before)
        (Step-Grows config u (Waits-Reach before) st b q (Waits-HasClient h before) o)

-- The message is among the others.
abbrev pub IsIn : Reply → List Reply → Type 0
IsIn m rs = (front : List Reply) × (back : List Reply) × (rs ≡ front ++ m ∷ back)

HasMore-IsIn : (m : Reply) (c d : Client) → HasMore c d → IsIn m c.inbox → IsIn m d.inbox
HasMore-IsIn m c d (more, e) (front, back, f) = (
  front,
  back ++ more,
  ap (λ (x : Client). x.inbox) e ∙ (ap (λ r. r ++ more) f ∙ append_assoc front (m ∷ back) more),
)

reverse-IsIn : (m : Reply) (rs : List Reply) → IsIn m rs → IsIn m (reverse rs)
reverse-IsIn m rs (front, back, e) = (
  reverse back,
  reverse front,
  ap reverse e
      ∙ reverse-append front (m ∷ back)
      ∙ ap (λ r. r ++ reverse front) (reverse-cons m back)
      ∙ append_assoc (reverse back) (m ∷ []) (reverse front),
)

pub chat-request :
    (config : Config) (u : Uninitialised) (now : ℕ) (data_ : List ℕ) (size p : ℕ) (s : Session)
    (r : (Str × Str) × ℕ)
    → get_elem? data_ 0 ≡ some (message_code MessageType.message)
    → read_chat data_ 1 ≡ ok r
    → s.this_client ≡ some p
    → handle_request config u now data_ size s ≡ ok (chat p r.0.1 s)
unfolding handle_request handle_message message_of
chat-request config u now data_ size p s r e said own =
    rw (e, handle_request) (chat_read data_ s r p said own)

-- The line is at the end of the inboxes of the players on the sender's level.
chat-inbox :
    (p q : ℕ) (content : Str) (s : Session)
    → IsServer s.server
    → (listed q s.clients && is_recipient s.heap (some p) q) ≡ true
    → ((chat p content s).heap q).inbox
      ≡ (s.heap q).inbox ++ chat_reply (s.heap p).username content ∷ []
unfolding chat on_client on_server print Queues.add_to_inbox
chat-inbox p q content s v reached =
    ap (λ (c : Client). c.inbox)
      (write-other p q _ (add_to_inbox message (some p) logged).heap other
        ∙ add_to_inbox_lem message (some p) logged q valid
        ∙ taken)
  where
    message : Reply
    message = chat_reply (s.heap p).username content

    logged : Server
    logged = (print ((s.heap p).username ++ (codes ": " ++ content)) s).server

    valid : IsServer logged
    valid = record { sorted = v.sorted; named = v.named; allocated = v.allocated }

    taken :
        (if listed q s.clients && is_recipient s.heap (some p) q
          then Queues.add_to_inbox message (s.heap q)
          else s.heap q)
        ≡ Queues.add_to_inbox message (s.heap q)
    taken = rw reached refl

    other : p ≢ q
    other same = absurd (unfold is_recipient in ground (arith, ==_iff q p))

-- What is said on one connection gets into the inbox of the other's player.
said-IsIn :
    (config : Config) (u : Uninitialised) {w t : World}
    → Reach config u w
    → (v : Uninitialised) (now a size p : ℕ) (c : Connection) (r : (Str × Str) × ℕ) (q : ℕ)
    → c.this_client ≡ some p
    → get_elem? c.buffer 0 ≡ some (message_code MessageType.message)
    → read_chat c.buffer 1 ≡ ok r
    → read_done config v now a size c w ≡ ok t
    → (listed q w.server.clients && is_recipient w.server.heap (some p) q) ≡ true
    → IsIn (chat_reply (w.server.heap p).username r.0.1) (t.server.heap q).inbox
unfolding session set_connection
said-IsIn config u {w} {t} reach v now a size p c r q own kind said done reached =
    let (s, handled, result) = read_done_ok config v now a size c w t done in
    let request = chat-request config v now c.buffer size p (session c w) r kind said own in
    (
      (w.server.heap q).inbox,
      [],
      ap (λ (x : World). (x.server.heap q).inbox) result
          ∙ ap (λ (x : Session). (x.heap q).inbox) (spoken s (sym request ∙ handled))
          ∙ chat-inbox p q r.0.1 (session c w) (Reach-HasStore config u reach).server reached,
    )
  where
    spoken : (s : Session) → ok (chat p r.0.1 (session c w)) ≡ ok s → s ≡ chat p r.0.1 (session c w)
    spoken s e = cc

-- The bytes of a chat line: the kind of message, the name and what is said, each as a C string behind
-- its length modulo 256, and a zero, since it is not from the server.
abbrev pub chat_line : Str → Str → Reply
chat_line name content =
    1 ∷ (length (c_str name) % 256 ∷ c_str name)
    ++ ((length (c_str content) % 256 ∷ c_str content) ++ 0 ∷ [])

chat_reply_lem : (name content : Str) → chat_reply name content ≡ chat_line name content
unfolding chat_reply add_bool add_string add_message_type
chat_reply_lem name content =
    append_assoc (1 ∷ length (c_str name) % 256 ∷ c_str name)
      (length (c_str content) % 256 ∷ c_str content) (0 ∷ [])

-- In a world that the server reaches, player `p` says something on the connection at `a`, and the
-- connection at `b` has player `q`, who is in the map of players and on the level of `p`. Whatever the
-- server does in between, as long as it handles no message of the connection at `b`: when the next
-- message of `b` is an update, the socket of `b` is open, and the update is handled to its end, the
-- chat line of `p`, with the name that `p` had and what was said, is one of the messages that are
-- handed to `async_write` on the open socket of `b`, each whole and with its size, behind what has been
-- handed to it before.
pub chat_delivered :
    (config : Config) (u : Uninitialised) {w t x y : World}
    → Reach config u w
    → (v : Uninitialised) (now a size p : ℕ) (c : Connection) (r : (Str × Str) × ℕ) (b q : ℕ)
    → find a w.connections ≡ some c
    → c.reading ≡ arrived size
    → c.this_client ≡ some p
    → get_elem? c.buffer 0 ≡ some (message_code MessageType.message)
    → read_chat c.buffer 1 ≡ ok r
    → read_done config v now a size c w ≡ ok t
    → HasClient b q w
    → (listed q w.server.clients && is_recipient w.server.heap (some p) q) ≡ true
    → Waits config b t x
    → (v' : Uninitialised) (now' size' : ℕ) (e : Connection) → find b x.connections ≡ some e
    → e.socket ≡ connected
    → get_elem? e.buffer 0 ≡ some (message_code MessageType.update_game)
    → read_done config v' now' b size' e x ≡ ok y
    → (f : Connection) × (before : List Reply) × (after : List Reply) × (find b y.connections
        ≡ some f)
      × (f.socket ≡ connected)
      × (f.handed
          ≡ e.handed ++ framed (before ++ chat_line (w.server.heap p).username r.0.1 ∷ after))
chat_delivered config u {w} {t} {x} {y} reach v now a size p c r b q here' busy own kind said done
      there reached waits v' now' size' e found open_ kind' done' =
    let said_line = chat_line (w.server.heap p).username r.0.1 in
    let st = read a c size v now t here' busy done in
    let after = then_ reach st in
    let there' = Step-HasClient b q st there in
    let kept =
      HasMore-IsIn said_line (t.server.heap q) (x.server.heap q)
        (Waits-HasMore config u b q after there' waits)
        (subst (λ m. IsIn m (t.server.heap q).inbox)
          (chat_reply_lem (w.server.heap p).username r.0.1)
          (said-IsIn config u reach v now a size p c r q own kind said done reached)) in
    let (before, behind, stands_in) = reverse-IsIn said_line (x.server.heap q).inbox kept in
    let (f, more, found_after, still_open, written) =
      inbox_delivered config u (Waits-Reach config u b q after waits) v' now' b size' q e y found
        open_ (theirs (Waits-HasClient config u b q after there' waits)) kind' done' in
    (
      f,
      before,
      behind ++ more,
      found_after,
      still_open,
      written
          ∙ ap (λ z. e.handed ++ z)
              (sym (framed-append (reverse (x.server.heap q).inbox) more)
                ∙ ap framed (
                    ap (λ z. z ++ more) stands_in ∙ append_assoc before (said_line ∷ behind) more)),
    )
  where
    theirs : HasClient b q x → e.this_client ≡ some q
    theirs (d, f, own_of_b) =
        ap (λ (z : Connection). z.this_client) (some-injective e d (sym found ∙ f)) ∙ own_of_b
