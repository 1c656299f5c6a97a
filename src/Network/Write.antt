-- ===== src/Network/Write.antt =====
-- What `do_write` of src/connection.cpp hands to the socket.
use ogmp_server.Base.{
  suc, ℕ, ◌+◌, ◌≡◌, refl, ◌∙◌, ap, sym, List, [], ◌∷◌, ◌++◌, append_assoc, append-nil, length,
  arith, ok, true, Result-cases, inl, inr,
}
use ogmp_server.Reply.{Reply, add_size_byte}
use ogmp_server.Client.{Uninitialised}
use ogmp_server.Config.{Config}
use ogmp_server.Handler.Session.{Session}
use ogmp_server.Handler.Dispatch.{handle_request}
use ogmp_server.Network.Connection.{
  Connection, pending, do_read, do_write, write_replies, cancel_one,
}
use ogmp_server.Network.World.{World, session, set_connection, answer, read_done}

-- Each reply with its size.
unfoldable pub framed : List Reply → List (List ℕ)
framed [] = []
framed (r ∷ rs) = add_size_byte r ∷ framed rs

pub framed-append : (rs qs : List Reply) → framed (rs ++ qs) ≡ framed rs ++ framed qs
unfolding framed
framed-append [] qs = refl
framed-append (r ∷ rs) qs = ap (λ t. add_size_byte r ∷ t) (framed-append rs qs)

-- The replies with their sizes, one call of `async_write` for each.
write_replies_lem :
    (rs : List Reply) (c : Connection)
    → write_replies rs c
      ≡ record c { handed = c.handed ++ framed rs; writing = c.writing + length rs; replies = [] }
unfolding write_replies framed
write_replies_lem [] c = λ i. record c {
  handed = sym (append-nil c.handed) i;
  writing = zero_more c.writing i;
  replies = [];
}
  where
    zero_more : (n : ℕ) → n ≡ n + 0
    zero_more n = omega arith
write_replies_lem (r ∷ rs) c =
    write_replies_lem rs (record c {
      handed = c.handed ++ add_size_byte r ∷ [];
      writing = c.writing + 1;
      replies = rs;
    })
    ∙ (λ i. record c {
      handed = append_assoc c.handed (add_size_byte r ∷ []) (framed rs) i;
      writing = one_more c.writing (length rs) i;
      replies = [];
    })
  where
    one_more : (n k : ℕ) → n + 1 + k ≡ n + suc k
    one_more n k = omega arith

pub answer_lem :
    (s : Session) (c : Connection)
    → answer s c ≡ record c {
      this_client = s.this_client;
      replies = [];
      handed = c.handed ++ framed s.rep;
      writing = c.writing + length s.rep;
      waiting = true;
      reading = pending;
    }
unfolding answer do_read cancel_one do_write
answer_lem s c =
    ap (λ d. do_read (cancel_one d))
      (write_replies_lem s.rep (record c { this_client = s.this_client; replies = s.rep }))

pub read_done_at :
    (config : Config) (u : Uninitialised) (now a size : ℕ) (c : Connection) (w : World)
    (s : Session)
    → handle_request config u now c.buffer size (session c w) ≡ ok s
    → read_done config u now a size c w
      ≡ ok (set_connection a (answer s c) (record w { server = s.server }))
unfolding read_done
read_done_at config u now a size c w s e = ground arith

-- A read handler that returns has handled the message to its end.
pub read_done_ok :
    (config : Config) (u : Uninitialised) (now a size : ℕ) (c : Connection) (w t : World)
    → read_done config u now a size c w ≡ ok t
    → (s : Session) × (handle_request config u now c.buffer size (session c w) ≡ ok s)
      × (t ≡ set_connection a (answer s c) (record w { server = s.server }))
unfolding read_done
read_done_ok config u now a size c w t e =
    elim (Result-cases (handle_request config u now c.buffer size (session c w))) [
      | inl (s, fine) ↦ (s, fine, ground arith)
      | inr (fault, bad) ↦ absurd (ground arith)
    ]
