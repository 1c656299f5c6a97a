-- ===== src/Handler/Leaves.antt =====
-- What a part of a handler of src/request_handler.cpp does to a player who is not the connection's: it
-- puts messages into the inbox at most.
pub mod Parts
pub mod Request
use ogmp_server.Base.{
  ℕ, ◌≡◌, ◌≢◌, refl, sym, ap, ◌∙◌, subst, Bool, true, false, Bool-cases, inl, inr, List, [], ◌∷◌,
  ◌++◌, append_assoc, append-nil, Option, arith, ◌==◌, ==_iff, if◌then◌else◌,
}
use ogmp_server.StringMap.{StringMap}
use ogmp_server.Reply.{Reply}
use ogmp_server.Text.{Str}
use ogmp_server.Client.{Client}
use ogmp_server.Client.Queues
use ogmp_server.Manager.{
  Heap, write, add_client, add_to_inbox, remove_client, broadcast, is_recipient,
}
use ogmp_server.Handler.Session.{Session, push_reply, on_server, on_client, print}

-- The same client with more messages at the end of its inbox.
abbrev pub HasMore : Client → Client → Type 0
HasMore c d = (more : List Reply) × (d ≡ record c { inbox = c.inbox ++ more })

pub HasMore-refl : (c : Client) → HasMore c c
HasMore-refl c = ([], λ i. record c { inbox = sym (append-nil c.inbox) i })

pub HasMore-trans : (c d e : Client) → HasMore c d → HasMore d e → HasMore c e
HasMore-trans c d e (more, h) (further, k) = (
  more ++ further,
  k
      ∙ ap (λ (x : Client). record x { inbox = x.inbox ++ further }) h
      ∙ (λ i. record c { inbox = append_assoc c.inbox more further i }),
)

pub write-other : (p q : ℕ) (c : Client) (heap : Heap) → p ≢ q → write p c heap q ≡ heap q
write-other p q c heap n = ground (arith, ==_iff p q)

broadcast-HasMore :
    (m : Reply) (initiator : Option ℕ) (items : StringMap ℕ) (heap : Heap) (q : ℕ)
    → HasMore (heap q) (broadcast (Queues.add_to_inbox m) initiator items heap q)
unfolding broadcast Queues.add_to_inbox
broadcast-HasMore m initiator [] heap q = HasMore-refl (heap q)
broadcast-HasMore m initiator ((k, p) ∷ items) heap q =
    HasMore-trans (heap q) (next (is_recipient heap initiator p) q) _
      (one (is_recipient heap initiator p))
      (broadcast-HasMore m initiator items (next (is_recipient heap initiator p)) q)
  where
    next : Bool → Heap
    next b = if b then write p (Queues.add_to_inbox m (heap p)) heap else heap

    here :
        (b : Bool)
        → p == q ≡ b
        → HasMore (heap q) (if b then Queues.add_to_inbox m (heap p) else heap q)
    here true e =
        subst (λ d. HasMore (heap q) (Queues.add_to_inbox m (heap d))) (sym ((==_iff p q).0 e))
          (m ∷ [], refl)
    here false e = HasMore-refl (heap q)

    one : (b : Bool) → HasMore (heap q) (next b q)
    one true = here (p == q) refl
    one false = HasMore-refl (heap q)

pub record Leaves (q : ℕ) (s t : Session) : Type 0 where
  pub has_more : HasMore (s.heap q) (t.heap q)

module _ {q : ℕ} where
  pub Leaves-refl : (s : Session) → Leaves q s s
  Leaves-refl s = record { has_more = HasMore-refl (s.heap q) }

  pub Leaves-trans : (s t u : Session) → Leaves q s t → Leaves q t u → Leaves q s u
  Leaves-trans s t u k l = record {
    has_more = HasMore-trans (s.heap q) (t.heap q) (u.heap q) k.has_more l.has_more;
  }

  pub Leaves-if :
      (b : Bool) (s t u : Session) → Leaves q s t → Leaves q s u → Leaves q s (if b then t else u)
  Leaves-if true s t u k l = k
  Leaves-if false s t u k l = l

  pub on_client-Leaves :
      (s : Session) (p : ℕ) (f : Client → Client) → p ≢ q → Leaves q s (on_client p f s)
  unfolding on_client
  on_client-Leaves s p f n = record {
    has_more = rw (write-other p q (f (s.heap p)) s.heap n) (HasMore-refl (s.heap q));
  }

  module _ (s : Session) where
    pub push_reply-Leaves : (r : Reply) → Leaves q s (push_reply r s)
    unfolding push_reply
    push_reply-Leaves r = record { has_more = HasMore-refl (s.heap q) }

    pub print-Leaves : (text : Str) → Leaves q s (print text s)
    unfolding print
    print-Leaves text = record { has_more = HasMore-refl (s.heap q) }

    pub broadcast-Leaves :
        (m : Reply) (initiator : Option ℕ) → Leaves q s (on_server (add_to_inbox m initiator) s)
    unfolding on_server add_to_inbox
    broadcast-Leaves m initiator = record {
      has_more = broadcast-HasMore m initiator s.clients s.heap q;
    }

    pub add_client-Leaves : (p : ℕ) → Leaves q s (on_server (add_client p) s)
    unfolding on_server add_client
    add_client-Leaves p = record { has_more = HasMore-refl (s.heap q) }

    pub remove_client-Leaves : (p : Option ℕ) → Leaves q s (on_server (remove_client p) s)
    unfolding on_server remove_client
    remove_client-Leaves p = record { has_more = HasMore-refl (s.heap q) }
