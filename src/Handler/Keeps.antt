-- ===== src/Handler/Keeps.antt =====
-- What every part of a handler of src/request_handler.cpp leaves alone: the cells that are allocated,
-- the connection's client, and the order of every client's history.
pub mod SignOn
pub mod Messages
use ogmp_server.Base.{ℕ, ◌≡◌, refl, ◌∙◌, Bool, true, false, Option, ◌==◌, if◌then◌else◌}
use ogmp_server.Reply.{Reply}
use ogmp_server.Text.{Str}
use ogmp_server.Client.{Client}
use ogmp_server.Client.Queues
use ogmp_server.Client.History.Cycle.{IsHistory}
use ogmp_server.Manager.{Heap, write, add_client, add_to_inbox, remove_client, broadcast}
use ogmp_server.Manager.Invariant.{broadcast_keeps}
use ogmp_server.Handler.Session.{Session, push_reply, on_server, on_client, print}

-- Every client's history has its indices in their cycle.
abbrev pub Histories : Heap → Type 0
Histories heap = (q : ℕ) → IsHistory (heap q)

pub record Keeps (s t : Session) : Type 0 where
  pub cells : t.next ≡ s.next
  pub client : t.this_client ≡ s.this_client
  pub histories : Histories s.heap → Histories t.heap

pub IsHistory-same :
    (c d : Client)
    → d.history_index ≡ c.history_index
    → d.client_update_history ≡ c.client_update_history
    → IsHistory c
    → IsHistory d
IsHistory-same c d e f h = record {
  index = rw e h.index;
  size = rw f h.size;
  chain = rw (e, f) h.chain;
}

pub Histories-write :
    (p : ℕ) (c : Client) (heap : Heap) → IsHistory c → Histories heap → Histories (write p c heap)
Histories-write p c heap h hs q = at (p == q)
  where
    at : (b : Bool) → IsHistory (if b then c else heap q)
    at true = h
    at false = hs q

pub Keeps-refl : (s : Session) → Keeps s s
Keeps-refl s = record { cells = refl; client = refl; histories = λ h. h }

pub Keeps-trans : (s t u : Session) → Keeps s t → Keeps t u → Keeps s u
Keeps-trans s t u k l = record {
  cells = l.cells ∙ k.cells;
  client = l.client ∙ k.client;
  histories = λ h. l.histories (k.histories h);
}

pub Keeps-if : (b : Bool) (s t u : Session) → Keeps s t → Keeps s u → Keeps s (if b then t else u)
Keeps-if true s t u k l = k
Keeps-if false s t u k l = l

module _ (s : Session) where
  pub push_reply-Keeps : (r : Reply) → Keeps s (push_reply r s)
  unfolding push_reply
  push_reply-Keeps r = record { cells = refl; client = refl; histories = λ h. h }

  pub print-Keeps : (text : Str) → Keeps s (print text s)
  unfolding print
  print-Keeps text = record { cells = refl; client = refl; histories = λ h. h }

  pub on_client-Keeps :
      (p : ℕ) (f : Client → Client)
      → (IsHistory (s.heap p) → IsHistory (f (s.heap p)))
      → Keeps s (on_client p f s)
  unfolding on_client
  on_client-Keeps p f keep = record {
    cells = refl;
    client = refl;
    histories = λ h. Histories-write p (f (s.heap p)) s.heap (keep (h p)) h;
  }

  pub broadcast-Keeps :
      (m : Reply) (initiator : Option ℕ) → Keeps s (on_server (add_to_inbox m initiator) s)
  unfolding on_server add_to_inbox
  broadcast-Keeps m initiator = record {
    cells = refl;
    client = refl;
    histories = λ h q.
        IsHistory-same (s.heap q) (broadcast (Queues.add_to_inbox m) initiator s.clients s.heap q)
          (broadcast_keeps (λ c. c.history_index) (Queues.add_to_inbox m)
            (λ c. unfold Queues.add_to_inbox in refl) initiator s.clients s.heap q)
          (broadcast_keeps (λ c. c.client_update_history) (Queues.add_to_inbox m)
            (λ c. unfold Queues.add_to_inbox in refl) initiator s.clients s.heap q)
          (h q);
  }

  pub remove_client-Keeps : (p : Option ℕ) → Keeps s (on_server (remove_client p) s)
  unfolding on_server remove_client
  remove_client-Keeps p = record { cells = refl; client = refl; histories = λ h. h }

  pub add_client-Keeps : (p : ℕ) → Keeps s (on_server (add_client p) s)
  unfolding on_server add_client
  add_client-Keeps p = record { cells = refl; client = refl; histories = λ h. h }
