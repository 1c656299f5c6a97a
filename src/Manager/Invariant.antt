-- ===== src/Manager/Invariant.antt =====
-- The invariant of the map of players, and the methods of `client_manager` that keep it.
use ogmp_server.Base.{
  ℕ, suc, ◌<◌, ◌≡◌, refl, ap, ◌∙◌, Bool, true, false, ◌&&◌, [], ◌∷◌, Option, some, arith, ◌==◌,
  if◌then◌else◌, All, ==_iff,
}
use ogmp_server.Text.{Str, str_lt_irrefl}
use ogmp_server.StringMap.{StringMap, insert, Above, IsSorted, insert-IsSorted, erase-first}
use ogmp_server.Reply.{Reply}
use ogmp_server.Client.{Client}
use ogmp_server.Client.Queues
use ogmp_server.Manager.{
  Heap, Server, write, is_recipient, broadcast, add_client, removed, erase_all, remove_client,
  add_to_inbox,
}
use ogmp_server.Manager.Broadcast.{listed, NoAlias, broadcast_lem}

-- Every entry's key is the name of the client that it points to.
abbrev pub Named : Heap → StringMap ℕ → Type 0
Named heap = All (λ e. (heap e.1).username ≡ e.0)

-- Every entry points to a cell that has been allocated.
abbrev pub Allocated : ℕ → StringMap ℕ → Type 0
Allocated next = All (λ e. e.1 < next)

pub record IsServer (s : Server) : Type 0 where
  pub sorted : IsSorted s.clients
  pub named : Named s.heap s.clients
  pub allocated : Allocated s.next s.clients

listed-Above :
    (heap : Heap) (k : Str) (p : ℕ) (items : StringMap ℕ)
    → (heap p).username ≡ k
    → Above k items
    → Named heap items
    → listed p items ≡ false
unfolding listed
listed-Above heap k p [] e a n = refl
listed-Above heap k p ((j, q) ∷ items) e a n =
    ground (arith, ==_iff q p, str_lt_irrefl k, listed-Above heap k p items e a.1 n.1)

-- Players with different names are different clients.
pub NoAlias-Named :
    (heap : Heap) (items : StringMap ℕ) → IsSorted items → Named heap items → NoAlias items
NoAlias-Named heap [] s n = tt
NoAlias-Named heap ((k, p) ∷ items) s n =
    (listed-Above heap k p items n.0 s.0 n.1, NoAlias-Named heap items s.1 n.1)

Named-write :
    (heap : Heap) (p : ℕ) (c : Client) (items : StringMap ℕ)
    → c.username ≡ (heap p).username
    → Named heap items
    → Named (write p c heap) items
Named-write heap p c [] e n = tt
Named-write heap p c ((k, q) ∷ items) e n =
    ground (arith, ==_iff p q, Named-write heap p c items e n.1)

-- A cell that is not allocated yet is in no entry.
Named-fresh :
    (heap : Heap) (next p : ℕ) (c : Client) (items : StringMap ℕ)
    → next ≡ p
    → Allocated next items
    → Named heap items
    → Named (write p c heap) items
Named-fresh heap next p c [] e a n = tt
Named-fresh heap next p c ((k, q) ∷ items) e a n =
    ground (arith, ==_iff p q, Named-fresh heap next p c items e a.1 n.1)

module _ {A : Type 0} (g : Client → A) (f : Client → Client)
    (keeps : (c : Client) → g (f c) ≡ g c) where
  -- What the change leaves alone in a client, the broadcast leaves alone in the heap.
  pub broadcast_keeps :
      (initiator : Option ℕ) (items : StringMap ℕ) (heap : Heap) (q : ℕ)
      → g (broadcast f initiator items heap q) ≡ g (heap q)
  unfolding broadcast
  broadcast_keeps initiator [] heap q = refl
  broadcast_keeps initiator ((k, p) ∷ items) heap q =
      broadcast_keeps initiator items
        (if is_recipient heap initiator p then write p (f (heap p)) heap else heap) q
      ∙ step (is_recipient heap initiator p)
    where
      written : (b : Bool) → (p == q) ≡ b → g (if b then f (heap p) else heap q) ≡ g (heap q)
      written true e = keeps (heap p) ∙ ap (λ r. g (heap r)) ((==_iff p q).0 e)
      written false e = refl

      step : (b : Bool) → g ((if b then write p (f (heap p)) heap else heap) q) ≡ g (heap q)
      step true = written (p == q) refl
      step false = refl

pub Named-heap :
    (heap heap' : Heap) (items : StringMap ℕ)
    → ((q : ℕ) → (heap' q).username ≡ (heap q).username)
    → Named heap items
    → Named heap' items
Named-heap heap heap' [] h n = tt
Named-heap heap heap' ((k, p) ∷ items) h n = (h p ∙ n.0, Named-heap heap heap' items h n.1)

erase_all_self : (items : StringMap ℕ) → IsSorted items → erase_all items items ≡ []
unfolding erase_all
erase_all_self [] s = refl
erase_all_self ((k, p) ∷ items) s = rw (erase-first k p items s) (erase_all_self items s.1)

removed-some : (p : ℕ) (items : StringMap ℕ) → removed (some p) items ≡ items
unfolding removed
removed-some p [] = refl
removed-some p (item ∷ items) = ap (◌∷◌ item) (removed-some p items)

-- Whoever leaves, `remove_client` takes every player out of the map.
pub remove_client_all : (p : ℕ) (s : Server) → IsServer s → (remove_client (some p) s).clients ≡ []
unfolding remove_client
remove_client_all p s v = rw (removed-some p s.clients) (erase_all_self s.clients v.sorted)

insert-Named :
    (heap : Heap) (p : ℕ) (items : StringMap ℕ)
    → Named heap items
    → Named heap (insert (heap p).username p items)
unfolding insert
insert-Named heap p [] n = (refl, tt)
insert-Named heap p ((k, q) ∷ items) n = ground (arith, insert-Named heap p items n.1)

insert-Allocated :
    (next p : ℕ) (k : Str) (items : StringMap ℕ)
    → p < next
    → Allocated next items
    → Allocated next (insert k p items)
unfolding insert
insert-Allocated next p k [] h a = (h, tt)
insert-Allocated next p k ((j, q) ∷ items) h a =
    ground (arith, insert-Allocated next p k items h a.1)

-- A player who is allocated can be added.
pub add_client-IsServer : (p : ℕ) (s : Server) → p < s.next → IsServer s → IsServer (add_client p s)
unfolding add_client
add_client-IsServer p s h v = record {
  sorted = insert-IsSorted (s.heap p).username p s.clients v.sorted;
  named = insert-Named s.heap p s.clients v.named;
  allocated = insert-Allocated s.next p (s.heap p).username s.clients h v.allocated;
}

-- A change of one client that leaves its name alone.
pub write-IsServer :
    (p : ℕ) (c : Client) (s : Server)
    → c.username ≡ (s.heap p).username
    → IsServer s
    → IsServer (record s { heap = write p c s.heap })
write-IsServer p c s e v = record {
  sorted = v.sorted;
  named = Named-write s.heap p c s.clients e v.named;
  allocated = v.allocated;
}

Allocated-suc : (next : ℕ) (items : StringMap ℕ) → Allocated next items → Allocated (suc next) items
Allocated-suc next [] a = tt
Allocated-suc next ((k, p) ∷ items) a = (omega arith, Allocated-suc next items a.1)

-- A new client in the next cell.
pub allocate-IsServer :
    (c : Client) (s : Server)
    → IsServer s
    → IsServer (record s { heap = write s.next c s.heap; next = suc s.next })
allocate-IsServer c s v = record {
  sorted = v.sorted;
  named = Named-fresh s.heap s.next s.next c s.clients refl v.allocated v.named;
  allocated = Allocated-suc s.next s.clients v.allocated;
}

-- A change of a client in a cell that no entry points to, whatever it does to the name.
pub write_unlisted-IsServer :
    (p : ℕ) (c : Client) (s : Server)
    → Allocated p s.clients
    → IsServer s
    → IsServer (record s { heap = write p c s.heap })
write_unlisted-IsServer p c s a v = record {
  sorted = v.sorted;
  named = Named-fresh s.heap p p c s.clients refl a v.named;
  allocated = v.allocated;
}

pub add_to_inbox-IsServer :
    (m : Reply) (initiator : Option ℕ) (s : Server)
    → IsServer s
    → IsServer (add_to_inbox m initiator s)
unfolding add_to_inbox
add_to_inbox-IsServer m initiator s v = record {
  sorted = v.sorted;
  named =
      Named-heap s.heap (broadcast (Queues.add_to_inbox m) initiator s.clients s.heap) s.clients
        (broadcast_keeps (λ c. c.username) (Queues.add_to_inbox m)
          (λ c. unfold Queues.add_to_inbox in refl) initiator s.clients s.heap)
        v.named;
  allocated = v.allocated;
}

pub remove_client-IsServer : (p : ℕ) (s : Server) → IsServer s → IsServer (remove_client (some p) s)
remove_client-IsServer p s v = record {
  sorted = rw (remove_client_all p s v) tt;
  named = rw (remove_client_all p s v) tt;
  allocated = rw (remove_client_all p s v) tt;
}

-- Where the map of players is well formed, a message reaches the players in the map, but for the
-- initiator and those on another level. They have it at the end of their inboxes, once; every
-- other client is as it was.
pub add_to_inbox_lem :
    (m : Reply) (initiator : Option ℕ) (s : Server) (q : ℕ)
    → IsServer s
    → (add_to_inbox m initiator s).heap q ≡ (
        if listed q s.clients && is_recipient s.heap initiator q
        then Queues.add_to_inbox m (s.heap q)
        else s.heap q)
unfolding add_to_inbox
add_to_inbox_lem m initiator s q v =
    broadcast_lem (Queues.add_to_inbox m) initiator s.clients s.heap q
      (λ c. unfold Queues.add_to_inbox in refl) (NoAlias-Named s.heap s.clients v.sorted v.named)

-- The initiator of a message does not get it.
pub add_to_inbox-initiator :
    (m : Reply) (p : ℕ) (s : Server) → IsServer s → (add_to_inbox m (some p) s).heap p ≡ s.heap p
unfolding is_recipient
add_to_inbox-initiator m p s v = ground (arith, add_to_inbox_lem m (some p) s p v)

pub is_recipient-add_to_inbox :
    (m : Reply) (p q : ℕ) (s : Server)
    → is_recipient (add_to_inbox m (some p) s).heap (some p) q ≡ is_recipient s.heap (some p) q
unfolding is_recipient add_to_inbox
is_recipient-add_to_inbox m p q s = rw (level p, level q)
  where
    level :
        (r : ℕ)
        → (broadcast (Queues.add_to_inbox m) (some p) s.clients s.heap r).level_path
          ≡ (s.heap r).level_path
    level =
        broadcast_keeps (λ c. c.level_path) (Queues.add_to_inbox m)
          (λ c. unfold Queues.add_to_inbox in refl) (some p) s.clients s.heap

-- Where the map of players is well formed, two messages of one player in a row reach the same
-- players, in their order, and nobody else.
pub add_to_inbox_twice :
    (m n : Reply) (p q : ℕ) (s : Server)
    → IsServer s
    → (add_to_inbox n (some p) (add_to_inbox m (some p) s)).heap q ≡ (
        if listed q s.clients && is_recipient s.heap (some p) q
        then Queues.add_to_inbox n (Queues.add_to_inbox m (s.heap q))
        else s.heap q)
add_to_inbox_twice m n p q s v =
    add_to_inbox_lem n (some p) (add_to_inbox m (some p) s) q (add_to_inbox-IsServer m (some p) s v)
    ∙ ground (arith, add_to_inbox_lem m (some p) s q v, is_recipient-add_to_inbox m p q s, same)
  where
    same : (add_to_inbox m (some p) s).clients ≡ s.clients
    same = unfold add_to_inbox in refl
