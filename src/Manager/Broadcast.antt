-- ===== src/Manager/Broadcast.antt =====
-- Whom a message reaches.
use ogmp_server.Base.{
  ℕ, ◌≡◌, refl, Bool, false, ◌&&◌, ◌||◌, [], ◌∷◌, Option, none, some, arith, ◌==◌, if◌then◌else◌,
  ==_iff,
}
use ogmp_server.StringMap.{StringMap}
use ogmp_server.Client.{Client}
use ogmp_server.Manager.{Heap, write, is_recipient, broadcast}

-- Whether the map holds a pointer to the cell.
unfoldable pub listed : ℕ → StringMap ℕ → Bool
listed q [] = false
listed q ((k, p) ∷ items) = (p == q) || listed q items

-- No two entries hold the same pointer.
abbrev pub NoAlias : StringMap ℕ → Type 0
NoAlias [] = Unit
NoAlias ((k, p) ∷ items) = (listed p items ≡ false) × NoAlias items

-- The change leaves every client on its level.
abbrev pub KeepsLevel : (Client → Client) → Type 0
KeepsLevel f = (c : Client) → (f c).level_path ≡ c.level_path

pub is_recipient-write :
    (f : Client → Client) (heap : Heap) (initiator : Option ℕ) (p q : ℕ)
    → KeepsLevel f
    → is_recipient (write p (f (heap p)) heap) initiator q ≡ is_recipient heap initiator q
unfolding is_recipient
is_recipient-write f heap none p q k = refl
is_recipient-write f heap (some i) p q k = ground (arith, k (heap p), ==_iff p q, ==_iff p i)

-- A broadcast changes the clients that the map lists and that are recipients, each once, and
-- nobody else.
pub broadcast_lem :
    (f : Client → Client) (initiator : Option ℕ) (items : StringMap ℕ) (heap : Heap) (q : ℕ)
    → KeepsLevel f
    → NoAlias items
    → broadcast f initiator items heap q
      ≡ (if listed q items && is_recipient heap initiator q then f (heap q) else heap q)
unfolding broadcast listed
broadcast_lem f initiator [] heap q k n = refl
broadcast_lem f initiator ((j, p) ∷ items) heap q k n = ground (
  arith,
  ==_iff p q,
  is_recipient-write f heap initiator p q k,
  broadcast_lem f initiator items
      (if is_recipient heap initiator p then write p (f (heap p)) heap else heap) q k n.1,
)
