-- ===== src/Manager/Others.antt =====
-- The players that `get_clients` of src/client_manager.cpp gives for an initiator: they are in the
-- order of the map, each under its name, and the initiator is not among them.
use ogmp_server.Base.{ℕ, ◌≡◌, [], ◌∷◌, true, false, arith, All, ==_iff}
use ogmp_server.Text.{Str, str_eq, str_eq_iff, str_lt_irrefl}
use ogmp_server.StringMap.{StringMap, Above, IsSorted}
use ogmp_server.Client.{Client}
use ogmp_server.Manager.{Heap, others}
use ogmp_server.Manager.Broadcast.{listed}
use ogmp_server.Manager.Invariant.{Named}

module _ (heap : Heap) (initiator : Client) where
  Above-others :
      (k : Str) (items : StringMap ℕ) → Above k items → Above k (others heap initiator items)
  unfolding others
  Above-others k [] a = tt
  Above-others k ((j, p) ∷ items) a = ground (arith, a.0, Above-others k items a.1)

  pub IsSorted-others :
      (items : StringMap ℕ) → IsSorted items → IsSorted (others heap initiator items)
  unfolding others
  IsSorted-others [] s = tt
  IsSorted-others ((j, p) ∷ items) s =
      ground (arith, Above-others j items s.0, IsSorted-others items s.1)

  pub Named-others :
      (items : StringMap ℕ) → Named heap items → Named heap (others heap initiator items)
  unfolding others
  Named-others [] n = tt
  Named-others ((j, p) ∷ items) n = ground (arith, n.0, Named-others items n.1)

  -- The initiator is not among them.
  pub listed-others :
      (q : ℕ) (items : StringMap ℕ)
      → listed q (others heap initiator items) ≡ true
      → str_eq (heap q).username initiator.username ≡ false
  unfolding others listed
  listed-others q [] h = cc
  listed-others q ((j, p) ∷ items) h = ground (arith, ==_iff p q, listed-others q items)

-- A player whose key stands behind has another name.
pub listed-Above :
    (heap : Heap) (k : Str) (q : ℕ) (items : StringMap ℕ)
    → Above k items
    → Named heap items
    → listed q items ≡ true
    → str_eq k (heap q).username ≡ false
unfolding listed
listed-Above heap k q [] a n h = cc
listed-Above heap k q ((j, p) ∷ items) a n h = ground (
  arith,
  ==_iff p q,
  str_eq_iff k (heap q).username,
  str_lt_irrefl k,
  listed-Above heap k q items a.1 n.1,
)

pub Above-differ :
    (k : Str) (items : StringMap ℕ) → Above k items → All (λ e. str_eq e.0 k ≡ false) items
Above-differ k [] a = tt
Above-differ k ((j, p) ∷ items) a =
    (ground (arith, a.0, str_eq_iff j k, str_lt_irrefl k), Above-differ k items a.1)
