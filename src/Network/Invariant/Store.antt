-- ===== src/Network/Invariant/Store.antt =====
-- The shared state and the connections' clients: the map of players is well formed, every client's
-- history has its indices in their cycle, and no two connections have a client in common.
use ogmp_server.Base.{ℕ, ◌≤◌, ◌<◌, ◌≡◌, ◌⊎◌, inl, inr, ◌∙◌, sym, ap, some, arith}
use ogmp_server.Manager.{Server}
use ogmp_server.Manager.Invariant.{IsServer}
use ogmp_server.Handler.Keeps.{Histories}
use ogmp_server.Network.Connection.{Connection}
use ogmp_server.Network.Tables.{Table, find, put, put-cases}

pub record IsStore (s : Server) (t : Table Connection) : Type 0 where
  pub server : IsServer s
  pub histories : Histories s.heap
  pub clients :
      (a : ℕ) (c : Connection) (p : ℕ) → find a t ≡ some c → c.this_client ≡ some p → p < s.next
  pub separate :
      (a b : ℕ) (c d : Connection) (p : ℕ)
      → find a t ≡ some c
      → find b t ≡ some d
      → c.this_client ≡ some p
      → d.this_client ≡ some p
      → a ≡ b

-- A client that a connection may have: none, the one it had, or one in a cell that was free.
abbrev pub IsOwn : Server → Server → Table Connection → ℕ → Connection → Type 0
IsOwn s s' t a x =
    (p : ℕ)
    → x.this_client ≡ some p
    → ((c : Connection) × (find a t ≡ some c) × (c.this_client ≡ some p))
      ⊎ ((p ≡ s.next) × (p < s'.next))

pub IsStore-put :
    (s s' : Server) (t : Table Connection) (a : ℕ) (x : Connection)
    → IsStore s t
    → IsServer s'
    → Histories s'.heap
    → s.next ≤ s'.next
    → IsOwn s s' t a x
    → IsStore s' (put a x t)
IsStore-put s s' t a x v server histories le own = record {
  server = server;
  histories = histories;
  clients = clients;
  separate = separate;
}
  where
    clients :
        (b : ℕ) (c : Connection) (p : ℕ)
        → find b (put a x t) ≡ some c
        → c.this_client ≡ some p
        → p < s'.next
    clients b c p e f = elim (put-cases a b x c t e) [
      | inl (same, new) ↦ elim (own p (ap (λ (d : Connection). d.this_client) new ∙ f)) [
        | inl (d, here, had) ↦ omega (arith, v.clients a d p here had)
        | inr (fresh, lt) ↦ lt
      ]
      | inr (other, old) ↦ omega (arith, v.clients b c p old f)
    ]

    -- The connection at `a` has no client of another one.
    apart :
        (b : ℕ) (d : Connection) (p : ℕ)
        → find b t ≡ some d
        → x.this_client ≡ some p
        → d.this_client ≡ some p
        → a ≡ b
    apart b d p e f g = elim (own p f) [
      | inl (c, here, had) ↦ v.separate a b c d p here e had g
      | inr (fresh, lt) ↦ absurd (omega (arith, fresh, v.clients b d p e g))
    ]

    separate :
        (b e : ℕ) (c d : Connection) (p : ℕ)
        → find b (put a x t) ≡ some c
        → find e (put a x t) ≡ some d
        → c.this_client ≡ some p
        → d.this_client ≡ some p
        → b ≡ e
    separate b e c d p fb fe f g = elim (put-cases a b x c t fb) [
      | inl (same, new) ↦ elim (put-cases a e x d t fe) [
        | inl (same', new') ↦ sym same ∙ same'
        | inr (other', old') ↦
            sym same ∙ apart e d p old' (ap (λ (i : Connection). i.this_client) new ∙ f) g
      ]
      | inr (other, old) ↦ elim (put-cases a e x d t fe) [
        | inl (same', new') ↦
            sym (apart b c p old (ap (λ (i : Connection). i.this_client) new' ∙ g) f) ∙ same'
        | inr (other', old') ↦ v.separate b e c d p old old' f g
      ]
    ]
