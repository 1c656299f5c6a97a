-- ===== src/Network/Watch.antt =====
-- Who reads and who is timed: the connections, the set of the manager, and the operations that change
-- them, of src/connection.cpp and src/connection_manager.cpp.
use ogmp_server.Base.{
  ℕ, ◌<◌, ◌≡◌, ◌≢◌, ◌⊎◌, inl, inr, refl, ap, subst, ◌∙◌, Bool, true, false, ◌||◌, [], ◌∷◌, Option,
  none, some, Option-cases, Bool-cases, arith, ◌==◌, ==_iff, if◌then◌else◌,
}
use ogmp_server.Handler.Messages.{client_disconnected}
use ogmp_server.Network.Connection.{Connection, closed, idle, close}
use ogmp_server.Network.World.{World, session, set_connection, stop, manager_stop, stop_each}
use ogmp_server.Network.Stop.{stop-none, stop-some}
use ogmp_server.Network.Tables.{
  Table, Set, find, put, find-put, erase, insert, contains, contains-erase, contains-insert,
}

-- The socket is open, a read is outstanding or its handler is to run, and so is a wait of the timer.
abbrev pub IsTimed : Connection → Type 0
IsTimed c = (c.socket ≢ closed) × (c.reading ≢ idle) × ((c.waiting ≡ true) ⊎ (0 < c.expired))

-- A connection in the manager's set exists and is timed; any other one is closed.
abbrev pub IsWatchedAt : Bool → Option Connection → Type 0
IsWatchedAt true none = ⊥
IsWatchedAt true (some c) = IsTimed c
IsWatchedAt false none = Unit
IsWatchedAt false (some c) = c.socket ≡ closed

abbrev pub IsWatched : Table Connection → Set → Type 0
IsWatched t m = (a : ℕ) → IsWatchedAt (contains a m) (find a t)

pub IsWatched-put :
    (a : ℕ) (x : Connection) (t : Table Connection) (m : Set)
    → IsWatched t m
    → IsWatchedAt (contains a m) (some x)
    → IsWatched (put a x t) m
IsWatched-put a x t m v h b = rw (find-put a b x t) (elim (Bool-cases (a == b)) [
  | inl same ↦ rw same (subst (λ d. IsWatchedAt (contains d m) (some x)) ((==_iff a b).0 same) h)
  | inr other ↦ rw other (v b)
])

pub IsWatched-insert :
    (a : ℕ) (x : Connection) (t : Table Connection) (m : Set)
    → IsWatched t m
    → IsTimed x
    → IsWatched (put a x t) (insert a m)
IsWatched-insert a x t m v h b =
    rw (find-put a b x t, contains-insert a b m)
      (elim (Bool-cases (a == b)) [ inl same ↦ rw same h | inr other ↦ rw other (v b) ])

-- The connection at `a` is closed, and leaves the set.
pub IsWatched-erase :
    (a : ℕ) (x y : Connection) (t : Table Connection) (m : Set)
    → IsWatched t m
    → x.socket ≡ closed
    → IsWatched (put a x (put a y t)) (erase a m)
IsWatched-erase a x y t m v h b =
    rw (find-put a b x (put a y t), find-put a b y t, contains-erase a b m)
      (elim (Bool-cases (a == b)) [ inl same ↦ rw same h | inr other ↦ rw other (v b) ])

-- What stopping a connection of the table leaves.
module _ (a : ℕ) (x : Connection) (w : World) where
  pub manager_stop_at :
      let v = record w { managed = erase a w.managed; connections = put a x w.connections } in
      manager_stop a (set_connection a x w)
      ≡ set_connection a
          (close x)
          (record v { server = (client_disconnected (session x v)).server })
  unfolding manager_stop set_connection
  manager_stop_at =
      stop-some a x (record w { managed = erase a w.managed; connections = put a x w.connections })
        (find-put a a x w.connections ∙ own)
    where
      own : (if a == a then some x else find a w.connections) ≡ some x
      own = ground (arith, ==_iff a a)

  pub manager_stop_lem :
      let t = manager_stop a (set_connection a x w) in
      (t.connections ≡ put a (close x) (put a x w.connections)) × (t.managed ≡ erase a w.managed)
  unfolding set_connection
  manager_stop_lem = (
    ap (λ (i : World). i.connections) manager_stop_at,
    ap (λ (i : World). i.managed) manager_stop_at,
  )

  pub manager_stop-flags :
      let t = manager_stop a (set_connection a x w) in
      (t.accepting ≡ w.accepting) × (t.awaiting ≡ w.awaiting)
  unfolding set_connection
  manager_stop-flags = (
    ap (λ (i : World). i.accepting) manager_stop_at,
    ap (λ (i : World). i.awaiting) manager_stop_at,
  )

pub manager_stop-IsWatched :
    (a : ℕ) (x : Connection) (w : World)
    → IsWatched w.connections w.managed
    → let t = manager_stop a (set_connection a x w) in IsWatched t.connections t.managed
unfolding close
manager_stop-IsWatched a x w v =
    let (c, m) = manager_stop_lem a x w in
    rw (c, m) (IsWatched-erase a (close x) x w.connections w.managed v refl)

-- Every connection outside a set is closed.
abbrev pub IsClosedAt : Bool → Option Connection → Type 0
IsClosedAt true c = Unit
IsClosedAt false c = IsWatchedAt false c

abbrev pub IsClosedBut : Set → Table Connection → Type 0
IsClosedBut s t = (a : ℕ) → IsClosedAt (contains a s) (find a t)

closed_none : (b : Bool) → IsClosedAt b none
closed_none true = tt
closed_none false = tt

closed_some : (b : Bool) (c : Connection) → c.socket ≡ closed → IsClosedAt b (some c)
closed_some true c h = tt
closed_some false c h = h

stop-IsClosedBut :
    (a : ℕ) (s : Set) (w : World)
    → IsClosedBut (a ∷ s) w.connections
    → IsClosedBut s (stop a w).connections
unfolding set_connection contains close
stop-IsClosedBut a s w v b = elim (Option-cases (find a w.connections)) [
  | inl e ↦ rw (stop-none a w e) (elim (Bool-cases (a == b)) [
    | inl same ↦
        subst (λ d. IsClosedAt (contains d s) (find d w.connections)) ((==_iff a b).0 same)
          (rw e (closed_none (contains a s)))
    | inr other ↦ kept other (v b)
  ])
  | inr (c, e) ↦
      rw (stop-some a c w e, find-put a b (close c) w.connections)
        (elim (Bool-cases (a == b)) [
          | inl same ↦ rw same (closed_some (contains b s) (close c) refl)
          | inr other ↦ rw other (kept other (v b))
        ])
]
  where
    kept :
        a == b ≡ false
        → IsClosedAt (a == b || contains b s) (find b w.connections)
        → IsClosedAt (contains b s) (find b w.connections)
    kept other h = subst (λ x. IsClosedAt (x || contains b s) (find b w.connections)) other h

-- After the loop no connection is open but those of the set that it did not stop.
pub stop_each-IsClosedBut :
    (s : Set) (w : World) → IsClosedBut s w.connections → IsClosedBut [] (stop_each s w).connections
unfolding stop_each
stop_each-IsClosedBut [] w v = v
stop_each-IsClosedBut (a ∷ s) w v = stop_each-IsClosedBut s (stop a w) (stop-IsClosedBut a s w v)

pub IsWatched-IsClosedBut : (t : Table Connection) (m : Set) → IsWatched t m → IsClosedBut m t
IsWatched-IsClosedBut t m v a = weaker (contains a m) (find a t) (v a)
  where
    weaker : (b : Bool) (o : Option Connection) → IsWatchedAt b o → IsClosedAt b o
    weaker true o h = tt
    weaker false o h = h

pub IsClosedBut-IsWatched : (t : Table Connection) → IsClosedBut [] t → IsWatched t []
unfolding contains
IsClosedBut-IsWatched t v a = v a
