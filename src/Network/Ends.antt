-- ===== src/Network/Ends.antt =====
-- The end of `server::run` of src/server.cpp after a signal.
use ogmp_server.Base.{ℕ, zero, suc, ◌<◌, ◌≡◌, inl, inr, refl, subst, false, arith}
use mathlib.Core.WellFounded.{Acc}
use ogmp_server.Client.{Uninitialised}
use ogmp_server.Config.{Config}
use ogmp_server.Network.Connection.{}
use ogmp_server.Network.Tables.{Set, contains, sum}
use ogmp_server.Network.World.{World, set_connection, stop_each, signalled, stop_all}
use ogmp_server.Network.Watch.{
  stop_each-IsClosedBut, IsWatched-IsClosedBut, IsClosedBut, IsClosedAt,
}
use ogmp_server.Network.Stop.{stop-keeps, stop_each-keeps}
use ogmp_server.Network.Steps.{Step, Reach}
use ogmp_server.Network.Shutdown.{IsStopped, reads, rest, Step-IsAfter}
use ogmp_server.Network.Invariant.Watch.{Reach-HasWatch}

-- A lexicographic bound: of the reads first, and of the other handlers second.
ends_by :
    (config : Config) (m n : ℕ) (w : World)
    → sum reads w.connections < m
    → sum rest w.connections < n
    → IsStopped w
    → Acc (λ t v. Step config v t) w
ends_by config zero n w l k v = absurd (omega (arith, l))
ends_by config (suc m) zero w l k v = absurd (omega (arith, k))
ends_by config (suc m) (suc n) w l k v = Acc.intro w (λ t st.
    let after = Step-IsAfter st v in
    elim after.1 [
      | inl fewer ↦
          ends_by config m (suc (sum rest t.connections)) t (omega (arith, l, fewer)) (omega arith)
            after.0
      | inr less ↦
          ends_by config (suc m) n t (omega (arith, l, less.0)) (omega (arith, k, less.1)) after.0
    ])

stop_each-accepting :
    (s : Set) (w : World) → w.accepting ≡ false → (stop_each s w).accepting ≡ false
stop_each-accepting s w e =
    stop_each-keeps P (stop-keeps P (λ a c v f h. unfold set_connection in h)) s w e
  where
    P : World → Type 0
    P v = v.accepting ≡ false

stop_each-awaiting : (s : Set) (w : World) → w.awaiting ≡ false → (stop_each s w).awaiting ≡ false
stop_each-awaiting s w e =
    stop_each-keeps P (stop-keeps P (λ a c v f h. unfold set_connection in h)) s w e
  where
    P : World → Type 0
    P v = v.awaiting ≡ false

signalled-IsStopped : (w : World) → IsClosedBut w.managed w.connections → IsStopped (signalled w)
unfolding signalled stop_all contains
signalled-IsStopped w v =
    let w' = record w { accepting = false; awaiting = false } in
    record {
      refuses = stop_each-accepting w.managed w' refl;
      deaf = stop_each-awaiting w.managed w' refl;
      closed_ = λ a c e. subst (λ o. IsClosedAt false o) e (stop_each-IsClosedBut w.managed w' v a);
    }

-- After a signal the server comes to its end: from the world that the handler of the signal leaves,
-- where that handler runs in a world that the server reaches, there is no endless sequence of further
-- steps, in whatever order the handlers run.
pub signalled-Acc :
    (config : Config) (u : Uninitialised) {w : World}
    → Reach config u w
    → Acc (λ t v. Step config v t) (signalled w)
signalled-Acc config u {w} r = ends_by config _ _ (signalled w) (omega_next _) (omega_next _) (
    signalled-IsStopped w
      (IsWatched-IsClosedBut w.connections w.managed (Reach-HasWatch config u r)))
  where
    omega_next : (n : ℕ) → n < suc n
    omega_next n = omega arith
