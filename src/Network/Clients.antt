-- ===== src/Network/Clients.antt =====
-- A connection keeps the client that it has: `this_client_` of include/connection.hpp over the steps of
-- the server.
use ogmp_server.Base.{
  ℕ, ◌-◌, ◌≡◌, refl, sym, ap, ◌∙◌, inl, inr, Bool, true, false, not, ◌||◌, some, Bool-cases, arith,
  ◌==◌, ==_iff, if◌then◌else◌,
}
use mathlib.Core.Option.{some-injective}
use ogmp_server.Config.{Config}
use ogmp_server.Handler.Session.{Session}
use ogmp_server.Handler.Extends.{Extends, handle_request-Extends}
use ogmp_server.Network.Connection.{Connection, close, cancel_one, shutdown, take_in, expire}
use ogmp_server.Network.Tables.{find, find-put}
use ogmp_server.Network.World.{
  World, session, set_connection, manager_start, manager_stop, stop, stop_all, accepted, signalled,
  answer, read_failed, timed_out_line, client_timed_out, is_signed_on, wrote,
}
use ogmp_server.Network.Stop.{stop-keeps, stop_each-keeps}
use ogmp_server.Network.Write.{answer_lem, read_done_ok}
use ogmp_server.Network.Steps.{
  Step, connect, arrive, read, fail, wait_ends, time_out, write_ends, signal,
}

-- At `b` there is a connection with the client in cell `q`.
abbrev pub HasClient : ℕ → ℕ → World → Type 0
HasClient b q w = (d : Connection) × (find b w.connections ≡ some d) × (d.this_client ≡ some q)

module _ (b q : ℕ) where
  put-HasClient :
      (a : ℕ) (x : Connection) (w : World)
      → HasClient b q w
      → (a ≡ b → x.this_client ≡ some q)
      → HasClient b q (set_connection a x w)
  unfolding set_connection
  put-HasClient a x w (d, e, f) own = elim (Bool-cases (a == b)) [
    | inl same ↦ (x, ground (arith, find-put a b x w.connections), own ((==_iff a b).0 same))
    | inr other ↦ (d, ground (arith, find-put a b x w.connections), f)
  ]

  -- The connection that is changed has the client that it had.
  set_connection-HasClient :
      (a : ℕ) (c x : Connection) (w : World)
      → find a w.connections ≡ some c
      → x.this_client ≡ c.this_client
      → HasClient b q w
      → HasClient b q (set_connection a x w)
  set_connection-HasClient a c x w e same (d, f, g) =
      put-HasClient a x w (d, f, g)
        (λ i.
          same
          ∙ (ap (λ (y : Connection). y.this_client)
                (some-injective c d (sym e ∙ (ap (λ j. find j w.connections) i ∙ f)))
              ∙ g))

  stop-HasClient : (a : ℕ) (w : World) → HasClient b q w → HasClient b q (stop a w)
  unfolding close
  stop-HasClient =
      stop-keeps (HasClient b q) (λ a c w e h. set_connection-HasClient a c (close c) _ e refl h)

  stopped-HasClient :
      (a : ℕ) (c x : Connection) (w : World)
      → find a w.connections ≡ some c
      → x.this_client ≡ c.this_client
      → HasClient b q w
      → HasClient b q (manager_stop a (set_connection a x w))
  unfolding manager_stop set_connection
  stopped-HasClient a c x w e same h =
      stop-HasClient a _ (set_connection-HasClient a c x w e same h)

  wrote-HasClient :
      (ec : Bool) (a : ℕ) (c : Connection) (w : World)
      → find a w.connections ≡ some c
      → HasClient b q w
      → HasClient b q (wrote ec a c w)
  unfolding wrote shutdown
  wrote-HasClient ec a c w e h = elim (Bool-cases (not (is_signed_on c w))) [
    | inl stranger ↦ rw stranger (set_connection-HasClient a c _ w e refl h)
    | inr player ↦ rw player (at ec)
  ]
    where
      c' : Connection
      c' = record c { writing = c.writing - 1 }

      at :
          (k : Bool)
          → HasClient b q
              (if k then manager_stop a (set_connection a c' w) else set_connection a c' w)
      at true = stopped-HasClient a c c' w e refl h
      at false = set_connection-HasClient a c c' w e refl h

  answer-HasClient : (s t : Session) → s.this_client ≡ some q → Extends s t → t.this_client ≡ some q
  answer-HasClient s t e x = elim x.client [
    | inl same ↦ same ∙ e
    | inr (fresh, new, lt) ↦ absurd (let g = sym fresh ∙ e in cc)
  ]

  -- Every step of the server leaves a connection the client that it has.
  pub Step-HasClient :
      {config : Config} {w t : World} → Step config w t → HasClient b q w → HasClient b q t
  unfolding set_connection accepted manager_start signalled stop_all read_failed client_timed_out
      session take_in expire cancel_one
  Step-HasClient {w = w} (connect ec a buffer e l o) h = elim (Bool-cases (not w.accepting || ec)) [
    | inl gone ↦ rw gone h
    | inr open_ ↦ rw open_ (
        put-HasClient a _ w h
          (λ i. absurd (let f = sym e ∙ (ap (λ j. find j w.connections) i ∙ h.1) in cc)))
  ]
  Step-HasClient {w = w} (arrive a c bytes e p o l) h = set_connection-HasClient a c _ w e refl h
  Step-HasClient {config = config} {w = w} (read a c size v now t e p k) (d, f, g) =
      let (s, handled, result) = read_done_ok config v now a size c w t k in
      let x = handle_request-Extends config v now c.buffer size (session c w) s handled in
      rw result (
        put-HasClient a (answer s c) (record w { server = s.server }) (d, f, g)
          (λ i.
            ap (λ (y : Connection). y.this_client) (answer_lem s c)
            ∙ answer-HasClient (session c w) s
                (ap (λ (y : Connection). y.this_client)
                    (some-injective c d (sym e ∙ (ap (λ j. find j w.connections) i ∙ f)))
                  ∙ g)
                x))
  Step-HasClient {w = w} (fail a c e p) h = stopped-HasClient a c _ w e refl h
  Step-HasClient {w = w} (wait_ends a c e p) h = set_connection-HasClient a c _ w e refl h
  Step-HasClient {w = w} (time_out a c e p) h =
      stopped-HasClient a c _
        (record w { server = (timed_out_line c.this_client (session c w)).server }) e refl h
  Step-HasClient {w = w} (write_ends a c ec e p) h = wrote-HasClient ec a c w e h
  Step-HasClient {w = w} (signal e) h = stop_each-keeps (HasClient b q) stop-HasClient w.managed _ h
