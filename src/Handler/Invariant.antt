-- ===== src/Handler/Invariant.antt =====
-- The invariant of a session of src/request_handler.cpp, kept by the parts that the handlers are made
-- of and by `HandleSignOn`.
use ogmp_server.Base.{
  ℕ, ◌<◌, ◌≡◌, refl, List, [], ◌∷◌, Option, none, some, ok, err, arith, Bool-cases, Option-cases,
  Result-cases, Ensures, Fault, inl, inr,
}
use ogmp_server.Text.{Str}
use ogmp_server.StringMap.{StringMap}
use ogmp_server.Reply.{Reply}
use ogmp_server.Client.{Client, Uninitialised}
use ogmp_server.Config.{Config}
use ogmp_server.Manager.{add_client, add_to_inbox, remove_client, get_clients}
use ogmp_server.Manager.Invariant.{
  IsServer, Allocated, write-IsServer, allocate-IsServer, write_unlisted-IsServer,
  add_to_inbox-IsServer, remove_client-IsServer, add_client-IsServer,
}
use ogmp_server.Handler.Session.{
  Session, push_reply, on_server, on_client, print, make_client, add_error_message,
}
use ogmp_server.Handler.SignOn.{
  SignOnData, read_sign_on, again, fill_client, spawn_others, accept, announce, enter, sign_on,
  handle_sign_on, is_invalid, is_forbidden, is_taken, default_name, refuse_invalid,
  refuse_forbidden, refuse_taken,
}

-- The map of players is well formed, and the connection's client has been allocated.
pub record IsSession (s : Session) : Type 0 where
  pub server : IsServer s.server
  pub client : (p : ℕ) → s.this_client ≡ some p → p < s.next

module _ (s : Session) (v : IsSession s) where
  pub push_reply-IsSession : (r : Reply) → IsSession (push_reply r s)
  unfolding push_reply
  push_reply-IsSession r = record { server = v.server; client = v.client }

  pub print-IsSession : (text : Str) → IsSession (print text s)
  unfolding print
  print-IsSession text = record {
    server = record {
      sorted = v.server.sorted;
      named = v.server.named;
      allocated = v.server.allocated;
    };
    client = v.client;
  }

  pub on_client-IsSession :
      (p : ℕ) (f : Client → Client)
      → (f (s.heap p)).username ≡ (s.heap p).username
      → IsSession (on_client p f s)
  unfolding on_client
  on_client-IsSession p f e = record {
    server = write-IsServer p (f (s.heap p)) s.server e v.server;
    client = v.client;
  }

  pub broadcast-IsSession :
      (m : Reply) (initiator : Option ℕ) → IsSession (on_server (add_to_inbox m initiator) s)
  unfolding on_server
  broadcast-IsSession m initiator = record {
    server = add_to_inbox-IsServer m initiator s.server v.server;
    client = unfold add_to_inbox in v.client;
  }

  pub remove_client-IsSession : (p : ℕ) → IsSession (on_server (remove_client (some p)) s)
  unfolding on_server
  remove_client-IsSession p = record {
    server = remove_client-IsServer p s.server v.server;
    client = unfold remove_client in v.client;
  }

  pub make_client-IsSession : (u : Uninitialised) → IsSession (make_client u s)
  unfolding make_client
  make_client-IsSession u = record {
    server = allocate-IsServer _ s.server v.server;
    client = λ p e. ground arith;
  }

spawn_others-IsSession :
    (items : StringMap ℕ) (s : Session) → IsSession s → IsSession (spawn_others items s)
unfolding spawn_others
spawn_others-IsSession [] s v = v
spawn_others-IsSession ((k, p) ∷ items) s v =
    spawn_others-IsSession items (push_reply _ s) (push_reply-IsSession s v _)

accept-IsSession :
    (config : Config) (d : SignOnData) (levelname : Str) (p : ℕ) (s : Session)
    → IsSession s
    → s.this_client ≡ some p
    → Allocated p s.clients
    → IsSession (accept config d levelname p s)
unfolding accept announce enter
accept-IsSession config d levelname p s v e a =
    broadcast-IsSession _
      (print-IsSession _
        (broadcast-IsSession _ (spawn_others-IsSession _ _ (push_reply-IsSession _ added _)) _
          (some p))
        _)
      _ (some p)
  where
    filled : Session
    filled = on_client p (fill_client d levelname) s

    named : IsSession filled
    named =
        unfold on_client in
        record { server = write_unlisted-IsServer p _ s.server a v.server; client = v.client }

    added : IsSession (on_server (add_client p) filled)
    added =
        unfold on_server on_client in
        record {
          server = add_client-IsServer p _ (v.client p e) named.server;
          client = unfold add_client in v.client;
        }

-- A refusal is one reply, and a line of the log where the level is invalid.
refuse-IsSession :
    (d : SignOnData) (s : Session)
    → IsSession s
    → IsSession (refuse_invalid d s) × IsSession (refuse_forbidden s) × IsSession (refuse_taken s)
unfolding refuse_invalid refuse_forbidden refuse_taken add_error_message
refuse-IsSession d s v = (
  print-IsSession _ (push_reply-IsSession s v _) _,
  push_reply-IsSession s v _,
  push_reply-IsSession s v _,
)

sign_on-IsSession :
    (config : Config) (d : SignOnData) (p : ℕ) (s : Session)
    → IsSession s
    → s.this_client ≡ some p
    → Allocated p s.clients
    → IsSession (sign_on config d p s)
unfolding sign_on
sign_on-IsSession config d p s v e a = elim (Bool-cases (is_invalid d)) [
  | inl invalid ↦ rw invalid (refuse-IsSession d s v).0
  | inr valid ↦ rw valid (elim (Bool-cases (is_forbidden config d)) [
    | inl forbidden ↦ rw forbidden (refuse-IsSession d s v).1
    | inr allowed ↦
        rw allowed (elim (Bool-cases (is_taken s.heap d.username (get_clients none s.server))) [
          | inl taken ↦ rw taken (refuse-IsSession d s v).2
          | inr free ↦ rw free (
              accept-IsSession config d (default_name config.map_list d.levelpath d.levelname) p s v
                e a)
        ])
  ])
]

module _ (config : Config) (u : Uninitialised) (data_ : List ℕ) (i : ℕ) (s : Session) where
  pub handle_sign_on-again :
      (p : ℕ)
      → s.this_client ≡ some p
      → handle_sign_on config u data_ i s ≡ ok (print (again (s.heap p).username) s)
  unfolding handle_sign_on again
  handle_sign_on-again p e = ground arith

  pub handle_sign_on_fault :
      (e : Fault)
      → s.this_client ≡ none
      → read_sign_on data_ i ≡ err e
      → handle_sign_on config u data_ i s ≡ err e
  unfolding handle_sign_on
  handle_sign_on_fault e fresh bad = ground arith

  pub handle_sign_on_read :
      (d : SignOnData) (j : ℕ)
      → s.this_client ≡ none
      → read_sign_on data_ i ≡ ok (d, j)
      → handle_sign_on config u data_ i s ≡ ok (sign_on config d s.next (make_client u s))
  unfolding handle_sign_on
  handle_sign_on_read d j fresh fine = ground arith

  pub handle_sign_on-IsSession : IsSession s → Ensures IsSession (handle_sign_on config u data_ i s)
  handle_sign_on-IsSession v = elim (Option-cases s.this_client) [
    | inr (p, e) ↦ rw (handle_sign_on-again p e) (print-IsSession s v _)
    | inl fresh ↦ elim (Result-cases (read_sign_on data_ i)) [
      | inr (e, bad) ↦ rw (handle_sign_on_fault e fresh bad) tt
      | inl (r, fine) ↦ rw (handle_sign_on_read r.0 r.1 fresh fine) (
          sign_on-IsSession config r.0 s.next (make_client u s) (make_client-IsSession s v u)
            (unfold make_client in refl) (unfold make_client in v.server.allocated))
    ]
  ]
