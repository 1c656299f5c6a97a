-- ===== src/Handler/Accepted.antt =====
-- What `HandleSignOn` of src/request_handler.cpp does on each of its ways out.
use ogmp_server.Base.{
  ℕ, ◌≡◌, refl, ◌∙◌, ap, true, false, ◌||◌, [], ◌∷◌, ◌++◌, some, arith, if◌then◌else◌, Bool-cases,
  inl, inr, ==-refl,
}
use ogmp_server.Text.{Str, codes, str_eq}
use ogmp_server.StringMap.{StringMap, find, insert, find-insert}
use ogmp_server.Reply.{MessageType, add_message_type, add_string}
use ogmp_server.Client.{Client}
use ogmp_server.Client.Setters.{
  set_level_name, set_level_path, set_username, set_team, set_posx, set_posy, set_posz,
  set_saved_posx, set_saved_posy, set_saved_posz, set_character, set_signed_on,
}
use ogmp_server.Config.{Config}
use ogmp_server.Manager.{Heap, Server, write, add_client, add_to_inbox, get_clients}
use ogmp_server.Handler.Session.{
  Session, push_reply, on_server, on_client, print, add_error_message,
}
use ogmp_server.Handler.SignOn.{
  SignOnData, fill_client, spawn_others, enter, announce, accept, sign_on, is_invalid, is_forbidden,
  is_taken, default_name, refuse_invalid, refuse_forbidden, refuse_taken,
}

-- The outcome of a refusal: one error reply, and the clients and the map as they were.
pub record IsRefusal (s t : Session) : Type 0 where
  pub text : Str
  pub replies : t.rep ≡ s.rep ++ add_string text (add_message_type MessageType.error []) ∷ []
  pub heap : t.heap ≡ s.heap
  pub clients : t.clients ≡ s.clients
  pub next : t.next ≡ s.next
  pub this_client : t.this_client ≡ s.this_client

add_error_message-IsRefusal :
    (message : Str) (s : Session) → IsRefusal s (add_error_message message s)
unfolding add_error_message push_reply
add_error_message-IsRefusal message s = record {
  text = message;
  replies = refl;
  heap = refl;
  clients = refl;
  next = refl;
  this_client = refl;
}

refuse_invalid-IsRefusal : (d : SignOnData) (s : Session) → IsRefusal s (refuse_invalid d s)
unfolding refuse_invalid add_error_message push_reply print
refuse_invalid-IsRefusal d s = record {
  text = codes "The level you are trying to use is not valid!";
  replies = refl;
  heap = refl;
  clients = refl;
  next = refl;
  this_client = refl;
}

-- A sign-on with a level name or path shorter than two bytes, with a level that the settings
-- forbid, or with a name that a player has, is refused: it adds one error reply and changes neither
-- a client nor the map.
pub sign_on_refused :
    (config : Config) (d : SignOnData) (p : ℕ) (s : Session)
    → (is_invalid d || (is_forbidden config d || is_taken s.heap d.username s.clients)) ≡ true
    → IsRefusal s (sign_on config d p s)
unfolding sign_on get_clients
sign_on_refused config d p s h = elim (Bool-cases (is_invalid d)) [
  | inl invalid ↦ rw invalid (refuse_invalid-IsRefusal d s)
  | inr valid ↦ rw valid (elim (Bool-cases (is_forbidden config d)) [
    | inl forbidden ↦ rw forbidden (unfold refuse_forbidden in add_error_message-IsRefusal _ s)
    | inr allowed ↦ rw allowed (elim (Bool-cases (is_taken s.heap d.username s.clients)) [
      | inl taken ↦ rw taken (unfold refuse_taken in add_error_message-IsRefusal _ s)
      | inr free ↦ absurd (ground arith)
    ])
  ])
]

spawn_others-server : (items : StringMap ℕ) (s : Session) → (spawn_others items s).server ≡ s.server
unfolding spawn_others push_reply
spawn_others-server [] s = refl
spawn_others-server ((k, p) ∷ items) s = spawn_others-server items (push_reply _ s)

write_self : (p : ℕ) (c : Client) (heap : Heap) → write p c heap p ≡ c
write_self p c heap = rw (==-refl p)

fill_client-username :
    (d : SignOnData) (levelname : Str) (c : Client)
    → (fill_client d levelname c).username ≡ d.username
unfolding fill_client set_level_name set_level_path set_username set_team set_posx set_posy set_posz
    set_saved_posx set_saved_posy set_saved_posz set_character set_signed_on
fill_client-username d levelname c = refl

module _ (config : Config) (d : SignOnData) (levelname : Str) (p : ℕ) (s : Session) where
  -- The session behind `client_manager_.add_client`.
  added : Session
  added = on_server (add_client p) (on_client p (fill_client d levelname) s)

  enter-server : (enter config d levelname p s).server ≡ added.server
  unfolding enter added
  enter-server = spawn_others-server _ _ ∙ (unfold push_reply in refl)

  added-clients : added.clients ≡ insert d.username p s.clients
  unfolding added on_server on_client add_client
  added-clients =
      ap (λ (c : Client). insert c.username p s.clients)
        (write_self p (fill_client d levelname (s.heap p)) s.heap)
      ∙ ap (λ (n : Str). insert n p s.clients) (fill_client-username d levelname (s.heap p))

  added-heap : added.heap ≡ write p (fill_client d levelname (s.heap p)) s.heap
  unfolding added on_server on_client add_client
  added-heap = refl

announce-clients : (p : ℕ) (s : Session) → (announce p s).clients ≡ s.clients
unfolding announce on_server add_to_inbox print
announce-clients p s = refl

accept-clients :
    (config : Config) (d : SignOnData) (levelname : Str) (p : ℕ) (s : Session)
    → (accept config d levelname p s).clients ≡ insert d.username p s.clients
unfolding accept
accept-clients config d levelname p s =
    announce-clients p (enter config d levelname p s)
    ∙ ap (λ (t : Server). t.clients) (enter-server config d levelname p s)
    ∙ added-clients config d levelname p s

-- A sign-on that passes the checks enters the client under its name; no other entry changes.
pub sign_on_entry :
    (config : Config) (d : SignOnData) (p : ℕ) (s : Session) (name : Str)
    → is_invalid d ≡ false
    → is_forbidden config d ≡ false
    → is_taken s.heap d.username s.clients ≡ false
    → find name (sign_on config d p s).clients
      ≡ (if str_eq d.username name then some p else find name s.clients)
unfolding sign_on get_clients
sign_on_entry config d p s name valid allowed free =
    rw
      (
        valid,
        allowed,
        free,
        accept-clients config d (default_name config.map_list d.levelpath d.levelname) p s,
      )
      (find-insert d.username name p s.clients)
