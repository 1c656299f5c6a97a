-- ===== src/Handler/Dispatch/Faults.antt =====
-- Which messages `handle_request` of src/request_handler.cpp handles to their end, and which make
-- it do what C++ leaves undefined.
use ogmp_server.Base.{
  ℕ, suc, ◌+◌, ◌≤◌, ◌≡◌, ◌≢◌, refl, Bool, true, false, List, [], ◌∷◌, ◌++◌, none, some, null_client,
  out_of_bounds, ok, err, Returns, Returns-ok, arith, Option-cases, inl, inr, get_elem?, length,
  All, get_elem?-total, ◌⊎◌, Bool-cases,
}
use ogmp_server.Reply.{MessageType, message_code}
use ogmp_server.Client.{Uninitialised}
use ogmp_server.Client.Variables.{PlayerVariable, variable_of, variable_code}
use ogmp_server.Client.Setters.{set_all_variables_old}
use ogmp_server.Config.{Config}
use ogmp_server.Handler.Session.{Session}
use ogmp_server.Handler.Update.Bounds.{read_variables_overrun}
use ogmp_server.Handler.Update.Invariant.{handle_update_null, handle_update_fault}
use ogmp_server.Handler.Messages.{handle_unknown_message}
use ogmp_server.Handler.Dispatch.{message_of, handle_message, handle_request}
use ogmp_server.Handler.Dispatch.Returns.{
  sign_on-Returns, chat-Returns, chat_null, update-Returns, save-Returns, load-Returns, save_null,
  load_null,
}

-- The messages that are about the connection's client.
unfoldable pub needs_client : Config → MessageType → Bool
needs_client config MessageType.update_game = true
needs_client config MessageType.message = true
needs_client config MessageType.save_position = config.allow_teleport
needs_client config MessageType.load_position = config.allow_teleport
needs_client config _ = false

-- The first bytes of those messages.
unfoldable pub needs : Config → ℕ → Bool
needs config b = elim (message_of b) [ none ↦ false | some m ↦ needs_client config m ]

module _ (config : Config) (u : Uninitialised) (now : ℕ) (data_ : List ℕ) (size : ℕ) (s : Session)
    (large : 8192 ≤ length data_) where
  message-Returns :
      (p : ℕ) (m : MessageType)
      → s.this_client ≡ some p
      → size + 4 ≤ length data_
      → Returns (λ _. Unit) (handle_message config u now data_ size m s)
  unfolding handle_message
  message-Returns p MessageType.sign_on e fits = sign_on-Returns config u now data_ size s large
  message-Returns p MessageType.update_game e fits =
      update-Returns config u now data_ size s large p e fits
  message-Returns p MessageType.message e fits = chat-Returns config u now data_ size s large p e
  message-Returns p MessageType.save_position e fits = save-Returns config s p e
  message-Returns p MessageType.load_position e fits = load-Returns config s p e
  message-Returns p MessageType.update_self e fits = tt
  message-Returns p _ e fits = tt

  message_no_client :
      (m : MessageType)
      → s.this_client ≡ none
      → needs_client config m ≡ false
      → Returns (λ _. Unit) (handle_message config u now data_ size m s)
  unfolding handle_message needs_client
  message_no_client MessageType.sign_on e n = sign_on-Returns config u now data_ size s large
  message_no_client MessageType.update_game e n = cc
  message_no_client MessageType.message e n = cc
  message_no_client MessageType.save_position e n = rw (save_null config s e, n) tt
  message_no_client MessageType.load_position e n = rw (load_null config s e, n) tt
  message_no_client _ e n = tt

  message_null :
      (m : MessageType)
      → s.this_client ≡ none
      → needs_client config m ≡ true
      → handle_message config u now data_ size m s ≡ err null_client
  unfolding handle_message needs_client
  message_null MessageType.update_game e n = handle_update_null now data_ 1 size s e
  message_null MessageType.message e n = chat_null config u now data_ size s large e
  message_null MessageType.save_position e n = rw (save_null config s e, n)
  message_null MessageType.load_position e n = rw (load_null config s e, n)
  message_null MessageType.sign_on e n = cc
  message_null _ e n = cc

  -- A message of a connection that has a client is handled to its end, whatever its bytes, if the
  -- buffer has at least 8192 bytes and the message ends at least four bytes in front of the
  -- buffer's end.
  pub handle_request-returns :
      (p : ℕ)
      → s.this_client ≡ some p
      → size + 4 ≤ length data_
      → (t : Session) × (handle_request config u now data_ size s ≡ ok t)
  unfolding handle_request
  handle_request-returns p here fits =
      let (b, first) = get_elem?-total data_ 0 (omega arith) in
      elim (Option-cases (message_of b)) [
        | inl e ↦ (handle_unknown_message s, rw (first, e, handle_request))
        | inr (m, e) ↦
            let got =
              Returns-ok (handle_message config u now data_ size m s)
                (message-Returns p m here fits) in
            (got.0, rw (first, e, handle_request) got.1)
      ]

  -- What a first byte of a connection that has no client leads to.
  abbrev pub Stranger : ℕ → Type 0
  Stranger b =
      ((needs config b ≡ true) × (handle_request config u now data_ size s ≡ err null_client))
      ⊎ ((needs config b ≡ false)
          × (t : Session) × (handle_request config u now data_ size s ≡ ok t))

  known_byte :
      (b : ℕ) (m : MessageType)
      → s.this_client ≡ none
      → get_elem? data_ 0 ≡ some b
      → message_of b ≡ some m
      → Stranger b
  unfolding handle_request needs
  known_byte b m e first known = elim (Bool-cases (needs_client config m)) [
    | inl needed ↦
        inl (rw (known, needs) needed, rw (first, known, handle_request) (message_null m e needed))
    | inr not_needed ↦
        let got =
          Returns-ok (handle_message config u now data_ size m s)
            (message_no_client m e not_needed) in
        inr (rw (known, needs) not_needed, got.0, rw (first, known, handle_request) got.1)
  ]

  first_byte : (b : ℕ) → s.this_client ≡ none → get_elem? data_ 0 ≡ some b → Stranger b
  unfolding handle_request needs
  first_byte b e first = elim (Option-cases (message_of b)) [
    | inl unknown ↦ inr (
      rw (unknown, needs) refl,
      handle_unknown_message s,
      rw (first, unknown, handle_request) refl,
    )
    | inr (m, known) ↦ known_byte b m e first known
  ]

  -- On a connection that has no client, and with a buffer of at least 8192 bytes, the server reads
  -- through an empty pointer exactly where the first byte is that of an update, of a chat message
  -- or, with teleporting allowed, of a request to save or load a position. Whatever the other bytes
  -- are, any other first byte, an unknown one too, is handled to the end.
  pub handle_request_null :
      s.this_client ≡ none → (b : ℕ) × (get_elem? data_ 0 ≡ some b) × Stranger b
  handle_request_null e =
      let (b, first) = get_elem?-total data_ 0 (omega arith) in (b, first, first_byte b e first)

-- An update that fills the buffer, whose last byte is the type of a variable with a value and whose
-- other bytes are no variable's type, makes the server read behind the buffer.
pub handle_request_overrun :
    (config : Config) (u : Uninitialised) (now : ℕ) (junk : List ℕ) (v : PlayerVariable)
    (s : Session) (p : ℕ)
    → s.this_client ≡ some p
    → All (λ b. variable_of b ≡ none) junk
    → v ≢ PlayerVariable.remove_blood
    → handle_request config u now
        (message_code MessageType.update_game ∷ junk ++ variable_code v ∷ [])
        (length junk + 2)
        s
      ≡ err out_of_bounds
unfolding handle_request handle_message message_of
handle_request_overrun config u now junk v s p here a n =
    handle_update_fault now _ 1 (length junk + 2) s p out_of_bounds here (
      read_variables_overrun (suc (length junk + 2)) (length junk + 2) _ 1
        (set_all_variables_old (s.heap p)) [] junk v refl a n (omega arith) (omega arith))
