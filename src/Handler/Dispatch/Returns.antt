-- ===== src/Handler/Dispatch/Returns.antt =====
-- The handlers of src/request_handler.cpp, one by one: where they end with a session, and where they
-- read through an empty pointer.
use ogmp_server.Base.{
  ℕ, suc, ◌+◌, ◌≤◌, ◌≡◌, refl, List, [], none, some, null_client, ok, err, Returns, Returns-ok,
  arith, if◌then◌else◌, Option-cases, inl, inr, length,
}
use ogmp_server.Text.{Str}
use ogmp_server.Reply.{MessageType, message_code}
use ogmp_server.Input.{Read, ◌>>=◌, get_string, get_float}
use ogmp_server.Input.Bounds.{
  ReadsAtMost, ReadsAtMost-bind, ReadsAtMost-pure, get_string-ReadsAtMost, get_float-ReadsAtMost,
}
use ogmp_server.Client.{Uninitialised}
use ogmp_server.Client.Setters.{set_all_variables_old}
use ogmp_server.Config.{Config}
use ogmp_server.Handler.Session.{Session}
use ogmp_server.Handler.SignOn.{SignOnData, read_sign_on, handle_sign_on}
use ogmp_server.Handler.Invariant.{handle_sign_on-again, handle_sign_on_read}
use ogmp_server.Handler.Update.{handle_update}
use ogmp_server.Handler.Update.Read.{read_variables}
use ogmp_server.Handler.Update.Bounds.{read_variables-Returns}
use ogmp_server.Handler.Update.Invariant.{handle_update_read}
use ogmp_server.Handler.Messages.{
  read_chat, handle_chat_message, handle_save_position_message, handle_load_position_message,
}
use ogmp_server.Handler.Dispatch.{message_of}

-- Five strings and three floats.
read_sign_on-ReadsAtMost : ReadsAtMost (λ _. Unit) 652 read_sign_on
unfolding read_sign_on
read_sign_on-ReadsAtMost = string 524 652 _ (omega arith) λ username.
    string 396 524 _ (omega arith) λ character. string 268 396 _ (omega arith) λ levelname.
      string 140 268 _ (omega arith) λ levelpath. string 12 140 _ (omega arith) λ version.
        float 8 12 _ (omega arith) λ posx.
          float 4 8 _ (omega arith) λ posy. float 0 4 _ (omega arith) λ posz. ReadsAtMost-pure _ tt
  where
    string :
        (l n : ℕ) (f : Str → Read SignOnData)
        → 128 + l ≤ n
        → ((a : Str) → ReadsAtMost (λ _. Unit) l (f a))
        → ReadsAtMost (λ _. Unit) n (get_string >>= f)
    string l n f le r = ReadsAtMost-bind 128 l n get_string f le get_string-ReadsAtMost (λ a _. r a)

    float :
        (l n : ℕ) (f : ℕ → Read SignOnData)
        → 4 + l ≤ n
        → ((a : ℕ) → ReadsAtMost (λ _. Unit) l (f a))
        → ReadsAtMost (λ _. Unit) n (get_float >>= f)
    float l n f le r = ReadsAtMost-bind 4 l n get_float f le get_float-ReadsAtMost (λ a _. r a)

read_chat-ReadsAtMost : ReadsAtMost (λ _. Unit) 256 read_chat
unfolding read_chat
read_chat-ReadsAtMost =
    ReadsAtMost-bind 128 128 256 get_string _ (omega arith) get_string-ReadsAtMost λ source _.
      ReadsAtMost-bind 128 0 128 get_string _ (omega arith) get_string-ReadsAtMost
        λ content _. ReadsAtMost-pure (source, content) tt

module _ (config : Config) (u : Uninitialised) (now : ℕ) (data_ : List ℕ) (size : ℕ) (s : Session)
    (large : 8192 ≤ length data_) where
  pub sign_on-Returns : Returns (λ _. Unit) (handle_sign_on config u data_ 1 s)
  sign_on-Returns = elim (Option-cases s.this_client) [
    | inr (p, e) ↦ rw (handle_sign_on-again config u data_ 1 s p e) tt
    | inl fresh ↦
        let got =
          Returns-ok (read_sign_on data_ 1) (read_sign_on-ReadsAtMost.at data_ 1 (omega arith)) in
        rw (handle_sign_on_read config u data_ 1 s got.0.0 got.0.1 fresh got.1) tt
  ]

  pub chat-Returns :
      (p : ℕ) → s.this_client ≡ some p → Returns (λ _. Unit) (handle_chat_message data_ 1 s)
  unfolding handle_chat_message
  chat-Returns p e =
      let got = Returns-ok (read_chat data_ 1) (read_chat-ReadsAtMost.at data_ 1 (omega arith)) in
      rw (got.1, e, handle_chat_message) tt

  pub chat_null : s.this_client ≡ none → handle_chat_message data_ 1 s ≡ err null_client
  unfolding handle_chat_message
  chat_null e =
      let got = Returns-ok (read_chat data_ 1) (read_chat-ReadsAtMost.at data_ 1 (omega arith)) in
      rw (got.1, e, handle_chat_message)

  pub update-Returns :
      (p : ℕ)
      → s.this_client ≡ some p
      → size + 4 ≤ length data_
      → Returns (λ _. Unit) (handle_update now data_ 1 size s)
  update-Returns p e fits =
      let got =
        Returns-ok (read_variables (suc size) size data_ 1 (set_all_variables_old (s.heap p)) []) (
          read_variables-Returns (suc size) size data_ 1 (set_all_variables_old (s.heap p)) [] fits
            (omega arith) (omega arith)) in
      rw (handle_update_read now data_ 1 size s p got.0.0 got.0.1 e got.1) tt

pub message_of-code : (m : MessageType) → message_of (message_code m) ≡ some m
unfolding message_of
message_of-code MessageType.sign_on = refl
message_of-code MessageType.message = refl
message_of-code MessageType.time_out = refl
message_of-code MessageType.spawn_character = refl
message_of-code MessageType.remove_character = refl
message_of-code MessageType.update_game = refl
message_of-code MessageType.update_self = refl
message_of-code MessageType.save_position = refl
message_of-code MessageType.load_position = refl
message_of-code MessageType.update_character = refl
message_of-code MessageType.error = refl
message_of-code MessageType.server_info = refl
message_of-code MessageType.level_list = refl
message_of-code MessageType.player_list = refl

pub save-Returns :
    (config : Config) (s : Session) (p : ℕ)
    → s.this_client ≡ some p
    → Returns (λ _. Unit) (handle_save_position_message config s)
unfolding handle_save_position_message
save-Returns config s p e = ground arith

pub load-Returns :
    (config : Config) (s : Session) (p : ℕ)
    → s.this_client ≡ some p
    → Returns (λ _. Unit) (handle_load_position_message config s)
unfolding handle_load_position_message
load-Returns config s p e = ground arith

pub save_null :
    (config : Config) (s : Session)
    → s.this_client ≡ none
    → handle_save_position_message config s
      ≡ (if config.allow_teleport then err null_client else ok s)
unfolding handle_save_position_message
save_null config s e = ground arith

pub load_null :
    (config : Config) (s : Session)
    → s.this_client ≡ none
    → handle_load_position_message config s
      ≡ (if config.allow_teleport then err null_client else ok s)
unfolding handle_load_position_message
load_null config s e = ground arith
