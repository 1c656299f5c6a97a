-- ===== src/Handler/Update/Send.antt =====
-- `AddUpdateSelf`, `AddChangedVariables` and `AddOtherClientVariables` of src/request_handler.cpp,
-- and the last loop of `HandleUpdate`: what a client is sent about itself and about the others.
use ogmp_server.Base.{ℕ, List, [], ◌∷◌, none, some, ℤ, negsuc, int_eq, length, ◌==◌, if◌then◌else◌}
use ogmp_server.StringMap.{StringMap}
use ogmp_server.Reply.{Reply, MessageType, add_message_type, add_string, add_char}
use ogmp_server.Client.{Client}
use ogmp_server.Client.Variables.{PlayerVariable, variable_code, variable_of, add_value}
use ogmp_server.Client.Setters.{is_variable_new, get_variable}
use ogmp_server.Client.History.{
  get_key, set_key, get_last_update_key, get_missing_update_variable_types,
}
use ogmp_server.Handler.Session.{Session, push_reply, on_client}

-- The value of a variable, by the `switch` of `AddOtherClientVariables`. `remove_blood` has no case.
unfoldable pub add_other_value : PlayerVariable → Client → Reply → Reply
add_other_value PlayerVariable.remove_blood c r = r
add_other_value v c r = add_value (get_variable v c) r

unfoldable pub add_other_variable : ℕ → Client → Reply → Reply
add_other_variable b c r = elim (variable_of b) [
  | none ↦ add_char b r
  | some v ↦ add_other_value v c (add_char b r)
]

unfoldable pub add_other_types : List ℕ → Client → Reply → Reply
add_other_types [] c r = r
add_other_types (b ∷ bs) c r = add_other_types bs c (add_other_variable b c r)

unfoldable pub add_other_client_variables : Client → ℤ → Reply → Reply
add_other_client_variables c last_update_key r =
    add_other_types (get_missing_update_variable_types last_update_key c) c r

-- One of the `if`s of `AddChangedVariables`.
unfoldable pub add_changed : PlayerVariable → Client → Reply → Reply
add_changed v c r =
    if is_variable_new v c then add_value (get_variable v c) (add_char (variable_code v) r) else r

-- The `if`s in their order; the velocities have none.
abbrev changed_order : List PlayerVariable
changed_order =
    PlayerVariable.blood_damage ∷ PlayerVariable.blood_health ∷ PlayerVariable.block_health
    ∷ PlayerVariable.temp_health ∷ PlayerVariable.permanent_health ∷ PlayerVariable.blood_amount
    ∷ PlayerVariable.recovery_time ∷ PlayerVariable.roll_recovery_time ∷ PlayerVariable.ragdoll_type
    ∷ PlayerVariable.remove_blood ∷ PlayerVariable.cut_throat ∷ PlayerVariable.crouch
    ∷ PlayerVariable.jump ∷ PlayerVariable.attack ∷ PlayerVariable.grab ∷ PlayerVariable.item
    ∷ PlayerVariable.drop ∷ PlayerVariable.position_x ∷ PlayerVariable.position_y
    ∷ PlayerVariable.position_z ∷ PlayerVariable.direction_x ∷ PlayerVariable.direction_z
    ∷ PlayerVariable.knocked_out ∷ PlayerVariable.blood_delay ∷ PlayerVariable.state ∷ []

unfoldable pub add_all_changed : List PlayerVariable → Client → Reply → Reply
add_all_changed [] c r = r
add_all_changed (v ∷ vs) c r = add_all_changed vs c (add_changed v c r)

unfoldable pub add_changed_variables : Client → Reply → Reply
add_changed_variables c r = add_all_changed changed_order c r

unfoldable pub add_update_self : ℕ → Session → Session
add_update_self p s =
    push_reply (add_changed_variables (s.heap p) (add_message_type MessageType.update_self [])) s

-- The head of the message about another client.
unfoldable pub update_head : Client → Reply
update_head other = add_string other.username (add_message_type MessageType.update_character [])

-- One round of the loop over the other clients, for the client in cell `p` about the one in `q`.
unfoldable pub send_update : ℕ → ℕ → Session → Session
send_update p q s =
    let other = s.heap q in
    let head = update_head other in
    let last_update_key = get_key other.username (s.heap p) in
    let full = add_other_client_variables other last_update_key head in
    if int_eq last_update_key (negsuc 0)
    then if int_eq (get_last_update_key other) (negsuc 0)
      then s
      else on_client p (set_key other.username (get_last_update_key other)) s
    else if length full == length head
    then s
    else push_reply full (on_client p (set_key other.username (get_last_update_key other)) s)

unfoldable pub send_updates : ℕ → StringMap ℕ → Session → Session
send_updates p [] s = s
send_updates p ((k, q) ∷ items) s = send_updates p items (send_update p q s)
