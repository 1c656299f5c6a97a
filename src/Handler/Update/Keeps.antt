-- ===== src/Handler/Update/Keeps.antt =====
-- No variable of an update is the player's name, the history of the updates or the inbox.
use ogmp_server.Base.{
  ℕ, zero, suc, ◌≡◌, refl, ◌∙◌, subst, List, [], ◌∷◌, ◌++◌, Result, ok, err, Ensures, ltb,
  Bool-cases, Option-cases, Result-cases, inl, inr,
}
use ogmp_server.Input.{Read, ◌>>=◌, pure, get_char, get_bool, get_float, get_int}
use ogmp_server.Client.{Client}
use ogmp_server.Client.Variables.{PlayerVariable, variable_of}
use ogmp_server.Client.Setters.{
  set_crouch, set_jump, set_attack, set_grab, set_item, set_drop, set_blood_damage,
  set_blood_health, set_block_health, set_temp_health, set_permanent_health, set_blood_amount,
  set_recovery_time, set_roll_recovery_time, set_knocked_out, set_ragdoll_type, set_blood_delay,
  set_state, set_cut_throat, set_posx, set_posy, set_posz, set_dirx, set_dirz, set_velx, set_vely,
  set_velz,
}
use ogmp_server.Handler.Update.Steps.{
  read_variables_done, read_variables_no_type, read_variables_no_value, read_variables_step,
}
use ogmp_server.Handler.Update.Read.{receive, receive_char, read_variables}

-- Two clients with the same name, the same history of updates and the same inbox.
abbrev pub IsSame : Client → Client → Type 0
IsSame c d =
    (d.username ≡ c.username)
    × (d.history_index ≡ c.history_index)
    × (d.client_update_history ≡ c.client_update_history)
    × (d.inbox ≡ c.inbox)

IsSame-trans : (c d e : Client) → IsSame c d → IsSame d e → IsSame c e
IsSame-trans c d e h k = (k.0 ∙ h.0, k.1 ∙ h.1, k.2 ∙ h.2, k.3 ∙ h.3)

-- The change that is read leaves these alone.
abbrev KeepsName : (Client → Client) × ℕ → Type 0
KeepsName r = (c : Client) → IsSame c (r.0 c)

one_value :
    {A : Type 0} (m : Read A) (set : A → Client → Client)
    → ((a : A) (c : Client) → IsSame c (set a c))
    → (data_ : List ℕ) (i : ℕ) → Ensures KeepsName ((m >>= λ x. pure (set x)) data_ i)
one_value {A} m set keeps data_ i = go (m data_ i)
  where
    go :
        (r : Result (A × ℕ))
        → Ensures KeepsName (elim r [ err e ↦ err e | ok (a, j) ↦ pure (set a) data_ j ])
    go (ok (a, j)) = keeps a
    go (err e) = tt

receive-KeepsName :
    (v : PlayerVariable) (data_ : List ℕ) (i : ℕ) → Ensures KeepsName (receive v data_ i)
unfolding receive set_crouch set_jump set_attack set_grab set_item set_drop set_blood_damage
    set_blood_health set_block_health set_temp_health set_permanent_health set_blood_amount
    set_recovery_time set_roll_recovery_time set_knocked_out set_ragdoll_type set_blood_delay
    set_state set_cut_throat set_posx set_posy set_posz set_dirx set_dirz set_velx set_vely set_velz
receive-KeepsName PlayerVariable.crouch =
    one_value get_bool set_crouch (λ a c. (refl, refl, refl, refl))
receive-KeepsName PlayerVariable.jump =
    one_value get_bool set_jump (λ a c. (refl, refl, refl, refl))
receive-KeepsName PlayerVariable.attack =
    one_value get_bool set_attack (λ a c. (refl, refl, refl, refl))
receive-KeepsName PlayerVariable.grab =
    one_value get_bool set_grab (λ a c. (refl, refl, refl, refl))
receive-KeepsName PlayerVariable.item =
    one_value get_bool set_item (λ a c. (refl, refl, refl, refl))
receive-KeepsName PlayerVariable.drop =
    one_value get_bool set_drop (λ a c. (refl, refl, refl, refl))
receive-KeepsName PlayerVariable.blood_damage =
    one_value get_float set_blood_damage (λ a c. (refl, refl, refl, refl))
receive-KeepsName PlayerVariable.blood_health =
    one_value get_float set_blood_health (λ a c. (refl, refl, refl, refl))
receive-KeepsName PlayerVariable.block_health =
    one_value get_float set_block_health (λ a c. (refl, refl, refl, refl))
receive-KeepsName PlayerVariable.temp_health =
    one_value get_float set_temp_health (λ a c. (refl, refl, refl, refl))
receive-KeepsName PlayerVariable.permanent_health =
    one_value get_float set_permanent_health (λ a c. (refl, refl, refl, refl))
receive-KeepsName PlayerVariable.blood_amount =
    one_value get_float set_blood_amount (λ a c. (refl, refl, refl, refl))
receive-KeepsName PlayerVariable.recovery_time =
    one_value get_float set_recovery_time (λ a c. (refl, refl, refl, refl))
receive-KeepsName PlayerVariable.roll_recovery_time =
    one_value get_float set_roll_recovery_time (λ a c. (refl, refl, refl, refl))
receive-KeepsName PlayerVariable.knocked_out =
    one_value get_int set_knocked_out (λ a c. (refl, refl, refl, refl))
receive-KeepsName PlayerVariable.ragdoll_type =
    one_value get_int set_ragdoll_type (λ a c. (refl, refl, refl, refl))
receive-KeepsName PlayerVariable.blood_delay =
    one_value get_int set_blood_delay (λ a c. (refl, refl, refl, refl))
receive-KeepsName PlayerVariable.state =
    one_value get_int set_state (λ a c. (refl, refl, refl, refl))
receive-KeepsName PlayerVariable.cut_throat =
    one_value get_bool set_cut_throat (λ a c. (refl, refl, refl, refl))
receive-KeepsName PlayerVariable.position_x =
    one_value get_float set_posx (λ a c. (refl, refl, refl, refl))
receive-KeepsName PlayerVariable.position_y =
    one_value get_float set_posy (λ a c. (refl, refl, refl, refl))
receive-KeepsName PlayerVariable.position_z =
    one_value get_float set_posz (λ a c. (refl, refl, refl, refl))
receive-KeepsName PlayerVariable.direction_x =
    one_value get_float set_dirx (λ a c. (refl, refl, refl, refl))
receive-KeepsName PlayerVariable.direction_z =
    one_value get_float set_dirz (λ a c. (refl, refl, refl, refl))
receive-KeepsName PlayerVariable.remove_blood = λ data_ i c. (refl, refl, refl, refl)
receive-KeepsName PlayerVariable.velocity_x =
    one_value get_float set_velx (λ a c. (refl, refl, refl, refl))
receive-KeepsName PlayerVariable.velocity_y =
    one_value get_float set_vely (λ a c. (refl, refl, refl, refl))
receive-KeepsName PlayerVariable.velocity_z =
    one_value get_float set_velz (λ a c. (refl, refl, refl, refl))

receive_char-KeepsName :
    (b : ℕ) (data_ : List ℕ) (i : ℕ) → Ensures KeepsName (receive_char b data_ i)
unfolding receive_char
receive_char-KeepsName b data_ i = elim (Option-cases (variable_of b)) [
  | inl e ↦ rw (e, receive_char) (λ c. (refl, refl, refl, refl))
  | inr (v, e) ↦ rw (e, receive_char) (receive-KeepsName v data_ i)
]

pub Ensures-map :
    {A : Type 0} {P Q : A → Type 0} (r : Result A)
    → ((a : A) → P a → Q a)
    → Ensures P r
    → Ensures Q r
Ensures-map (ok a) f h = f a h
Ensures-map (err e) f h = tt

read_variables-IsSame :
    (fuel size : ℕ) (data_ : List ℕ) (i : ℕ) (c : Client) (hs : List ℕ)
    → Ensures (λ r. IsSame c r.0) (read_variables fuel size data_ i c hs)
read_variables-IsSame zero size data_ i c hs = unfold read_variables in tt
read_variables-IsSame (suc fuel) size data_ i c hs = elim (Bool-cases (ltb i size)) [
  | inr done ↦ rw (read_variables_done fuel size data_ i c hs done) (refl, refl, refl, refl)
  | inl more ↦ elim (Result-cases (get_char data_ i)) [
    | inr (e, bad) ↦ rw (read_variables_no_type fuel size data_ i c hs e more bad) tt
    | inl (got, fine) ↦ elim (Result-cases (receive_char got.0 data_ got.1)) [
      | inr (e, bad) ↦
          rw (read_variables_no_value fuel size data_ i c hs got.0 got.1 e more fine bad) tt
      | inl (val, read) ↦
          rw (read_variables_step fuel size data_ i c hs got.0 got.1 val.0 val.1 more fine read) (
            Ensures-map (read_variables fuel size data_ val.1 (val.0 c) (hs ++ got.0 ∷ []))
              (λ r.
                IsSame-trans c (val.0 c) r.0
                  (subst (Ensures KeepsName) read (receive_char-KeepsName got.0 data_ got.1) c))
              (read_variables-IsSame fuel size data_ val.1 (val.0 c) (hs ++ got.0 ∷ [])))
    ]
  ]
]

pub read_variables-IsSame' :
    (fuel size : ℕ) (data_ : List ℕ) (i : ℕ) (c : Client) (hs : List ℕ) (r : Client × List ℕ)
    → read_variables fuel size data_ i c hs ≡ ok r
    → IsSame c r.0
read_variables-IsSame' fuel size data_ i c hs r e =
    subst (Ensures (λ r. IsSame c r.0)) e (read_variables-IsSame fuel size data_ i c hs)
