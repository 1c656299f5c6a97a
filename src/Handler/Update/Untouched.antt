-- ===== src/Handler/Update/Untouched.antt =====
-- An update changes the variables whose types `HandleUpdate` of src/request_handler.cpp records for
-- the history, and no others.
use ogmp_server.Base.{
  ℕ, zero, suc, ◌≡◌, ◌≢◌, refl, ◌∙◌, sym, ap, subst, List, [], ◌∷◌, ◌++◌, append_assoc, append-nil,
  some, Result, ok, err, Ensures, ltb, false, arith, ◌==◌, Bool-cases, Option-cases, Result-cases,
  inl, inr,
}
use ogmp_server.Input.{Read, ◌>>=◌, pure, get_char, get_bool, get_float, get_int}
use ogmp_server.Client.{Client}
use ogmp_server.Client.Variables.{PlayerVariable, variable_of, variable_of_lem}
use ogmp_server.Client.Setters.{
  set_crouch, set_jump, set_attack, set_grab, set_item, set_drop, set_blood_damage,
  set_blood_health, set_block_health, set_temp_health, set_permanent_health, set_blood_amount,
  set_recovery_time, set_roll_recovery_time, set_knocked_out, set_ragdoll_type, set_blood_delay,
  set_state, set_cut_throat, set_posx, set_posy, set_posz, set_dirx, set_dirz, set_velx, set_vely,
  set_velz,
}
use ogmp_server.Client.Untouched.{
  KeepsOthers, set_crouch-KeepsOthers, set_jump-KeepsOthers, set_attack-KeepsOthers,
  set_grab-KeepsOthers, set_item-KeepsOthers, set_drop-KeepsOthers, set_blood_damage-KeepsOthers,
  set_blood_health-KeepsOthers, set_block_health-KeepsOthers, set_temp_health-KeepsOthers,
  set_permanent_health-KeepsOthers, set_blood_amount-KeepsOthers, set_recovery_time-KeepsOthers,
  set_roll_recovery_time-KeepsOthers, set_knocked_out-KeepsOthers, set_ragdoll_type-KeepsOthers,
  set_blood_delay-KeepsOthers, set_state-KeepsOthers, set_cut_throat-KeepsOthers,
  set_posx-KeepsOthers, set_posy-KeepsOthers, set_posz-KeepsOthers, set_dirx-KeepsOthers,
  set_dirz-KeepsOthers, set_velx-KeepsOthers, set_vely-KeepsOthers, set_velz-KeepsOthers,
}
use ogmp_server.Client.History.{elem}
use ogmp_server.Handler.Update.Values.{value_of, sent_bytes}
use ogmp_server.Handler.Update.Steps.{
  read_variables_done, read_variables_no_type, read_variables_no_value, read_variables_step,
}
use ogmp_server.Handler.Update.Keeps.{Ensures-map}
use ogmp_server.Handler.Update.Read.{receive, receive_char, read_variables}

one_value :
    {A : Type 0} (v : PlayerVariable) (m : Read A) (set : A → Client → Client)
    → ((a : A) → KeepsOthers v (set a))
    → (data_ : List ℕ) (i : ℕ)
    → Ensures (λ r. KeepsOthers v r.0) ((m >>= λ x. pure (set x)) data_ i)
one_value {A} v m set keeps data_ i = go (m data_ i)
  where
    go :
        (r : Result (A × ℕ))
        → Ensures
            (λ r. KeepsOthers v r.0)
            (elim r [ err e ↦ err e | ok (a, j) ↦ pure (set a) data_ j ])
    go (ok (a, j)) = keeps a
    go (err e) = tt

receive-KeepsOthers :
    (v : PlayerVariable) (data_ : List ℕ) (i : ℕ)
    → Ensures (λ r. KeepsOthers v r.0) (receive v data_ i)
unfolding receive
receive-KeepsOthers PlayerVariable.crouch =
    one_value PlayerVariable.crouch get_bool set_crouch set_crouch-KeepsOthers
receive-KeepsOthers PlayerVariable.jump =
    one_value PlayerVariable.jump get_bool set_jump set_jump-KeepsOthers
receive-KeepsOthers PlayerVariable.attack =
    one_value PlayerVariable.attack get_bool set_attack set_attack-KeepsOthers
receive-KeepsOthers PlayerVariable.grab =
    one_value PlayerVariable.grab get_bool set_grab set_grab-KeepsOthers
receive-KeepsOthers PlayerVariable.item =
    one_value PlayerVariable.item get_bool set_item set_item-KeepsOthers
receive-KeepsOthers PlayerVariable.drop =
    one_value PlayerVariable.drop get_bool set_drop set_drop-KeepsOthers
receive-KeepsOthers PlayerVariable.blood_damage =
    one_value PlayerVariable.blood_damage get_float set_blood_damage set_blood_damage-KeepsOthers
receive-KeepsOthers PlayerVariable.blood_health =
    one_value PlayerVariable.blood_health get_float set_blood_health set_blood_health-KeepsOthers
receive-KeepsOthers PlayerVariable.block_health =
    one_value PlayerVariable.block_health get_float set_block_health set_block_health-KeepsOthers
receive-KeepsOthers PlayerVariable.temp_health =
    one_value PlayerVariable.temp_health get_float set_temp_health set_temp_health-KeepsOthers
receive-KeepsOthers PlayerVariable.permanent_health =
    one_value PlayerVariable.permanent_health get_float set_permanent_health
      set_permanent_health-KeepsOthers
receive-KeepsOthers PlayerVariable.blood_amount =
    one_value PlayerVariable.blood_amount get_float set_blood_amount set_blood_amount-KeepsOthers
receive-KeepsOthers PlayerVariable.recovery_time =
    one_value PlayerVariable.recovery_time get_float set_recovery_time set_recovery_time-KeepsOthers
receive-KeepsOthers PlayerVariable.roll_recovery_time =
    one_value PlayerVariable.roll_recovery_time get_float set_roll_recovery_time
      set_roll_recovery_time-KeepsOthers
receive-KeepsOthers PlayerVariable.knocked_out =
    one_value PlayerVariable.knocked_out get_int set_knocked_out set_knocked_out-KeepsOthers
receive-KeepsOthers PlayerVariable.ragdoll_type =
    one_value PlayerVariable.ragdoll_type get_int set_ragdoll_type set_ragdoll_type-KeepsOthers
receive-KeepsOthers PlayerVariable.blood_delay =
    one_value PlayerVariable.blood_delay get_int set_blood_delay set_blood_delay-KeepsOthers
receive-KeepsOthers PlayerVariable.state =
    one_value PlayerVariable.state get_int set_state set_state-KeepsOthers
receive-KeepsOthers PlayerVariable.cut_throat =
    one_value PlayerVariable.cut_throat get_bool set_cut_throat set_cut_throat-KeepsOthers
receive-KeepsOthers PlayerVariable.position_x =
    one_value PlayerVariable.position_x get_float set_posx set_posx-KeepsOthers
receive-KeepsOthers PlayerVariable.position_y =
    one_value PlayerVariable.position_y get_float set_posy set_posy-KeepsOthers
receive-KeepsOthers PlayerVariable.position_z =
    one_value PlayerVariable.position_z get_float set_posz set_posz-KeepsOthers
receive-KeepsOthers PlayerVariable.direction_x =
    one_value PlayerVariable.direction_x get_float set_dirx set_dirx-KeepsOthers
receive-KeepsOthers PlayerVariable.direction_z =
    one_value PlayerVariable.direction_z get_float set_dirz set_dirz-KeepsOthers
receive-KeepsOthers PlayerVariable.remove_blood = λ data_ i u n c. refl
receive-KeepsOthers PlayerVariable.velocity_x =
    one_value PlayerVariable.velocity_x get_float set_velx set_velx-KeepsOthers
receive-KeepsOthers PlayerVariable.velocity_y =
    one_value PlayerVariable.velocity_y get_float set_vely set_vely-KeepsOthers
receive-KeepsOthers PlayerVariable.velocity_z =
    one_value PlayerVariable.velocity_z get_float set_velz set_velz-KeepsOthers

-- The change leaves what is sent of every type but one as it is.
abbrev KeepsValues : ℕ → (Client → Client) → Type 0
KeepsValues b f = (u : ℕ) → (b == u) ≡ false → (c : Client) → value_of u (f c) ≡ value_of u c

KeepsOthers→KeepsValues :
    (b : ℕ) (v : PlayerVariable) (f : Client → Client)
    → variable_of b ≡ some v
    → KeepsOthers v f
    → KeepsValues b f
unfolding value_of variable_of
KeepsOthers→KeepsValues b v f e k u n c = elim (Option-cases (variable_of u)) [
  | inl g ↦ rw g refl
  | inr (w, g) ↦ rw g (ap (sent_bytes w) (k w (λ same. apart w g same) c))
]
  where
    apart : (w : PlayerVariable) → variable_of u ≡ some w → w ≢ v
    apart w g same = ground (arith, variable_of_lem b v e, variable_of_lem u w g, same)

receive_char-KeepsValues :
    (b : ℕ) (data_ : List ℕ) (i : ℕ) → Ensures (λ r. KeepsValues b r.0) (receive_char b data_ i)
unfolding receive_char
receive_char-KeepsValues b data_ i = elim (Option-cases (variable_of b)) [
  | inl e ↦ rw (e, receive_char) (λ u n c. refl)
  | inr (v, e) ↦
      rw (e, receive_char)
        (Ensures-map (receive v data_ i) (λ r. KeepsOthers→KeepsValues b v r.0 e)
          (receive-KeepsOthers v data_ i))
]

-- The values of the types that are not among those recorded are as they were.
abbrev pub IsUntouched : List ℕ → Client → Client → Type 0
IsUntouched ts c d = (u : ℕ) → elem u ts ≡ false → value_of u d ≡ value_of u c

-- The types that a read adds are those whose values it changes.
Reads : Client → List ℕ → Client × List ℕ → Type 0
Reads c hs r = (ts : List ℕ) × (r.1 ≡ hs ++ ts) × IsUntouched ts c r.0

Reads-step :
    (c : Client) (hs : List ℕ) (b : ℕ) (f : Client → Client) (r : Client × List ℕ)
    → KeepsValues b f
    → Reads (f c) (hs ++ b ∷ []) r
    → Reads c hs r
unfolding Reads elem
Reads-step c hs b f r k (ts, e, same) =
    (b ∷ ts, e ∙ append_assoc hs (b ∷ []) ts, λ u n. same u (ground arith) ∙ k u (ground arith) c)

read_variables-Reads :
    (fuel size : ℕ) (data_ : List ℕ) (i : ℕ) (c : Client) (hs : List ℕ)
    → Ensures (Reads c hs) (read_variables fuel size data_ i c hs)
read_variables-Reads zero size data_ i c hs = unfold read_variables in tt
read_variables-Reads (suc fuel) size data_ i c hs = elim (Bool-cases (ltb i size)) [
  | inr done ↦
      rw (read_variables_done fuel size data_ i c hs done)
        (unfold Reads in ([], sym (append-nil hs), λ u n. refl))
  | inl more ↦ elim (Result-cases (get_char data_ i)) [
    | inr (e, bad) ↦ rw (read_variables_no_type fuel size data_ i c hs e more bad) tt
    | inl (got, fine) ↦ elim (Result-cases (receive_char got.0 data_ got.1)) [
      | inr (e, bad) ↦
          rw (read_variables_no_value fuel size data_ i c hs got.0 got.1 e more fine bad) tt
      | inl (val, read) ↦
          rw (read_variables_step fuel size data_ i c hs got.0 got.1 val.0 val.1 more fine read) (
            Ensures-map (read_variables fuel size data_ val.1 (val.0 c) (hs ++ got.0 ∷ []))
              (λ r. Reads-step c hs got.0 val.0 r (
                subst (Ensures (λ k. KeepsValues got.0 k.0)) read
                  (receive_char-KeepsValues got.0 data_ got.1)))
              (read_variables-Reads fuel size data_ val.1 (val.0 c) (hs ++ got.0 ∷ [])))
    ]
  ]
]

-- A value whose type is not among those that an update's reading records is as it was.
pub read_variables-IsUntouched :
    (fuel size : ℕ) (data_ : List ℕ) (i : ℕ) (c d : Client) (ts : List ℕ)
    → read_variables fuel size data_ i c [] ≡ ok (d, ts)
    → IsUntouched ts c d
unfolding Reads
read_variables-IsUntouched fuel size data_ i c d ts e =
    let (us, same, keeps) =
      subst (Ensures (Reads c [])) e (read_variables-Reads fuel size data_ i c []) in
    subst (λ x. IsUntouched x c d) (sym same) keeps
