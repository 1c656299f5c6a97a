-- ===== src/Handler/Update/Bounds.antt =====
-- The reading loop of `HandleUpdate` ends, and stays within the buffer when the message ends four
-- bytes in front of the buffer's end.
use ogmp_server.Base.{
  ℕ, zero, suc, ◌+◌, ◌<◌, ◌≤◌, ◌≡◌, refl, ◌∙◌, List, [], ◌∷◌, ◌++◌, none, ok, err, Returns, arith,
  length, ltb, ltb→lt, Bool-cases, Option-cases, inl, inr, drop, ◌≢◌, All, Returns-ok, lt→ltb,
  out_of_bounds,
}
use ogmp_server.Input.{Read, ◌>>=◌, pure, get_char, get_bool, get_float, get_int}
use ogmp_server.Input.Bounds.{
  ReadsAtMost, ReadsAtMost-bind, ReadsAtMost-pure, get_char-ReadsAtMost, get_bool-ReadsAtMost,
  get_float-ReadsAtMost, get_int-ReadsAtMost,
}
use ogmp_server.Input.RoundTrip.{get_char-drop}
use ogmp_server.Client.{Client}
use ogmp_server.Client.Variables.{PlayerVariable, variable_of, variable_code, variable_of-code}
use ogmp_server.Handler.Update.Steps.{
  read_variables_done, read_variables_no_value, read_variables_step,
}
use ogmp_server.Handler.Update.Read.{receive, receive_char, read_variables}

-- A value of `k` bytes, at most four, and its setter.
one_value :
    {A : Type 0} (k : ℕ) (m : Read A) (set : A → Client → Client)
    → k ≤ 4
    → ReadsAtMost (λ _. Unit) k m
    → ReadsAtMost (λ _. Unit) 4 (m >>= λ x. pure (set x))
one_value k m set le r =
    ReadsAtMost-bind k 0 4 m _ (omega arith) r λ x _. ReadsAtMost-pure (set x) tt

no_value : ReadsAtMost (λ _. Unit) 4 (pure {A = Client → Client} (λ c. c))
no_value = record { at = λ data_ i h. (tt, omega arith, omega arith) }

receive-ReadsAtMost : (v : PlayerVariable) → ReadsAtMost (λ _. Unit) 4 (receive v)
unfolding receive
receive-ReadsAtMost PlayerVariable.crouch =
    one_value 1 get_bool _ (omega arith) get_bool-ReadsAtMost
receive-ReadsAtMost PlayerVariable.jump = one_value 1 get_bool _ (omega arith) get_bool-ReadsAtMost
receive-ReadsAtMost PlayerVariable.attack =
    one_value 1 get_bool _ (omega arith) get_bool-ReadsAtMost
receive-ReadsAtMost PlayerVariable.grab = one_value 1 get_bool _ (omega arith) get_bool-ReadsAtMost
receive-ReadsAtMost PlayerVariable.item = one_value 1 get_bool _ (omega arith) get_bool-ReadsAtMost
receive-ReadsAtMost PlayerVariable.drop = one_value 1 get_bool _ (omega arith) get_bool-ReadsAtMost
receive-ReadsAtMost PlayerVariable.blood_damage =
    one_value 4 get_float _ (omega arith) get_float-ReadsAtMost
receive-ReadsAtMost PlayerVariable.blood_health =
    one_value 4 get_float _ (omega arith) get_float-ReadsAtMost
receive-ReadsAtMost PlayerVariable.block_health =
    one_value 4 get_float _ (omega arith) get_float-ReadsAtMost
receive-ReadsAtMost PlayerVariable.temp_health =
    one_value 4 get_float _ (omega arith) get_float-ReadsAtMost
receive-ReadsAtMost PlayerVariable.permanent_health =
    one_value 4 get_float _ (omega arith) get_float-ReadsAtMost
receive-ReadsAtMost PlayerVariable.blood_amount =
    one_value 4 get_float _ (omega arith) get_float-ReadsAtMost
receive-ReadsAtMost PlayerVariable.recovery_time =
    one_value 4 get_float _ (omega arith) get_float-ReadsAtMost
receive-ReadsAtMost PlayerVariable.roll_recovery_time =
    one_value 4 get_float _ (omega arith) get_float-ReadsAtMost
receive-ReadsAtMost PlayerVariable.knocked_out =
    one_value 1 get_int _ (omega arith) get_int-ReadsAtMost
receive-ReadsAtMost PlayerVariable.ragdoll_type =
    one_value 1 get_int _ (omega arith) get_int-ReadsAtMost
receive-ReadsAtMost PlayerVariable.blood_delay =
    one_value 1 get_int _ (omega arith) get_int-ReadsAtMost
receive-ReadsAtMost PlayerVariable.state = one_value 1 get_int _ (omega arith) get_int-ReadsAtMost
receive-ReadsAtMost PlayerVariable.cut_throat =
    one_value 1 get_bool _ (omega arith) get_bool-ReadsAtMost
receive-ReadsAtMost PlayerVariable.position_x =
    one_value 4 get_float _ (omega arith) get_float-ReadsAtMost
receive-ReadsAtMost PlayerVariable.position_y =
    one_value 4 get_float _ (omega arith) get_float-ReadsAtMost
receive-ReadsAtMost PlayerVariable.position_z =
    one_value 4 get_float _ (omega arith) get_float-ReadsAtMost
receive-ReadsAtMost PlayerVariable.direction_x =
    one_value 4 get_float _ (omega arith) get_float-ReadsAtMost
receive-ReadsAtMost PlayerVariable.direction_z =
    one_value 4 get_float _ (omega arith) get_float-ReadsAtMost
receive-ReadsAtMost PlayerVariable.remove_blood = no_value
receive-ReadsAtMost PlayerVariable.velocity_x =
    one_value 4 get_float _ (omega arith) get_float-ReadsAtMost
receive-ReadsAtMost PlayerVariable.velocity_y =
    one_value 4 get_float _ (omega arith) get_float-ReadsAtMost
receive-ReadsAtMost PlayerVariable.velocity_z =
    one_value 4 get_float _ (omega arith) get_float-ReadsAtMost

receive_char-ReadsAtMost : (b : ℕ) → ReadsAtMost (λ _. Unit) 4 (receive_char b)
unfolding receive_char
receive_char-ReadsAtMost b = elim (Option-cases (variable_of b)) [
  | inl e ↦ rw (e, receive_char) no_value
  | inr (v, e) ↦ rw (e, receive_char) (receive-ReadsAtMost v)
]

-- A type that is read moves the index on.
get_char-step : (data_ : List ℕ) (i b j : ℕ) → get_char data_ i ≡ ok (b, j) → j ≡ i + 1
unfolding get_char
get_char-step data_ i b j e = ground arith

-- With a message that ends four bytes in front of the buffer's end, the loop reads within the
-- buffer, and a round for each byte is enough.
pub read_variables-Returns :
    (fuel size : ℕ) (data_ : List ℕ) (i : ℕ) (c : Client) (new_history : List ℕ)
    → size + 4 ≤ length data_
    → 0 < fuel
    → size < fuel + i
    → Returns (λ _. Unit) (read_variables fuel size data_ i c new_history)
read_variables-Returns zero size data_ i c hs fits h enough = absurd (omega arith)
read_variables-Returns (suc fuel) size data_ i c hs fits h enough = elim (Bool-cases (ltb i size)) [
  | inr done ↦ rw (read_variables_done fuel size data_ i c hs done) tt
  | inl more ↦
      let lt = ltb→lt i size more in
      let got = Returns-ok (get_char data_ i) (get_char-ReadsAtMost.at data_ i (omega arith)) in
      let val =
        Returns-ok (receive_char got.0.0 data_ got.0.1)
          ((receive_char-ReadsAtMost got.0.0).at data_ got.0.1 (omega (arith, got.2.2))) in
      rw
        (read_variables_step fuel size data_ i c hs got.0.0 got.0.1 val.0.0 val.0.1 more got.1
          val.1)
        (read_variables-Returns fuel size data_ val.0.1 (val.0.0 c) (hs ++ got.0.0 ∷ []) fits
          (omega (arith, lt)) (omega (arith, get_char-step data_ i got.0.0 got.0.1 got.1, val.2.1)))
]

-- Behind the last byte.
get_char_end : (data_ : List ℕ) (i : ℕ) → drop i data_ ≡ [] → get_char data_ i ≡ err out_of_bounds
unfolding get_char
get_char_end [] i h = refl
get_char_end (x ∷ xs) zero h = cc
get_char_end (x ∷ xs) (suc i) h = ground (arith, get_char_end xs i h)

receive_char-code :
    (v : PlayerVariable) (data_ : List ℕ) (i : ℕ)
    → receive_char (variable_code v) data_ i ≡ receive v data_ i
unfolding receive_char
receive_char-code v data_ i = rw (variable_of-code v, receive_char)

receive_char_unknown :
    (b : ℕ) (data_ : List ℕ) (i : ℕ)
    → variable_of b ≡ none
    → receive_char b data_ i ≡ ok ((λ c. c), i)
unfolding receive_char
receive_char_unknown b data_ i e = rw (e, receive_char)

value_end :
    {A : Type 0} (m : Read A) (set : A → Client → Client) (data_ : List ℕ) (i : ℕ)
    → m data_ i ≡ err out_of_bounds
    → (m >>= λ x. pure (set x)) data_ i ≡ err out_of_bounds
value_end m set data_ i e = rw (e, ◌>>=◌)

module _ (data_ : List ℕ) (i : ℕ) (e : get_char data_ i ≡ err out_of_bounds) where
  get_bool_end : get_bool data_ i ≡ err out_of_bounds
  unfolding get_bool
  get_bool_end = ground arith

  get_int_end : get_int data_ i ≡ err out_of_bounds
  unfolding get_int
  get_int_end = ground arith

  get_float_end : get_float data_ i ≡ err out_of_bounds
  unfolding get_float
  get_float_end = ground arith

-- Every variable but `remove_blood` wants a value behind its type.
receive_end :
    (v : PlayerVariable) (data_ : List ℕ) (i : ℕ)
    → v ≢ PlayerVariable.remove_blood
    → get_char data_ i ≡ err out_of_bounds
    → receive v data_ i ≡ err out_of_bounds
unfolding receive
receive_end PlayerVariable.crouch data_ i n e =
    value_end get_bool _ data_ i (get_bool_end data_ i e)
receive_end PlayerVariable.jump data_ i n e = value_end get_bool _ data_ i (get_bool_end data_ i e)
receive_end PlayerVariable.attack data_ i n e =
    value_end get_bool _ data_ i (get_bool_end data_ i e)
receive_end PlayerVariable.grab data_ i n e = value_end get_bool _ data_ i (get_bool_end data_ i e)
receive_end PlayerVariable.item data_ i n e = value_end get_bool _ data_ i (get_bool_end data_ i e)
receive_end PlayerVariable.drop data_ i n e = value_end get_bool _ data_ i (get_bool_end data_ i e)
receive_end PlayerVariable.blood_damage data_ i n e =
    value_end get_float _ data_ i (get_float_end data_ i e)
receive_end PlayerVariable.blood_health data_ i n e =
    value_end get_float _ data_ i (get_float_end data_ i e)
receive_end PlayerVariable.block_health data_ i n e =
    value_end get_float _ data_ i (get_float_end data_ i e)
receive_end PlayerVariable.temp_health data_ i n e =
    value_end get_float _ data_ i (get_float_end data_ i e)
receive_end PlayerVariable.permanent_health data_ i n e =
    value_end get_float _ data_ i (get_float_end data_ i e)
receive_end PlayerVariable.blood_amount data_ i n e =
    value_end get_float _ data_ i (get_float_end data_ i e)
receive_end PlayerVariable.recovery_time data_ i n e =
    value_end get_float _ data_ i (get_float_end data_ i e)
receive_end PlayerVariable.roll_recovery_time data_ i n e =
    value_end get_float _ data_ i (get_float_end data_ i e)
receive_end PlayerVariable.knocked_out data_ i n e =
    value_end get_int _ data_ i (get_int_end data_ i e)
receive_end PlayerVariable.ragdoll_type data_ i n e =
    value_end get_int _ data_ i (get_int_end data_ i e)
receive_end PlayerVariable.blood_delay data_ i n e =
    value_end get_int _ data_ i (get_int_end data_ i e)
receive_end PlayerVariable.state data_ i n e = value_end get_int _ data_ i (get_int_end data_ i e)
receive_end PlayerVariable.cut_throat data_ i n e =
    value_end get_bool _ data_ i (get_bool_end data_ i e)
receive_end PlayerVariable.position_x data_ i n e =
    value_end get_float _ data_ i (get_float_end data_ i e)
receive_end PlayerVariable.position_y data_ i n e =
    value_end get_float _ data_ i (get_float_end data_ i e)
receive_end PlayerVariable.position_z data_ i n e =
    value_end get_float _ data_ i (get_float_end data_ i e)
receive_end PlayerVariable.direction_x data_ i n e =
    value_end get_float _ data_ i (get_float_end data_ i e)
receive_end PlayerVariable.direction_z data_ i n e =
    value_end get_float _ data_ i (get_float_end data_ i e)
receive_end PlayerVariable.remove_blood data_ i n e = absurd (n refl)
receive_end PlayerVariable.velocity_x data_ i n e =
    value_end get_float _ data_ i (get_float_end data_ i e)
receive_end PlayerVariable.velocity_y data_ i n e =
    value_end get_float _ data_ i (get_float_end data_ i e)
receive_end PlayerVariable.velocity_z data_ i n e =
    value_end get_float _ data_ i (get_float_end data_ i e)

-- Chars that are no variable's type are passed, and the type in the buffer's last byte is read; its
-- value would stand behind the buffer.
pub read_variables_overrun :
    (fuel size : ℕ) (data_ : List ℕ) (i : ℕ) (c : Client) (new_history junk : List ℕ)
    (v : PlayerVariable)
    → drop i data_ ≡ junk ++ variable_code v ∷ []
    → All (λ b. variable_of b ≡ none) junk
    → v ≢ PlayerVariable.remove_blood
    → i + length junk < size
    → length junk < fuel
    → read_variables fuel size data_ i c new_history ≡ err out_of_bounds
read_variables_overrun zero size data_ i c hs junk v d a n lt enough = absurd (omega arith)
read_variables_overrun (suc fuel) size data_ i c hs [] v d a n lt enough =
    let got = get_char-drop data_ i (variable_code v) [] d in
    read_variables_no_value fuel size data_ i c hs (variable_code v) (i + 1) out_of_bounds
      (lt→ltb i size (omega arith)) got.0
      (receive_char-code v data_ (i + 1)
        ∙ receive_end v data_ (i + 1) n (get_char_end data_ (i + 1) got.1))
read_variables_overrun (suc fuel) size data_ i c hs (b ∷ junk) v d a n lt enough =
    let got = get_char-drop data_ i b (junk ++ variable_code v ∷ []) d in
    read_variables_step fuel size data_ i c hs b (i + 1) (λ c. c) (i + 1)
      (lt→ltb i size (omega arith)) got.0 (receive_char_unknown b data_ (i + 1) a.0)
    ∙ read_variables_overrun fuel size data_ (i + 1) c (hs ++ b ∷ []) junk v got.1 a.1 n
        (omega arith) (omega arith)
