-- ===== src/Client/Variables.antt =====
-- `player_variable_type` of include/shared.hpp: the 28 variables of a player that clients exchange,
-- and the values that they hold.
use mathlib.Core.Option.{some-injective}
use ogmp_server.Base.{
  ℕ, zero, suc, ◌+◌, ◌<◌, ◌≡◌, refl, ◌∙◌, ap, sym, Bool, List, [], ◌∷◌, Option, some, get_elem?, ℤ,
  arith,
}
use ogmp_server.Reply.{Reply, add_bool, add_float, add_int}

pub data PlayerVariable : Type 0 where
  crouch jump attack grab item drop blood_damage : PlayerVariable
  blood_health block_health temp_health permanent_health blood_amount recovery_time
        roll_recovery_time :
      PlayerVariable
  knocked_out ragdoll_type blood_delay state cut_throat position_x position_y : PlayerVariable
  position_z direction_x direction_z remove_blood velocity_x velocity_y velocity_z : PlayerVariable

-- The enumerator's value.
abbrev pub variable_code : PlayerVariable → ℕ
variable_code crouch = 0
variable_code jump = 1
variable_code attack = 2
variable_code grab = 3
variable_code item = 4
variable_code drop = 5
variable_code blood_damage = 6
variable_code blood_health = 7
variable_code block_health = 8
variable_code temp_health = 9
variable_code permanent_health = 10
variable_code blood_amount = 11
variable_code recovery_time = 12
variable_code roll_recovery_time = 13
variable_code knocked_out = 14
variable_code ragdoll_type = 15
variable_code blood_delay = 16
variable_code state = 17
variable_code cut_throat = 18
variable_code position_x = 19
variable_code position_y = 20
variable_code position_z = 21
variable_code direction_x = 22
variable_code direction_z = 23
variable_code remove_blood = 24
variable_code velocity_x = 25
variable_code velocity_y = 26
variable_code velocity_z = 27

-- The enumerators in the order of their values.
abbrev variable_table : List PlayerVariable
variable_table =
    crouch ∷ jump ∷ attack ∷ grab ∷ item ∷ drop ∷ blood_damage ∷ blood_health ∷ block_health
    ∷ temp_health ∷ permanent_health ∷ blood_amount ∷ recovery_time ∷ roll_recovery_time
    ∷ knocked_out ∷ ragdoll_type ∷ blood_delay ∷ state ∷ cut_throat ∷ position_x ∷ position_y
    ∷ position_z ∷ direction_x ∷ direction_z ∷ remove_blood ∷ velocity_x ∷ velocity_y ∷ velocity_z
    ∷ []

-- `(player_variable_type)c`; `none` for a char that is the value of no enumerator, on which every
-- `switch` takes its default.
unfoldable pub variable_of : ℕ → Option PlayerVariable
variable_of b = get_elem? variable_table b

pub variable_of-code : (v : PlayerVariable) → variable_of (variable_code v) ≡ some v
unfolding variable_of
variable_of-code crouch = refl
variable_of-code jump = refl
variable_of-code attack = refl
variable_of-code grab = refl
variable_of-code item = refl
variable_of-code drop = refl
variable_of-code blood_damage = refl
variable_of-code blood_health = refl
variable_of-code block_health = refl
variable_of-code temp_health = refl
variable_of-code permanent_health = refl
variable_of-code blood_amount = refl
variable_of-code recovery_time = refl
variable_of-code roll_recovery_time = refl
variable_of-code knocked_out = refl
variable_of-code ragdoll_type = refl
variable_of-code blood_delay = refl
variable_of-code state = refl
variable_of-code cut_throat = refl
variable_of-code position_x = refl
variable_of-code position_y = refl
variable_of-code position_z = refl
variable_of-code direction_x = refl
variable_of-code direction_z = refl
variable_of-code remove_blood = refl
variable_of-code velocity_x = refl
variable_of-code velocity_y = refl
variable_of-code velocity_z = refl

pub variable_code-lt : (v : PlayerVariable) → variable_code v < 28
variable_code-lt crouch = omega arith
variable_code-lt jump = omega arith
variable_code-lt attack = omega arith
variable_code-lt grab = omega arith
variable_code-lt item = omega arith
variable_code-lt drop = omega arith
variable_code-lt blood_damage = omega arith
variable_code-lt blood_health = omega arith
variable_code-lt block_health = omega arith
variable_code-lt temp_health = omega arith
variable_code-lt permanent_health = omega arith
variable_code-lt blood_amount = omega arith
variable_code-lt recovery_time = omega arith
variable_code-lt roll_recovery_time = omega arith
variable_code-lt knocked_out = omega arith
variable_code-lt ragdoll_type = omega arith
variable_code-lt blood_delay = omega arith
variable_code-lt state = omega arith
variable_code-lt cut_throat = omega arith
variable_code-lt position_x = omega arith
variable_code-lt position_y = omega arith
variable_code-lt position_z = omega arith
variable_code-lt direction_x = omega arith
variable_code-lt direction_z = omega arith
variable_code-lt remove_blood = omega arith
variable_code-lt velocity_x = omega arith
variable_code-lt velocity_y = omega arith
variable_code-lt velocity_z = omega arith

-- What a variable holds: a bool, a float as its bit pattern, or an int.
pub data Value : Type 0 where
  flag : Bool → Value
  real : ℕ → Value
  whole : ℤ → Value

-- The overload of `add_to_buffers` that the value's type selects.
unfoldable pub add_value : Value → Reply → Reply
add_value (flag b) = add_bool b
add_value (real f) = add_float f
add_value (whole n) = add_int n

IsNumbered : ℕ → List PlayerVariable → Type 0
IsNumbered k [] = Unit
IsNumbered k (v ∷ vs) = (variable_code v ≡ k) × IsNumbered (k + 1) vs

numbered :
    (k : ℕ) (vs : List PlayerVariable) (n : ℕ) (v : PlayerVariable)
    → IsNumbered k vs
    → get_elem? vs n ≡ some v
    → variable_code v ≡ k + n
unfolding IsNumbered
numbered k [] n v h e = ground arith
numbered k (w ∷ ws) zero v h e = ap variable_code (sym (some-injective w v e)) ∙ omega (arith, h.0)
numbered k (w ∷ ws) (suc n) v h e = omega (arith, numbered (k + 1) ws n v h.1 e)

pub variable_of_lem : (b : ℕ) (v : PlayerVariable) → variable_of b ≡ some v → variable_code v ≡ b
unfolding variable_of
variable_of_lem b v e = omega (arith, numbered 0 variable_table b v table_IsNumbered e)
  where
    table_IsNumbered : IsNumbered 0 variable_table
    table_IsNumbered = unfold IsNumbered in search
