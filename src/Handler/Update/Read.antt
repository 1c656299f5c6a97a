-- ===== src/Handler/Update/Read.antt =====
-- The loop of `HandleUpdate` of src/request_handler.cpp that reads a player's new variables.
use ogmp_server.Base.{
  ℕ, zero, suc, List, [], ◌∷◌, ◌++◌, none, some, Result, ok, err, out_of_fuel, ltb, true, false,
}
use ogmp_server.Input.{Read, ◌>>=◌, pure, get_char, get_bool, get_float, get_int}
use ogmp_server.Client.{Client}
use ogmp_server.Client.Variables.{PlayerVariable, variable_of}
use ogmp_server.Client.Setters.{
  set_crouch, set_jump, set_attack, set_grab, set_item, set_drop, set_blood_damage,
  set_blood_health, set_block_health, set_temp_health, set_permanent_health, set_blood_amount,
  set_recovery_time, set_roll_recovery_time, set_knocked_out, set_ragdoll_type, set_blood_delay,
  set_state, set_cut_throat, set_posx, set_posy, set_posz, set_dirx, set_dirz, set_velx, set_vely,
  set_velz,
}

-- The cases of the `switch`: how the value is read and which setter takes it. `remove_blood` has no
-- case and falls to the default, which reads nothing.
unfoldable pub receive : PlayerVariable → Read (Client → Client)
receive PlayerVariable.crouch = do x ← get_bool; pure (set_crouch x)
receive PlayerVariable.jump = do x ← get_bool; pure (set_jump x)
receive PlayerVariable.attack = do x ← get_bool; pure (set_attack x)
receive PlayerVariable.grab = do x ← get_bool; pure (set_grab x)
receive PlayerVariable.item = do x ← get_bool; pure (set_item x)
receive PlayerVariable.drop = do x ← get_bool; pure (set_drop x)
receive PlayerVariable.blood_damage = do x ← get_float; pure (set_blood_damage x)
receive PlayerVariable.blood_health = do x ← get_float; pure (set_blood_health x)
receive PlayerVariable.block_health = do x ← get_float; pure (set_block_health x)
receive PlayerVariable.temp_health = do x ← get_float; pure (set_temp_health x)
receive PlayerVariable.permanent_health = do x ← get_float; pure (set_permanent_health x)
receive PlayerVariable.blood_amount = do x ← get_float; pure (set_blood_amount x)
receive PlayerVariable.recovery_time = do x ← get_float; pure (set_recovery_time x)
receive PlayerVariable.roll_recovery_time = do x ← get_float; pure (set_roll_recovery_time x)
receive PlayerVariable.knocked_out = do x ← get_int; pure (set_knocked_out x)
receive PlayerVariable.ragdoll_type = do x ← get_int; pure (set_ragdoll_type x)
receive PlayerVariable.blood_delay = do x ← get_int; pure (set_blood_delay x)
receive PlayerVariable.state = do x ← get_int; pure (set_state x)
receive PlayerVariable.cut_throat = do x ← get_bool; pure (set_cut_throat x)
receive PlayerVariable.position_x = do x ← get_float; pure (set_posx x)
receive PlayerVariable.position_y = do x ← get_float; pure (set_posy x)
receive PlayerVariable.position_z = do x ← get_float; pure (set_posz x)
receive PlayerVariable.direction_x = do x ← get_float; pure (set_dirx x)
receive PlayerVariable.direction_z = do x ← get_float; pure (set_dirz x)
receive PlayerVariable.remove_blood = pure (λ c. c)
receive PlayerVariable.velocity_x = do x ← get_float; pure (set_velx x)
receive PlayerVariable.velocity_y = do x ← get_float; pure (set_vely x)
receive PlayerVariable.velocity_z = do x ← get_float; pure (set_velz x)

-- The `switch` on a char, which need not be the value of an enumerator.
unfoldable pub receive_char : ℕ → Read (Client → Client)
receive_char b = elim (variable_of b) [ none ↦ pure (λ c. c) | some v ↦ receive v ]

-- `while(data_index < size)`: the client with its new variables, and the types that were read. Each
-- round reads a char at least, so that `size` rounds are enough.
unfoldable pub read_variables : ℕ → ℕ → List ℕ → ℕ → Client → List ℕ → Result (Client × List ℕ)
read_variables zero size data_ data_index c new_history = err out_of_fuel
read_variables (suc fuel) size data_ data_index c new_history = elim (ltb data_index size) [
  | false ↦ ok (c, new_history)
  | true ↦ elim (get_char data_ data_index) [
    | err e ↦ err e
    | ok (b, i) ↦ elim (receive_char b data_ i) [
      | err e ↦ err e
      | ok (f, j) ↦ read_variables fuel size data_ j (f c) (new_history ++ b ∷ [])
    ]
  ]
]
