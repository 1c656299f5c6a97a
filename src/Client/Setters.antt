-- ===== src/Client/Setters.antt =====
-- The setters of src/client.cpp, the marks that they leave in `variable_states`, and the getters of
-- the exchanged variables. `variable_states` is an `array<bool, 28>`, here a function of the index,
-- which is always an enumerator's value.
use ogmp_server.Base.{ℕ, Bool, true, false, ℤ, ◌==◌, if◌then◌else◌}
use ogmp_server.Text.{Str}
use ogmp_server.Client.Record.{Client, Player}
use ogmp_server.Client.Variables.{PlayerVariable, variable_code, Value, flag, real, whole}

unfoldable pub set_all_variables_old : Client → Client
set_all_variables_old c = record c { variable_states = λ _. false }

unfoldable pub is_variable_new : PlayerVariable → Client → Bool
is_variable_new v c = c.variable_states (variable_code v)

-- `variable_states[v] = true`.
abbrev mark : PlayerVariable → (ℕ → Bool) → ℕ → Bool
mark v states i = if variable_code v == i then true else states i

-- A member that clients exchange, and its mark.
abbrev write_variable : PlayerVariable → Player → Client → Client
write_variable v p c = record c { player = p; variable_states = mark v c.variable_states }

unfoldable pub set_uid : Str → Client → Client
set_uid x c = record c { uid = x }

unfoldable pub set_level_path : Str → Client → Client
set_level_path x c = record c { level_path = x }

unfoldable pub set_level_name : Str → Client → Client
set_level_name x c = record c { level_name = x }

unfoldable pub set_username : Str → Client → Client
set_username x c = record c { username = x }

unfoldable pub set_team : Str → Client → Client
set_team x c = record c { team = x }

unfoldable pub set_last_updated : ℕ → Client → Client
set_last_updated x c = record c { last_updated = x }

unfoldable pub set_character : Str → Client → Client
set_character x c = record c { character = x }

unfoldable pub set_saved_posx : ℕ → Client → Client
set_saved_posx x c = record c { saved_posx = x }

unfoldable pub set_saved_posy : ℕ → Client → Client
set_saved_posy x c = record c { saved_posy = x }

unfoldable pub set_saved_posz : ℕ → Client → Client
set_saved_posz x c = record c { saved_posz = x }

unfoldable pub set_roll : Bool → Client → Client
set_roll x c = record c { isrolling = x }

unfoldable pub set_jumpoffwall : Bool → Client → Client
set_jumpoffwall x c = record c { isjumpingoffwall = x }

unfoldable pub set_activeblock : Bool → Client → Client
set_activeblock x c = record c { isactiveblocking = x }

unfoldable pub set_death_changed : Bool → Client → Client
set_death_changed x c = record c { death_changed = x }

unfoldable pub set_signed_on : Bool → Client → Client
set_signed_on x c = record c { has_signed_on = x }

unfoldable pub set_time_of_death : ℕ → Client → Client
set_time_of_death x c = record c { time_of_death = x }

unfoldable pub set_crouch : Bool → Client → Client
set_crouch x c = write_variable PlayerVariable.crouch (record c.player { iscrouching = x }) c

unfoldable pub set_jump : Bool → Client → Client
set_jump x c = write_variable PlayerVariable.jump (record c.player { isjumping = x }) c

unfoldable pub set_attack : Bool → Client → Client
set_attack x c = write_variable PlayerVariable.attack (record c.player { isattacking = x }) c

unfoldable pub set_grab : Bool → Client → Client
set_grab x c = write_variable PlayerVariable.grab (record c.player { isgrabbing = x }) c

unfoldable pub set_item : Bool → Client → Client
set_item x c = write_variable PlayerVariable.item (record c.player { isusingitem = x }) c

unfoldable pub set_drop : Bool → Client → Client
set_drop x c = write_variable PlayerVariable.drop (record c.player { isdropping = x }) c

unfoldable pub set_blood_damage : ℕ → Client → Client
set_blood_damage x c =
    write_variable PlayerVariable.blood_damage (record c.player { blood_damage = x }) c

unfoldable pub set_blood_health : ℕ → Client → Client
set_blood_health x c =
    write_variable PlayerVariable.blood_health (record c.player { blood_health = x }) c

unfoldable pub set_block_health : ℕ → Client → Client
set_block_health x c =
    write_variable PlayerVariable.block_health (record c.player { block_health = x }) c

unfoldable pub set_temp_health : ℕ → Client → Client
set_temp_health x c =
    write_variable PlayerVariable.temp_health (record c.player { temp_health = x }) c

unfoldable pub set_permanent_health : ℕ → Client → Client
set_permanent_health x c =
    write_variable PlayerVariable.permanent_health (record c.player { permanent_health = x }) c

unfoldable pub set_blood_amount : ℕ → Client → Client
set_blood_amount x c =
    write_variable PlayerVariable.blood_amount (record c.player { blood_amount = x }) c

unfoldable pub set_recovery_time : ℕ → Client → Client
set_recovery_time x c =
    write_variable PlayerVariable.recovery_time (record c.player { recovery_time = x }) c

unfoldable pub set_roll_recovery_time : ℕ → Client → Client
set_roll_recovery_time x c =
    write_variable PlayerVariable.roll_recovery_time (record c.player { roll_recovery_time = x }) c

unfoldable pub set_knocked_out : ℤ → Client → Client
set_knocked_out x c =
    write_variable PlayerVariable.knocked_out (record c.player { knocked_out = x }) c

unfoldable pub set_ragdoll_type : ℤ → Client → Client
set_ragdoll_type x c =
    write_variable PlayerVariable.ragdoll_type (record c.player { ragdoll_type = x }) c

unfoldable pub set_blood_delay : ℤ → Client → Client
set_blood_delay x c =
    write_variable PlayerVariable.blood_delay (record c.player { blood_delay = x }) c

unfoldable pub set_state : ℤ → Client → Client
set_state x c = write_variable PlayerVariable.state (record c.player { state = x }) c

unfoldable pub set_cut_throat : Bool → Client → Client
set_cut_throat x c = write_variable PlayerVariable.cut_throat (record c.player { cut_throat = x }) c

unfoldable pub set_posx : ℕ → Client → Client
set_posx x c = write_variable PlayerVariable.position_x (record c.player { posx = x }) c

unfoldable pub set_posy : ℕ → Client → Client
set_posy x c = write_variable PlayerVariable.position_y (record c.player { posy = x }) c

unfoldable pub set_posz : ℕ → Client → Client
set_posz x c = write_variable PlayerVariable.position_z (record c.player { posz = x }) c

unfoldable pub set_dirx : ℕ → Client → Client
set_dirx x c = write_variable PlayerVariable.direction_x (record c.player { dirx = x }) c

unfoldable pub set_dirz : ℕ → Client → Client
set_dirz x c = write_variable PlayerVariable.direction_z (record c.player { dirz = x }) c

unfoldable pub set_remove_blood : Bool → Client → Client
set_remove_blood x c =
    write_variable PlayerVariable.remove_blood (record c.player { remove_blood = x }) c

unfoldable pub set_velx : ℕ → Client → Client
set_velx x c = write_variable PlayerVariable.velocity_x (record c.player { velx = x }) c

unfoldable pub set_vely : ℕ → Client → Client
set_vely x c = write_variable PlayerVariable.velocity_y (record c.player { vely = x }) c

unfoldable pub set_velz : ℕ → Client → Client
set_velz x c = write_variable PlayerVariable.velocity_z (record c.player { velz = x }) c

-- The getters of the exchanged variables, by the variable.
unfoldable pub get_variable : PlayerVariable → Client → Value
get_variable PlayerVariable.crouch c = flag c.iscrouching
get_variable PlayerVariable.jump c = flag c.isjumping
get_variable PlayerVariable.attack c = flag c.isattacking
get_variable PlayerVariable.grab c = flag c.isgrabbing
get_variable PlayerVariable.item c = flag c.isusingitem
get_variable PlayerVariable.drop c = flag c.isdropping
get_variable PlayerVariable.blood_damage c = real c.blood_damage
get_variable PlayerVariable.blood_health c = real c.blood_health
get_variable PlayerVariable.block_health c = real c.block_health
get_variable PlayerVariable.temp_health c = real c.temp_health
get_variable PlayerVariable.permanent_health c = real c.permanent_health
get_variable PlayerVariable.blood_amount c = real c.blood_amount
get_variable PlayerVariable.recovery_time c = real c.recovery_time
get_variable PlayerVariable.roll_recovery_time c = real c.roll_recovery_time
get_variable PlayerVariable.knocked_out c = whole c.knocked_out
get_variable PlayerVariable.ragdoll_type c = whole c.ragdoll_type
get_variable PlayerVariable.blood_delay c = whole c.blood_delay
get_variable PlayerVariable.state c = whole c.state
get_variable PlayerVariable.cut_throat c = flag c.cut_throat
get_variable PlayerVariable.position_x c = real c.posx
get_variable PlayerVariable.position_y c = real c.posy
get_variable PlayerVariable.position_z c = real c.posz
get_variable PlayerVariable.direction_x c = real c.dirx
get_variable PlayerVariable.direction_z c = real c.dirz
get_variable PlayerVariable.remove_blood c = flag c.remove_blood
get_variable PlayerVariable.velocity_x c = real c.velx
get_variable PlayerVariable.velocity_y c = real c.vely
get_variable PlayerVariable.velocity_z c = real c.velz
