-- ===== src/Client/Untouched.antt =====
-- A setter of src/client.cpp changes the variable that it is named for and no other.
use ogmp_server.Base.{ℕ, ◌≡◌, ◌≢◌, refl, Bool, ℤ}
use ogmp_server.Client.Record.{Client}
use ogmp_server.Client.Variables.{PlayerVariable}
use ogmp_server.Client.Setters.{
  get_variable, set_crouch, set_jump, set_attack, set_grab, set_item, set_drop, set_blood_damage,
  set_blood_health, set_block_health, set_temp_health, set_permanent_health, set_blood_amount,
  set_recovery_time, set_roll_recovery_time, set_knocked_out, set_ragdoll_type, set_blood_delay,
  set_state, set_cut_throat, set_posx, set_posy, set_posz, set_dirx, set_dirz, set_velx, set_vely,
  set_velz,
}

-- The change leaves every variable but one as it is.
abbrev pub KeepsOthers : PlayerVariable → (Client → Client) → Type 0
KeepsOthers v f =
    (u : PlayerVariable) → u ≢ v → (c : Client) → get_variable u (f c) ≡ get_variable u c

pub set_crouch-KeepsOthers : (x : Bool) → KeepsOthers PlayerVariable.crouch (set_crouch x)
unfolding set_crouch get_variable
set_crouch-KeepsOthers x PlayerVariable.crouch n c = absurd (n refl)
set_crouch-KeepsOthers x _ n c = refl

pub set_jump-KeepsOthers : (x : Bool) → KeepsOthers PlayerVariable.jump (set_jump x)
unfolding set_jump get_variable
set_jump-KeepsOthers x PlayerVariable.jump n c = absurd (n refl)
set_jump-KeepsOthers x _ n c = refl

pub set_attack-KeepsOthers : (x : Bool) → KeepsOthers PlayerVariable.attack (set_attack x)
unfolding set_attack get_variable
set_attack-KeepsOthers x PlayerVariable.attack n c = absurd (n refl)
set_attack-KeepsOthers x _ n c = refl

pub set_grab-KeepsOthers : (x : Bool) → KeepsOthers PlayerVariable.grab (set_grab x)
unfolding set_grab get_variable
set_grab-KeepsOthers x PlayerVariable.grab n c = absurd (n refl)
set_grab-KeepsOthers x _ n c = refl

pub set_item-KeepsOthers : (x : Bool) → KeepsOthers PlayerVariable.item (set_item x)
unfolding set_item get_variable
set_item-KeepsOthers x PlayerVariable.item n c = absurd (n refl)
set_item-KeepsOthers x _ n c = refl

pub set_drop-KeepsOthers : (x : Bool) → KeepsOthers PlayerVariable.drop (set_drop x)
unfolding set_drop get_variable
set_drop-KeepsOthers x PlayerVariable.drop n c = absurd (n refl)
set_drop-KeepsOthers x _ n c = refl

pub set_blood_damage-KeepsOthers :
    (x : ℕ) → KeepsOthers PlayerVariable.blood_damage (set_blood_damage x)
unfolding set_blood_damage get_variable
set_blood_damage-KeepsOthers x PlayerVariable.blood_damage n c = absurd (n refl)
set_blood_damage-KeepsOthers x _ n c = refl

pub set_blood_health-KeepsOthers :
    (x : ℕ) → KeepsOthers PlayerVariable.blood_health (set_blood_health x)
unfolding set_blood_health get_variable
set_blood_health-KeepsOthers x PlayerVariable.blood_health n c = absurd (n refl)
set_blood_health-KeepsOthers x _ n c = refl

pub set_block_health-KeepsOthers :
    (x : ℕ) → KeepsOthers PlayerVariable.block_health (set_block_health x)
unfolding set_block_health get_variable
set_block_health-KeepsOthers x PlayerVariable.block_health n c = absurd (n refl)
set_block_health-KeepsOthers x _ n c = refl

pub set_temp_health-KeepsOthers :
    (x : ℕ) → KeepsOthers PlayerVariable.temp_health (set_temp_health x)
unfolding set_temp_health get_variable
set_temp_health-KeepsOthers x PlayerVariable.temp_health n c = absurd (n refl)
set_temp_health-KeepsOthers x _ n c = refl

pub set_permanent_health-KeepsOthers :
    (x : ℕ) → KeepsOthers PlayerVariable.permanent_health (set_permanent_health x)
unfolding set_permanent_health get_variable
set_permanent_health-KeepsOthers x PlayerVariable.permanent_health n c = absurd (n refl)
set_permanent_health-KeepsOthers x _ n c = refl

pub set_blood_amount-KeepsOthers :
    (x : ℕ) → KeepsOthers PlayerVariable.blood_amount (set_blood_amount x)
unfolding set_blood_amount get_variable
set_blood_amount-KeepsOthers x PlayerVariable.blood_amount n c = absurd (n refl)
set_blood_amount-KeepsOthers x _ n c = refl

pub set_recovery_time-KeepsOthers :
    (x : ℕ) → KeepsOthers PlayerVariable.recovery_time (set_recovery_time x)
unfolding set_recovery_time get_variable
set_recovery_time-KeepsOthers x PlayerVariable.recovery_time n c = absurd (n refl)
set_recovery_time-KeepsOthers x _ n c = refl

pub set_roll_recovery_time-KeepsOthers :
    (x : ℕ) → KeepsOthers PlayerVariable.roll_recovery_time (set_roll_recovery_time x)
unfolding set_roll_recovery_time get_variable
set_roll_recovery_time-KeepsOthers x PlayerVariable.roll_recovery_time n c = absurd (n refl)
set_roll_recovery_time-KeepsOthers x _ n c = refl

pub set_knocked_out-KeepsOthers :
    (x : ℤ) → KeepsOthers PlayerVariable.knocked_out (set_knocked_out x)
unfolding set_knocked_out get_variable
set_knocked_out-KeepsOthers x PlayerVariable.knocked_out n c = absurd (n refl)
set_knocked_out-KeepsOthers x _ n c = refl

pub set_ragdoll_type-KeepsOthers :
    (x : ℤ) → KeepsOthers PlayerVariable.ragdoll_type (set_ragdoll_type x)
unfolding set_ragdoll_type get_variable
set_ragdoll_type-KeepsOthers x PlayerVariable.ragdoll_type n c = absurd (n refl)
set_ragdoll_type-KeepsOthers x _ n c = refl

pub set_blood_delay-KeepsOthers :
    (x : ℤ) → KeepsOthers PlayerVariable.blood_delay (set_blood_delay x)
unfolding set_blood_delay get_variable
set_blood_delay-KeepsOthers x PlayerVariable.blood_delay n c = absurd (n refl)
set_blood_delay-KeepsOthers x _ n c = refl

pub set_state-KeepsOthers : (x : ℤ) → KeepsOthers PlayerVariable.state (set_state x)
unfolding set_state get_variable
set_state-KeepsOthers x PlayerVariable.state n c = absurd (n refl)
set_state-KeepsOthers x _ n c = refl

pub set_cut_throat-KeepsOthers :
    (x : Bool) → KeepsOthers PlayerVariable.cut_throat (set_cut_throat x)
unfolding set_cut_throat get_variable
set_cut_throat-KeepsOthers x PlayerVariable.cut_throat n c = absurd (n refl)
set_cut_throat-KeepsOthers x _ n c = refl

pub set_posx-KeepsOthers : (x : ℕ) → KeepsOthers PlayerVariable.position_x (set_posx x)
unfolding set_posx get_variable
set_posx-KeepsOthers x PlayerVariable.position_x n c = absurd (n refl)
set_posx-KeepsOthers x _ n c = refl

pub set_posy-KeepsOthers : (x : ℕ) → KeepsOthers PlayerVariable.position_y (set_posy x)
unfolding set_posy get_variable
set_posy-KeepsOthers x PlayerVariable.position_y n c = absurd (n refl)
set_posy-KeepsOthers x _ n c = refl

pub set_posz-KeepsOthers : (x : ℕ) → KeepsOthers PlayerVariable.position_z (set_posz x)
unfolding set_posz get_variable
set_posz-KeepsOthers x PlayerVariable.position_z n c = absurd (n refl)
set_posz-KeepsOthers x _ n c = refl

pub set_dirx-KeepsOthers : (x : ℕ) → KeepsOthers PlayerVariable.direction_x (set_dirx x)
unfolding set_dirx get_variable
set_dirx-KeepsOthers x PlayerVariable.direction_x n c = absurd (n refl)
set_dirx-KeepsOthers x _ n c = refl

pub set_dirz-KeepsOthers : (x : ℕ) → KeepsOthers PlayerVariable.direction_z (set_dirz x)
unfolding set_dirz get_variable
set_dirz-KeepsOthers x PlayerVariable.direction_z n c = absurd (n refl)
set_dirz-KeepsOthers x _ n c = refl

pub set_velx-KeepsOthers : (x : ℕ) → KeepsOthers PlayerVariable.velocity_x (set_velx x)
unfolding set_velx get_variable
set_velx-KeepsOthers x PlayerVariable.velocity_x n c = absurd (n refl)
set_velx-KeepsOthers x _ n c = refl

pub set_vely-KeepsOthers : (x : ℕ) → KeepsOthers PlayerVariable.velocity_y (set_vely x)
unfolding set_vely get_variable
set_vely-KeepsOthers x PlayerVariable.velocity_y n c = absurd (n refl)
set_vely-KeepsOthers x _ n c = refl

pub set_velz-KeepsOthers : (x : ℕ) → KeepsOthers PlayerVariable.velocity_z (set_velz x)
unfolding set_velz get_variable
set_velz-KeepsOthers x PlayerVariable.velocity_z n c = absurd (n refl)
set_velz-KeepsOthers x _ n c = refl
