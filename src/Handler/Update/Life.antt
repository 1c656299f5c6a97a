-- ===== src/Handler/Update/Life.antt =====
-- The death and the revival of a player in `HandleUpdate` of src/request_handler.cpp.
use ogmp_server.Base.{
  ℕ, ◌+◌, ◌/◌, ◌%◌, ◌^◌, Bool, true, false, ◌&&◌, ◌||◌, not, ◌++◌, some, int_eq, ltb, leb, ◌==◌,
  if◌then◌else◌,
}
use ogmp_server.Text.{Str, codes}
use ogmp_server.Client.{Client, one, ten, awake}
use ogmp_server.Client.Setters.{
  set_blood_health, set_permanent_health, set_blood_damage, set_block_health, set_temp_health,
  set_knocked_out, set_blood_amount, set_recovery_time, set_roll_recovery_time, set_remove_blood,
  set_cut_throat, set_death_changed, set_time_of_death,
}
use ogmp_server.Client.Queues
use ogmp_server.Manager.{add_to_inbox}
use ogmp_server.Handler.Session.{Session, on_client, on_server, server_message}
use ogmp_server.Handler.Update.Send.{add_update_self}

-- `f <= 0.0f` for the float with the bits `f`: it is no NaN, and negative or a zero.
unfoldable pub le_zero : ℕ → Bool
le_zero f = leb (f % 2 ^ 31) 0x7f80_0000 && (f / 2 ^ 31 == 1 || f % 2 ^ 31 == 0)

unfoldable pub is_dead : Client → Bool
is_dead c =
    le_zero c.permanent_health
    || (le_zero c.blood_health || (le_zero c.temp_health || not (int_eq c.knocked_out awake)))

-- `difftime(time(0), time_of_death) > 5`.
unfoldable pub is_over : ℕ → Client → Bool
is_over now c = ltb (c.time_of_death + 5) now

unfoldable pub revived : Client → Client
revived c = set_cut_throat false (
    set_remove_blood true (
      set_roll_recovery_time 0 (
        set_recovery_time 0 (
          set_blood_amount ten (
            set_knocked_out awake (
              set_temp_health one (
                set_block_health one
                  (set_blood_damage 0 (set_permanent_health one (set_blood_health one c))))))))))

unfoldable pub died : Str → Str
died username = username ++ codes " has died."

unfoldable pub announce_death : ℕ → ℕ → Session → Session
announce_death now p s =
    let s1 = on_client p (λ c. set_time_of_death now (set_death_changed true c)) s in
    let message = server_message (died (s1.heap p).username) in
    on_client p (Queues.add_to_inbox message) (on_server (add_to_inbox message (some p)) s1)

unfoldable pub revive : ℕ → Session → Session
revive p s = on_client p (set_remove_blood false) (add_update_self p (on_client p revived s))

unfoldable pub check_life : ℕ → ℕ → Session → Session
check_life now p s =
    if is_dead (s.heap p)
    then if not (s.heap p).death_changed
      then announce_death now p s
      else if is_over now (s.heap p)
      then revive p s
      else s
    else on_client p (set_death_changed false) s
