-- ===== src/Examples/Players.antt =====
-- What the three players get of one another.
use ogmp_server.Base.{
  ℕ, ltb, ◌-◌, ◌≡◌, refl, [], ◌∷◌, none, some, arith, false, true, if◌then◌else◌, ◌&&◌,
}
use ogmp_server.Text.{Str, codes, str_eq}
use ogmp_server.StringMap.{StringMap, find}
use ogmp_server.Client.{Client, new_client}
use ogmp_server.Client.Queues
use ogmp_server.Manager.{
  Server, Doubles, pop_inactive_clients, write, add_to_inbox, is_recipient, broadcast,
}
use ogmp_server.Manager.Broadcast.{listed}
use ogmp_server.Manager.Invariant.{add_to_inbox_lem, add_to_inbox_twice, IsServer, write-IsServer}
use ogmp_server.Handler.Session.{Session, server_message, on_client, on_server}
use ogmp_server.Client.Setters.{set_time_of_death, set_death_changed}
use ogmp_server.Handler.SignOn.{
  SignOnData, sign_on, announce, is_taken, is_invalid, is_forbidden, spawn_reply, entered,
}
use ogmp_server.Handler.Accepted.{IsRefusal, sign_on_refused, sign_on_entry}
use ogmp_server.Handler.Farewell.{announce_lem, client_disconnected_lem}
use ogmp_server.Handler.Messages.{client_disconnected, left, remove_character_reply}
use ogmp_server.Handler.Update.Life.{is_dead, le_zero, check_life, died, announce_death}
use ogmp_server.Handler.Update.Death.{death_announced_once, buried}
use ogmp_server.Examples.{config, server, server-IsServer, of_player}

-- ann's message reaches bob and nobody else.
add_to_inbox_lem_example : (add_to_inbox (7 ∷ []) (some 0) server).heap 1 ≡ (
    if listed 1 server.clients && is_recipient server.heap (some 0) 1
    then Queues.add_to_inbox (7 ∷ []) (server.heap 1)
    else server.heap 1)
add_to_inbox_lem_example = add_to_inbox_lem (7 ∷ []) (some 0) server 1 server-IsServer

ann_reaches_bob : (listed 1 server.clients && is_recipient server.heap (some 0) 1) ≡ true
unfolding listed is_recipient str_eq
ann_reaches_bob = refl

ann_reaches_not_cat : (listed 2 server.clients && is_recipient server.heap (some 0) 2) ≡ false
unfolding listed is_recipient str_eq
ann_reaches_not_cat = refl

two_messages : (add_to_inbox (8 ∷ []) (some 0) (add_to_inbox (7 ∷ []) (some 0) server)).heap 1 ≡ (
    if listed 1 server.clients && is_recipient server.heap (some 0) 1
    then Queues.add_to_inbox (8 ∷ []) (Queues.add_to_inbox (7 ∷ []) (server.heap 1))
    else server.heap 1)
two_messages = add_to_inbox_twice (7 ∷ []) (8 ∷ []) 0 1 server server-IsServer

-- dan signs on with ann's name taken, and with his own.
abbrev dan : Str → SignOnData
dan username = record {
  username = username;
  character = codes "c.xml";
  levelname = codes "A level";
  levelpath = codes "a.xml";
  version = codes "1";
  posx = 0;
  posy = 0;
  posz = 0;
}

sign_on_refused_example :
    IsRefusal (of_player none) (sign_on config (dan (codes "ann")) 3 (of_player none))
unfolding is_invalid is_forbidden is_taken str_eq
sign_on_refused_example = sign_on_refused config (dan (codes "ann")) 3 (of_player none) refl

sign_on_entry_example :
    find (codes "dan") (sign_on config (dan (codes "dan")) 3 (of_player none)).clients ≡ some 3
unfolding is_invalid is_forbidden is_taken str_eq
sign_on_entry_example =
    sign_on_entry config (dan (codes "dan")) 3 (of_player none) (codes "dan") refl refl refl

announce_lem_example : (announce 0 (of_player (some 0))).heap 1 ≡ (
    if listed 1 server.clients && is_recipient server.heap (some 0) 1
    then Queues.add_to_inbox
        (spawn_reply (server.heap 0).username (server.heap 0).team (server.heap 0))
        (Queues.add_to_inbox (server_message (entered (server.heap 0).username)) (server.heap 1))
    else server.heap 1)
announce_lem_example = announce_lem 0 1 (of_player (some 0)) server-IsServer

client_disconnected_lem_example :
    ((client_disconnected (of_player (some 0))).heap 1 ≡ (
      if listed 1 server.clients && is_recipient server.heap (some 0) 1
      then Queues.add_to_inbox
          (remove_character_reply (server.heap 0).username)
          (Queues.add_to_inbox (server_message (left (server.heap 0).username)) (server.heap 1))
      else server.heap 1))
    × ((client_disconnected (of_player (some 0))).clients ≡ [])
client_disconnected_lem_example =
    client_disconnected_lem 0 1 (of_player (some 0)) server-IsServer refl

-- ann, dead.
abbrev dead_ann : Client
dead_ann = record (server.heap 0) { player = record (server.heap 0).player { blood_health = 0 } }

abbrev with_dead : Session
with_dead = record {
  server = record server { heap = write 0 dead_ann server.heap };
  this_client = some 0;
  rep = [];
}

with_dead-IsServer : IsServer with_dead.server
with_dead-IsServer = write-IsServer 0 dead_ann server refl server-IsServer

death_announced_once_example :
    ((check_life 100 0 with_dead).heap 0 ≡ buried 100 (with_dead.heap 0))
    × ((check_life 100 0 with_dead).heap 1 ≡ (
        if listed 1 with_dead.clients && is_recipient with_dead.heap (some 0) 1
        then Queues.add_to_inbox
            (server_message (died (with_dead.heap 0).username))
            (with_dead.heap 1)
        else with_dead.heap 1))
    × (check_life 105 0 (check_life 100 0 with_dead) ≡ check_life 100 0 with_dead)
unfolding is_dead le_zero new_client check_life announce_death on_client Queues.add_to_inbox
    on_server add_to_inbox broadcast is_recipient str_eq set_time_of_death set_death_changed
death_announced_once_example =
    death_announced_once 100 105 0 1 with_dead (check_life 100 0 with_dead) with_dead-IsServer
      (λ e. omega (arith, e)) refl refl (omega arith) refl refl refl

-- Doubles that count from zero, and stop there.
abbrev whole_doubles : Doubles
whole_doubles = record { less = ltb; minus = λ a b. a - b; difftime = λ a b. a - b }

abbrev swept : StringMap ℕ × Server
swept = pop_inactive_clients whole_doubles config 100 0 (some 0) server
