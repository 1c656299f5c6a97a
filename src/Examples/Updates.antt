-- ===== src/Examples/Updates.antt =====
-- bob's updates, as ann gets them.
use ogmp_server.Base.{ℕ, ◌≡◌, refl, List, [], ◌∷◌, ◌++◌, some, true, pos, arith}
use ogmp_server.Text.{codes, str_eq}
use ogmp_server.StringMap.{find}
use ogmp_server.Client.{Client}
use ogmp_server.Client.Setters.{set_attack, set_all_variables_old}
use ogmp_server.Client.History.{UpdateHistory, elem, get_key, set_key}
use ogmp_server.Client.History.Cycle.{IsHistory}
use ogmp_server.Client.History.Missing.{IsDistinct, sent}
use ogmp_server.Manager.{write}
use ogmp_server.Handler.Session.{Session}
use ogmp_server.Handler.Update.{finish_update}
use ogmp_server.Handler.Update.Values.{about, body}
use ogmp_server.Handler.Update.Send.{send_update}
use ogmp_server.Handler.Update.Relay.{IsUpToDate}
use ogmp_server.Handler.Update.Delivery.{send_update_missed}
use ogmp_server.Examples.{server, three}

-- The updates after the one that ann knows, which is number 0.
abbrev bobs_news : List UpdateHistory
bobs_news = (2, 7 ∷ 8 ∷ []) ∷ (1, 5 ∷ 7 ∷ []) ∷ []

abbrev ann : Client
ann = record (three 0) { keys = (codes "bob", pos 0) ∷ [] }

abbrev bob : Client
bob = record (three 1) { client_update_history = bobs_news ++ (0, 3 ∷ []) ∷ []; history_index = 3 }

abbrev of_ann : Session
of_ann = record {
  server = record server { heap = write 0 ann (write 1 bob three) };
  this_client = some 0;
  rep = [];
}

bob-IsHistory : IsHistory (of_ann.heap 1)
bob-IsHistory = record {
  index = omega arith;
  size = omega arith;
  chain = (refl, (refl, (refl, tt)));
}

send_update_missed_example :
    (types : List ℕ) × ((send_update 0 1 of_ann).rep
      ≡ (about (of_ann.heap 1).username ++ body types (of_ann.heap 1)) ∷ [])
    × ((u : ℕ) → elem u types ≡ sent u bobs_news)
    × IsDistinct types
    × IsUpToDate 0 1 (send_update 0 1 of_ann)
unfolding get_key find str_eq elem sent
send_update_missed_example =
    send_update_missed 0 1 of_ann 0 7 bobs_news (3 ∷ []) [] bob-IsHistory refl refl refl

-- bob attacks, when ann's copy of bob is right.
abbrev bob_before : Client
bob_before = record (three 1) { client_update_history = (0, 3 ∷ []) ∷ []; history_index = 1 }

abbrev attacking : Client
attacking = set_attack true (set_all_variables_old bob_before)

abbrev attack : List ℕ
attack = 5 ∷ 2 ∷ 1 ∷ []

abbrev of_bob : Session
of_bob = record {
  server = record server { heap = write 1 bob_before three };
  this_client = some 1;
  rep = [];
}

abbrev attacked : Session
attacked = finish_update 9 1 attacking (2 ∷ []) of_bob

-- ann knew update number 0.
abbrev knowing : Session
knowing = record {
  server = record server {
    heap =
        write 0 (set_key (attacked.heap 1).username (pos 0) (three 0))
          (write 1 (attacked.heap 1) three);
  };
  this_client = some 0;
  rep = [];
}
