-- ===== src/Client/History.antt =====
-- The update history of src/client.cpp: the last ten updates of a player, newest first, each under
-- an index that counts from 0 to 10 and starts again, and the variables that a reader of an older
-- index has missed. A variable type is kept as the char that `HandleUpdate` pushed.
pub mod Cycle
pub mod Missing
pub mod Keys
pub mod Lag
use ogmp_server.Base.{
  ℕ, zero, suc, ◌+◌, ◌<◌, Bool, true, false, ◌&&◌, List, [], ◌∷◌, ◌++◌, Option, none, some, ℤ, pos,
  negsuc, int_eq, length, ltb, ◌==◌, if◌then◌else◌,
}
use ogmp_server.Text.{Str, str_eq}
use ogmp_server.StringMap.{StringMap, find, insert}
use ogmp_server.Client.Record.{Client}

abbrev pub UpdateHistory : Type 0
UpdateHistory = ℕ × List ℕ

abbrev pub max_history : ℕ
max_history = 10

-- `vector::pop_back`.
unfoldable pub pop_back {ℓ} : {A : Type ℓ} → List A → List A
pop_back [] = []
pop_back (x ∷ []) = []
pop_back (x ∷ y ∷ xs) = x ∷ pop_back (y ∷ xs)

unfoldable pub add_history : List ℕ → Client → Client
add_history new_history c =
    let history = (c.history_index, new_history) ∷ c.client_update_history in
    let index = c.history_index + 1 in
    record c {
      history_index = if ltb max_history index then 0 else index;
      client_update_history =
          if ltb max_history (length history) then pop_back history else history;
    }

unfoldable pub last_key : List UpdateHistory → ℤ
last_key [] = negsuc 0
last_key (h ∷ hs) = pos h.0

unfoldable pub get_last_update_key : Client → ℤ
get_last_update_key c = last_key c.client_update_history

or_minus_one : Option ℤ → ℤ
or_minus_one none = negsuc 0
or_minus_one (some k) = k

unfoldable pub get_key : Str → Client → ℤ
unfolding or_minus_one
get_key username c = or_minus_one (find username c.keys)

unfoldable pub set_key : Str → ℤ → Client → Client
set_key username value c = record c { keys = insert username value c.keys }

-- `find` over a vector of types.
unfoldable pub elem : ℕ → List ℕ → Bool
elem t [] = false
elem t (u ∷ us) = let rest = elem t us in if u == t then true else rest

-- The types of one entry that are not there yet, added at the end.
unfoldable pub add_types : List ℕ → List ℕ → List ℕ
add_types types [] = types
add_types types (t ∷ ts) = add_types (if elem t types then types else types ++ t ∷ []) ts

-- The entries from the oldest to the newest.
unfoldable pub collect : List ℕ → List UpdateHistory → List ℕ
collect types [] = types
collect types (h ∷ hs) = collect (add_types types h.1) hs

unfoldable pub update_eq : UpdateHistory → UpdateHistory → Bool
update_eq g h = (g.0 == h.0) && str_eq g.1 h.1

-- The loop over the entries, where `newer` holds those that it has passed, the last one first.
unfoldable pub scan : ℤ → UpdateHistory → List UpdateHistory → List UpdateHistory → List ℕ
scan key front newer [] = []
scan key front newer (h ∷ hs) =
    let rest = scan key front (h ∷ newer) hs in
    if int_eq (pos h.0) key then if update_eq h front then [] else collect [] newer else rest

unfoldable pub missing : ℤ → List UpdateHistory → List ℕ
missing key [] = []
missing key (h ∷ hs) = scan key h [] (h ∷ hs)

unfoldable pub get_missing_update_variable_types : ℤ → Client → List ℕ
get_missing_update_variable_types last_update_key c =
    missing last_update_key c.client_update_history
