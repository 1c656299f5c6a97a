-- ===== src/Manager.antt =====
-- src/client_manager.cpp: the players who are signed on, by name. A `client_ptr` is the number of a
-- cell of the heap, `none` for the empty one; a connection and the map share a client by sharing
-- the number. The mutex that each method takes is not modelled: one method runs at a time.
pub mod Broadcast
pub mod Others
pub mod Invariant
pub mod Inactive
pub mod Levels
use ogmp_server.Base.{
  ℕ, zero, suc, ◌+◌, ◌<◌, Bool, true, false, ◌&&◌, ◌||◌, not, List, [], ◌∷◌, ◌++◌, Option, none,
  some, length, ltb, ◌==◌, if◌then◌else◌,
}
use ogmp_server.Text.{Str, str_eq, c_str}
use ogmp_server.StringMap.{StringMap, find, insert, erase}
use ogmp_server.Reply.{Reply, add_string, add_int}
use ogmp_server.Client.{Client}
use ogmp_server.Client.Queues
use ogmp_server.Config.{Config}

abbrev pub Heap : Type 0
Heap = ℕ → Client

-- A client in the place of what the cell held.
abbrev pub write : ℕ → Client → Heap → Heap
write p c heap q = if p == q then c else heap q

-- What the handler and its `client_manager` share: the clients, the cell that the next
-- `make_shared` takes, `clients_`, and the lines handed to `log::print`.
pub record Server : Type 0 where
  pub heap : Heap
  pub next : ℕ
  pub clients : StringMap ℕ
  pub log : List Str

unfoldable pub add_client : ℕ → Server → Server
add_client player s = record s { clients = insert (s.heap player).username player s.clients }

-- The loop's tests: neither the initiator nor a client on another level; without an initiator all.
unfoldable pub is_recipient : Heap → Option ℕ → ℕ → Bool
is_recipient heap none p = true
is_recipient heap (some initiator) p =
    not (p == initiator) && str_eq (heap p).level_path (heap initiator).level_path

-- The loop that `add_command` and `add_to_inbox` have in common.
unfoldable pub broadcast : (Client → Client) → Option ℕ → StringMap ℕ → Heap → Heap
broadcast f initiator [] heap = heap
broadcast f initiator ((k, p) ∷ items) heap =
    broadcast f initiator items
      (if is_recipient heap initiator p then write p (f (heap p)) heap else heap)

unfoldable pub add_command : StringMap Str → Option ℕ → Server → Server
add_command command initiator s = record s {
  heap = broadcast (Queues.add_command command) initiator s.clients s.heap;
}

unfoldable pub get_nr_players : Server → ℕ
get_nr_players s = length s.clients

unfoldable pub add_to_inbox : Reply → Option ℕ → Server → Server
add_to_inbox command initiator s = record s {
  heap = broadcast (Queues.add_to_inbox command) initiator s.clients s.heap;
}

-- The items that the loop of `remove_client` collects.
unfoldable pub removed : Option ℕ → StringMap ℕ → StringMap ℕ
removed initiator [] = []
removed none (item ∷ items) = removed none items
removed (some p) (item ∷ items) = item ∷ removed (some p) items

unfoldable pub erase_all : StringMap ℕ → StringMap ℕ → StringMap ℕ
erase_all [] clients = clients
erase_all ((k, p) ∷ items) clients = erase_all items (erase k clients)

unfoldable pub remove_client : Option ℕ → Server → Server
remove_client initiator s = record s { clients = erase_all (removed initiator s.clients) s.clients }

unfoldable pub get_client : Str → Server → Option ℕ
get_client uid s = find uid s.clients

-- The entries that the loop of `get_clients` copies, in their order.
unfoldable pub others : Heap → Client → StringMap ℕ → StringMap ℕ
others heap initiator [] = []
others heap initiator ((k, p) ∷ items) =
    let rest = others heap initiator items in
    if str_eq (heap p).username initiator.username
    then rest
    else if str_eq (heap p).level_path initiator.level_path
    then (k, p) ∷ rest
    else rest

unfoldable pub get_clients : Option ℕ → Server → StringMap ℕ
get_clients none s = s.clients
get_clients (some initiator) s = others s.heap (s.heap initiator) s.clients

-- `initiator && item.second->get_username() == initiator->get_username()`.
unfoldable pub is_initiator : Heap → Option ℕ → ℕ → Bool
is_initiator heap none p = false
is_initiator heap (some i) p = str_eq (heap p).username (heap i).username

-- The machine's doubles, each the number of its 64 bits: `a < b`, `a - b`, and the library's difftime.
pub record Doubles : Type 0 where
  pub less : ℕ → ℕ → Bool
  pub minus : ℕ → ℕ → ℕ
  pub difftime : ℕ → ℕ → ℕ

-- `last_updated < difftime(time(0), start) - remove_delay`.
unfoldable pub is_inactive : Doubles → Config → ℕ → ℕ → Client → Bool
is_inactive doubles config now start c =
    doubles.less c.last_updated (doubles.minus (doubles.difftime now start) config.remove_delay)

unfoldable pub inactive : Doubles → Config → ℕ → ℕ → Option ℕ → Heap → StringMap ℕ → StringMap ℕ
inactive doubles config now start initiator heap [] = []
inactive doubles config now start initiator heap ((k, p) ∷ items) =
    let rest = inactive doubles config now start initiator heap items in
    if is_initiator heap initiator p
    then rest
    else if is_inactive doubles config now start (heap p)
    then (k, p) ∷ rest
    else rest

unfoldable pub pop_inactive_clients :
    Doubles → Config → ℕ → ℕ → Option ℕ → Server → StringMap ℕ × Server
pop_inactive_clients doubles config now start initiator s =
    let gone = inactive doubles config now start initiator s.heap s.clients in
    (gone, record s { clients = erase_all gone s.clients })

unfoldable pub list_players : Heap → Str → StringMap ℕ → Reply → Reply
list_players heap level [] rep = rep
list_players heap level ((k, p) ∷ items) rep = list_players heap level items (
    if str_eq (heap p).level_path level
    then add_string (heap p).character (add_string (heap p).username rep)
    else rep)

unfoldable pub get_player_list : Option ℕ → Server → Reply → Reply
get_player_list none s rep = rep
get_player_list (some initiator) s rep =
    list_players s.heap (s.heap initiator).level_path s.clients rep
