-- ===== src/Handler/SignOn.antt =====
-- `HandleSignOn` of src/request_handler.cpp.
use ogmp_server.Base.{
  ℕ, Bool, true, false, ◌||◌, ◌&&◌, not, List, [], ◌∷◌, ◌++◌, none, some, Result, ok, err, length,
  ltb, if◌then◌else◌,
}
use ogmp_server.Text.{Str, codes, str_eq, c_str}
use ogmp_server.StringMap.{StringMap}
use ogmp_server.Reply.{Reply, MessageType, add_message_type, add_string, add_float}
use ogmp_server.Input.{Read, ◌>>=◌, pure, get_string, get_float}
use ogmp_server.Client.{Client, Uninitialised}
use ogmp_server.Client.Setters.{
  set_level_name, set_level_path, set_username, set_team, set_posx, set_posy, set_posz,
  set_saved_posx, set_saved_posy, set_saved_posz, set_character, set_signed_on,
}
use ogmp_server.Config.{Config}
use ogmp_server.Manager.{Heap, add_client, add_to_inbox, get_clients}
use ogmp_server.Handler.Session.{
  Session, push_reply, on_server, on_client, print, make_client, add_error_message, server_message,
}

-- What a sign-on message holds.
pub record SignOnData : Type 0 where
  pub username : Str
  pub character : Str
  pub levelname : Str
  pub levelpath : Str
  pub version : Str
  pub posx : ℕ
  pub posy : ℕ
  pub posz : ℕ

unfoldable pub read_sign_on : Read SignOnData
read_sign_on = do
  username ← get_string
  character ← get_string
  levelname ← get_string
  levelpath ← get_string
  version ← get_string
  posx ← get_float
  posy ← get_float
  posz ← get_float
  pure (record {
    username = username;
    character = character;
    levelname = levelname;
    levelpath = levelpath;
    version = version;
    posx = posx;
    posy = posy;
    posz = posz;
  })

-- The name that the settings have for a level's path, or the name that the client sent.
unfoldable pub default_name : List (Str × Str) → Str → Str → Str
default_name [] levelpath levelname = levelname
default_name ((name, path) ∷ maps) levelpath levelname =
    let rest = default_name maps levelpath levelname in
    if str_eq levelpath (c_str path) then c_str name else rest

unfoldable pub is_allowed : List (Str × Str) → Str → Bool
is_allowed [] levelpath = false
is_allowed ((name, path) ∷ maps) levelpath = str_eq levelpath path || is_allowed maps levelpath

unfoldable pub is_taken : Heap → Str → StringMap ℕ → Bool
is_taken heap username [] = false
is_taken heap username ((k, p) ∷ items) =
    str_eq (heap p).username username || is_taken heap username items

-- The setters of a successful sign-on, in the source's order.
unfoldable pub fill_client : SignOnData → Str → Client → Client
fill_client d levelname c = set_signed_on true (
    set_character d.character (
      set_saved_posz d.posz (
        set_saved_posy d.posy (
          set_saved_posx d.posx (
            set_posz d.posz (
              set_posy d.posy (
                set_posx d.posx (
                  set_team d.username (
                    set_username d.username
                      (set_level_path d.levelpath (set_level_name levelname c)))))))))))

unfoldable pub sign_on_reply : Config → Client → Reply
sign_on_reply config c = add_string c.level_name (
    add_string c.character (
      add_string c.team (
        add_string config.welcome_message (
          add_string c.username
            (add_float config.update_refresh_rate (add_message_type MessageType.sign_on []))))))

-- The message that makes a client show another player.
unfoldable pub spawn_reply : Str → Str → Client → Reply
spawn_reply username team c = add_float c.posz (
    add_float c.posy (
      add_float c.posx (
        add_string c.character (
          add_string team
            (add_string username (add_message_type MessageType.spawn_character []))))))

-- The loop over the players on the same level.
unfoldable pub spawn_others : StringMap ℕ → Session → Session
spawn_others [] s = s
spawn_others ((k, p) ∷ items) s =
    spawn_others items
      (push_reply (spawn_reply (s.heap p).username (s.heap p).username (s.heap p)) s)

unfoldable pub entered : Str → Str
entered username = username ++ codes " has entered the room."

-- From the setters to the messages about the other players.
unfoldable pub enter : Config → SignOnData → Str → ℕ → Session → Session
enter config d levelname p s =
    let s1 = on_server (add_client p) (on_client p (fill_client d levelname) s) in
    let s2 = push_reply (sign_on_reply config (s1.heap p)) s1 in
    spawn_others (get_clients (some p) s2.server) s2

-- The messages to the other players.
unfoldable pub announce : ℕ → Session → Session
announce p s =
    let text = entered (s.heap p).username in
    let s1 = print text (on_server (add_to_inbox (server_message text) (some p)) s) in
    on_server
      (add_to_inbox (spawn_reply (s1.heap p).username (s1.heap p).team (s1.heap p)) (some p)) s1

-- From the setters on.
unfoldable pub accept : Config → SignOnData → Str → ℕ → Session → Session
accept config d levelname p s = announce p (enter config d levelname p s)

-- The three checks of the message.
unfoldable pub is_invalid : SignOnData → Bool
is_invalid d = ltb (length d.levelname) 2 || ltb (length d.levelpath) 2

unfoldable pub is_forbidden : Config → SignOnData → Bool
is_forbidden config d = not config.allow_other_maps && not (is_allowed config.map_list d.levelpath)

-- What each of them answers with when it fails.
unfoldable pub refuse_invalid : SignOnData → Session → Session
refuse_invalid d s =
    print
      (codes "Client tried to connect with invalid values "
        ++ (d.levelname ++ (codes " " ++ d.levelpath)))
      (add_error_message (codes "The level you are trying to use is not valid!") s)

unfoldable pub refuse_forbidden : Session → Session
refuse_forbidden s = add_error_message (codes "This level is not allowed on this server!") s

unfoldable pub refuse_taken : Session → Session
refuse_taken s = add_error_message (codes "Already a user with that username!") s

-- The checks, for the client in cell `p`.
unfoldable pub sign_on : Config → SignOnData → ℕ → Session → Session
sign_on config d p s =
    if is_invalid d
    then refuse_invalid d s
    else if is_forbidden config d
    then refuse_forbidden s
    else if is_taken s.heap d.username (get_clients none s.server)
    then refuse_taken s
    else accept config d (default_name config.map_list d.levelpath d.levelname) p s

-- The log line for a client that signs on twice.
unfoldable pub again : Str → Str
again username =
    codes "!! Client tried signing on, while already being signed on... weird. " ++ username

unfoldable pub handle_sign_on : Config → Uninitialised → List ℕ → ℕ → Session → Result Session
handle_sign_on config u data_ data_index s = elim s.this_client [
  | some p ↦ ok (print (again (s.heap p).username) s)
  | none ↦ elim (read_sign_on data_ data_index) [
    | err e ↦ err e
    | ok (d, i) ↦ ok (sign_on config d s.next (make_client u s))
  ]
]
