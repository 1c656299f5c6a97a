-- ===== src/Startup.antt =====
-- src/main.cpp, and the constructor of src/server.cpp. What boost does is an argument: the reading of
-- an ini file, and the calls on the sockets, each of which may throw. What is printed to the terminal
-- is kept for a start that fails.
use ogmp_server.Base.{
  ℕ, ◌≡◌, ◌≢◌, ◌⊎◌, inl, inr, true, false, List, [], ◌∷◌, ◌++◌, none, some, length,
}
use ogmp_server.Text.{Str, codes}
use ogmp_server.Client.{Uninitialised, new_client}
use ogmp_server.Config.{Config}
use ogmp_server.Config.Reading.{Tree, read_config}
use ogmp_server.Log.{Log, set_log_file}
use ogmp_server.Network.World.{World}
use ogmp_server.Network.Steps.{start, Reach}

-- The text of an exception, or what a call returns.
abbrev Throws : Type 0 → Type 0
Throws A = Str ⊎ A

infixl 5 ◌>>=◌
abbrev ◌>>=◌ : {A B : Type 0} → Throws A → (A → Throws B) → Throws B
◌>>=◌ m f = elim m [ inl what ↦ inl what | inr a ↦ f a ]

-- The calls of boost, with what a property tree's getters throw where an entry is missing; an endpoint
-- is its address and port.
pub record Boost : Type 0 where
  pub read_ini : Str → Throws Tree
  pub bad_path : Str
  pub resolve : Str → Str → Throws (Str × Str)
  pub open_ : Str × Str → Throws Unit
  pub set_option : Throws Unit
  pub bind : Str × Str → Throws Unit
  pub listen : Throws Unit

module _ (boost : Boost) (u : Uninitialised) where
  -- The server's members before the constructor's body.
  unfoldable pub members : World
  members = record {
    server = record { heap = λ _. new_client u; next = 0; clients = []; log = [] };
    connections = [];
    managed = [];
    accepting = false;
    awaiting = false;
  }

  -- `server::server`: the wait for a signal, and the acceptor.
  unfoldable pub server : Str → Str → Throws World
  unfolding members
  server address port = do
    endpoint ← boost.resolve address port
    opened ← boost.open_ endpoint
    reuse ← boost.set_option
    bound ← boost.bind endpoint
    listening ← boost.listen
    inr (record members { awaiting = true; accepting = true })

  -- `config::config`.
  unfoldable pub load_config : Str → Throws Config
  load_config path = do
    pt ← boost.read_ini path
    elim (read_config pt) [ none ↦ inl boost.bad_path | some conf ↦ inr conf ]

  -- How `main` goes on: it returns a status, with a text for `cerr`, or runs the server, and then
  -- returns 0.
  pub data Outcome : Type 0 where
    returns : ℕ → Str → Outcome
    runs : Config → World → Log → Outcome

  unfoldable pub usage : Str
  usage =
      codes "Usage: http_server <address> <port> <doc_root>\n  For IPv4, try:\n"
      ++ codes "    receiver 0.0.0.0 9000 .\n  For IPv6, try:\n    receiver 0::0 9000 .\n"

  -- The body of the `try` behind the test of the arguments; the server keeps the third one, doc_root,
  -- and does not use it.
  unfoldable pub run_server : Str → Str → Log → Throws Outcome
  run_server address port l = do
    conf ← load_config (codes "config.ini")
    w ← server address port
    inr (runs conf w (set_log_file conf.log_file l))

  unfoldable pub main : List Str → Log → Outcome
  main (name ∷ address ∷ port ∷ doc_root ∷ []) l = elim (run_server address port l) [
    | inl what ↦ returns 0 (codes "Exception: " ++ (what ++ codes "\n"))
    | inr outcome ↦ outcome
  ]
  main _ l = returns 1 usage

  abbrev pub four : ℕ
  four = 4

  -- The settings are those of the file.
  abbrev pub IsLoaded : Config → Type 0
  IsLoaded conf =
      (pt : Tree) × (boost.read_ini (codes "config.ini") ≡ inr pt) × (read_config pt ≡ some conf)

  -- The settings are not loaded: the file is not read, or an entry of it is missing or bad.
  abbrev pub IsNotLoaded : Str → Type 0
  IsNotLoaded what =
      (boost.read_ini (codes "config.ini") ≡ inl what)
      ⊎ ((pt : Tree) × (boost.read_ini (codes "config.ini") ≡ inr pt)
          × (read_config pt ≡ none)
          × (what ≡ boost.bad_path))

  -- Every call of the server's constructor returns.
  abbrev pub IsListening : Str → Str → Type 0
  IsListening address port =
      (e : Str × Str) × (boost.resolve address port ≡ inr e)
      × (boost.open_ e ≡ inr tt)
      × (boost.set_option ≡ inr tt)
      × (boost.bind e ≡ inr tt)
      × (boost.listen ≡ inr tt)

  -- A call of the server's constructor throws, and each one in front of it returns.
  abbrev pub IsNotListening : Str → Str → Str → Type 0
  IsNotListening address port what =
      (boost.resolve address port ≡ inl what)
      ⊎ ((e : Str × Str) × (boost.resolve address port ≡ inr e)
          × ((boost.open_ e ≡ inl what)
              ⊎ ((boost.open_ e ≡ inr tt)
                  × ((boost.set_option ≡ inl what)
                      ⊎ ((boost.set_option ≡ inr tt)
                          × ((boost.bind e ≡ inl what)
                              ⊎ ((boost.bind e ≡ inr tt) × (boost.listen ≡ inl what))))))))

  abbrev Served : Str → Str → Throws World → Type 0
  Served address port (inl what) = IsNotListening address port what
  Served address port (inr w) = IsListening address port × (w ≡ start u)

  abbrev Loaded : Throws Config → Type 0
  Loaded (inl what) = IsNotLoaded what
  Loaded (inr conf) = IsLoaded conf

  -- What the body of the `try` comes to.
  abbrev Runs : Str → Str → Log → Throws Outcome → Type 0
  Runs address port l (inl what) =
      IsNotLoaded what ⊎ ((conf : Config) × IsLoaded conf × IsNotListening address port what)
  Runs address port l (inr outcome) =
      (conf : Config) × IsLoaded conf
      × IsListening address port
      × (outcome ≡ runs conf (start u) (set_log_file conf.log_file l))

  -- What an outcome says of the arguments and of boost.
  abbrev pub Fits : List Str → Outcome → Type 0
  Fits argv (returns status text) =
      ((status ≡ 1) × (text ≡ usage) × (length argv ≢ four))
      ⊎ ((name : Str) × (address : Str) × (port : Str) × (doc_root : Str) × (what : Str) × (argv
            ≡ name ∷ address ∷ port ∷ doc_root ∷ [])
          × (status ≡ 0)
          × (text ≡ codes "Exception: " ++ (what ++ codes "\n"))
          × (IsNotLoaded what
              ⊎ ((conf : Config) × IsLoaded conf × IsNotListening address port what)))
  Fits argv (runs conf w l) =
      (name : Str) × (address : Str) × (port : Str) × (doc_root : Str) × (argv
        ≡ name ∷ address ∷ port ∷ doc_root ∷ [])
      × IsLoaded conf
      × IsListening address port
      × Reach conf u w
      × (w.accepting ≡ true)
      × (w.awaiting ≡ true)
      × (l.file ≡ conf.log_file)
