-- ===== src/Handler/Update/Loop.antt =====
-- The last loop of `HandleUpdate` of src/request_handler.cpp, over all the other players: what it sends
-- about one of them.
use ogmp_server.Base.{ℕ, ◌<◌, ◌≤◌, ◌≡◌, ◌≢◌, List, ◌∷◌, ◌++◌, length}
use ogmp_server.Text.{c_str}
use ogmp_server.StringMap.{StringMap}
use ogmp_server.Reply.{Reply}
use ogmp_server.Client.{Client}
use ogmp_server.Client.History.{UpdateHistory, get_key, get_last_update_key}
use ogmp_server.Client.History.Cycle.{IsHistory}
use ogmp_server.Handler.Session.{Session}
use ogmp_server.Handler.Update.Relay.{IsUpToDate}
use ogmp_server.Handler.Update.Values.{View, value_of}
use ogmp_server.Handler.Update.Replica.{learn}

-- Of the messages that are added, some make the reader's copy of the player's variables right, and the
-- reader then knows the player's newest update.
abbrev pub Updated : ℕ → ℕ → View → Session → Session → Type 0
Updated p q view s t =
    (before : List Reply) × (news : List Reply) × (after : List Reply) × (t.rep
      ≡ s.rep ++ (before ++ (news ++ after)))
    × (length news ≤ 1)
    × ((u : ℕ) → learn (c_str (s.heap q).username) news view u ≡ value_of u (t.heap q))
    × IsUpToDate p q t

module _ (p q : ℕ) (other : p ≢ q) (c : Client) (h : UpdateHistory) (older : List UpdateHistory)
    (n : ℕ) (view : View) (v : IsHistory c) (e : c.client_update_history ≡ h ∷ older)
    (right : (u : ℕ) → view u ≡ value_of u c) (few : n ≤ 9) where
  -- The reader knows the update that was the newest one then; and the player's name has a length that
  -- one byte holds.
  abbrev KnowsOf : Session → Type 0
  KnowsOf s =
      (get_key (s.heap q).username (s.heap p) ≡ get_last_update_key c)
      × (length (c_str (s.heap q).username) < 256)
