-- ===== src/Client/History/Keys.antt =====
-- `get_key` and `set_key` of src/client.cpp: the index of each other player's updates that a client
-- has seen.
use ogmp_server.Base.{◌≡◌, refl, ◌∙◌, ap, if◌then◌else◌, Bool-cases, inl, inr, ℤ}
use ogmp_server.Text.{Str, str_eq}
use ogmp_server.StringMap.{find-insert}
use ogmp_server.Client.Record.{Client}
use ogmp_server.Client.History.{get_key, set_key, or_minus_one}

-- An index that is set is the one that is read, and those of the other players stay.
pub get_key-set_key :
    (name other : Str) (k : ℤ) (c : Client)
    → get_key other (set_key name k c) ≡ (if str_eq name other then k else get_key other c)
unfolding get_key set_key or_minus_one
get_key-set_key name other k c =
    ap or_minus_one (find-insert name other k c.keys)
    ∙ elim (Bool-cases (str_eq name other)) [ inl e ↦ rw e refl | inr e ↦ rw e refl ]
