-- ===== src/Client/Queues.antt =====
-- The two queues of src/client.cpp: `commands_`, which nothing in the server reads, and `inbox_`,
-- the messages that wait for the player's next update. Both are vectors that grow at the back.
use ogmp_server.Base.{
  ℕ, zero, suc, ◌≡◌, refl, ap, sym, ◌∙◌, Bool, true, false, ◌||◌, List, [], ◌∷◌, ◌++◌, Option, none,
  some, arith, length, length-append, append_assoc, append-nil, if◌then◌else◌,
}
use mathlib.Core.List.{reverse, reverse-reverse, reverse-cons}
use ogmp_server.Text.{Str, codes, str_eq}
use ogmp_server.StringMap.{StringMap, find, insert}
use ogmp_server.Reply.{Reply}
use ogmp_server.Client.Record.{Client}

unfoldable pub add_command : StringMap Str → Client → Client
add_command command c = record c { commands = c.commands ++ command ∷ [] }

unfoldable pub add_to_inbox : Reply → Client → Client
add_to_inbox command c = record c { inbox = c.inbox ++ command ∷ [] }

-- `back()` and `pop_back()` of a vector; `none` for an empty one, where C++ leaves them undefined.
unfoldable pub take_back {ℓ} : {A : Type ℓ} → List A → Option (A × List A)
take_back [] = none
take_back (x ∷ []) = some (x, [])
take_back (x ∷ y ∷ xs) = elim (take_back (y ∷ xs)) [
  | none ↦ none
  | some (b, rest) ↦ some (b, x ∷ rest)
]

unfoldable pub get_command : Client → Option (StringMap Str × Client)
get_command c = elim (take_back c.commands) [
  | none ↦ none
  | some (m, rest) ↦ some (m, record c { commands = rest })
]

unfoldable pub get_inbox_message : Client → Option (Reply × Client)
get_inbox_message c = elim (take_back c.inbox) [
  | none ↦ none
  | some (m, rest) ↦ some (m, record c { inbox = rest })
]

unfoldable pub get_number_of_commands : Client → ℕ
get_number_of_commands c = length c.commands

unfoldable pub get_number_of_inbox_messages : Client → ℕ
get_number_of_inbox_messages c = length c.inbox

-- `command["type"]`: the value, and the map, where the key now stands.
unfoldable pub index_type : StringMap Str → Str × StringMap Str
index_type command = elim (find (codes "type") command) [
  | none ↦ ([], insert (codes "type") [] command)
  | some v ↦ (v, command)
]

unfoldable pub is_sign_on : StringMap Str → Bool
is_sign_on command = str_eq (index_type command).0 (codes "SignOn")

contains_loop : List (StringMap Str) → Bool × List (StringMap Str)
contains_loop [] = (false, [])
contains_loop (m ∷ ms) =
    let (found, rest) = contains_loop ms in (is_sign_on m || found, (index_type m).1 ∷ rest)

-- The answer, and the client, whose commands now all have a type.
unfoldable pub contains_signon : Client → Bool × Client
unfolding contains_loop
contains_signon c =
    let (found, ms) = contains_loop c.commands in (found, record c { commands = ms })

-- The loop over the index, as the commands that it returns and those that stay. An erased command
-- moves the one behind it to the index that the loop has done, so that it is not looked at.
mutual
  pub signon_loop : List (StringMap Str) → List (StringMap Str) × List (StringMap Str)
  signon_loop [] = ([], [])
  signon_loop (m ∷ ms) =
      let (taken, kept) = signon_loop ms in
      let (taken', kept') = signon_skip ms in
      if is_sign_on m then ((index_type m).1 ∷ taken', kept') else (taken, (index_type m).1 ∷ kept)

  pub signon_skip : List (StringMap Str) → List (StringMap Str) × List (StringMap Str)
  signon_skip [] = ([], [])
  signon_skip (m ∷ ms) = let (taken, kept) = signon_loop ms in (taken, m ∷ kept)

unfoldable pub get_signon_commands : Client → List (StringMap Str) × Client
get_signon_commands c =
    let (taken, kept) = signon_loop c.commands in (taken, record c { commands = kept })

-- Of two commands side by side of which the first is a sign-on, the second stays among the
-- commands, whatever it is: the loop that takes the sign-ons out, standing at the first, leaves
-- the second and goes on behind it.
pub signon_loop_adjacent :
    (m n : StringMap Str) (ms : List (StringMap Str))
    → is_sign_on m ≡ true
    → (signon_loop (m ∷ n ∷ ms)).1 ≡ n ∷ (signon_loop ms).1
unfolding signon_loop signon_skip
signon_loop_adjacent m n ms h = rw h

module _ {ℓ} {A : Type ℓ} where
  take_back-append : (xs : List A) (x : A) → take_back (xs ++ x ∷ []) ≡ some (x, xs)
  unfolding take_back
  take_back-append [] x = refl
  take_back-append (y ∷ []) x = refl
  take_back-append (y ∷ z ∷ xs) x = rw (take_back-append (z ∷ xs) x)

-- The message that comes out is the one that went in last.
pub get_inbox_message-add_to_inbox :
    (m : Reply) (c : Client) → get_inbox_message (add_to_inbox m c) ≡ some (m, c)
unfolding get_inbox_message add_to_inbox
get_inbox_message-add_to_inbox m c = rw (take_back-append c.inbox m, get_inbox_message)

-- The loop of `HandleUpdate` that empties the inbox into the replies, with the length of the inbox
-- as its fuel.
unfoldable pub drain_inbox : ℕ → List Reply → Client → List Reply × Client
drain_inbox zero rep c = (rep, c)
drain_inbox (suc n) rep c = elim (get_inbox_message c) [
  | none ↦ (rep, c)
  | some (m, c') ↦ drain_inbox n (rep ++ m ∷ []) c'
]

drain-reverse :
    (xs : List Reply) (rep : List Reply) (c : Client)
    → c.inbox ≡ reverse xs
    → drain_inbox (length xs) rep c ≡ (rep ++ xs, record c { inbox = [] })
unfolding drain_inbox
drain-reverse [] rep c e = λ i. (sym (append-nil rep) i, record c { inbox = e i })
drain-reverse (x ∷ xs) rep c e =
    rw (message, drain_inbox)
      (drain-reverse xs (rep ++ x ∷ []) (record c { inbox = reverse xs }) refl
        ∙ ap (λ r. (r, record c { inbox = [] })) (append_assoc rep (x ∷ []) xs))
  where
    back : take_back c.inbox ≡ some (x, reverse xs)
    back = rw (e, reverse-cons x xs) (take_back-append (reverse xs) x)

    message : get_inbox_message c ≡ some (x, record c { inbox = reverse xs })
    message = unfold get_inbox_message in ground (arith, back)

length-reverse : (xs : List Reply) → length (reverse xs) ≡ length xs
length-reverse [] = refl
length-reverse (x ∷ xs) =
    omega
      (arith, ap length (reverse-cons x xs), length-append (reverse xs) (x ∷ []), length-reverse xs)

-- The loop that empties the inbox, run for as many rounds as there are messages, puts them behind
-- the replies, the newest message first, and leaves the inbox empty.
pub drain_inbox_lem :
    (rep : List Reply) (c : Client)
    → drain_inbox (get_number_of_inbox_messages c) rep c
      ≡ (rep ++ reverse c.inbox, record c { inbox = [] })
unfolding get_number_of_inbox_messages
drain_inbox_lem rep c =
    rw (← length-reverse c.inbox)
      (drain-reverse (reverse c.inbox) rep c (sym (reverse-reverse c.inbox)))
