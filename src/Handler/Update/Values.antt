-- ===== src/Handler/Update/Values.antt =====
-- The message of `AddOtherClientVariables` of src/request_handler.cpp, taken apart: behind its head,
-- types with the bytes of their values.
use ogmp_server.Base.{
  ℕ, ◌%◌, zero, suc, ◌≤◌, ◌≡◌, refl, ◌∙◌, ap, sym, List, [], ◌∷◌, ◌++◌, append_assoc, append-nil,
  none, some, length, take, drop, take-length-append, drop-length-append, length-append, to_char,
  arith, ◌==◌, ==_iff, if◌then◌else◌, Option-cases, inl, inr,
}
use ogmp_server.Text.{Str, c_str}
use ogmp_server.Reply.{
  Reply, add_string, add_message_type, float_bytes, add_bool, add_float, add_int, add_char,
}
use ogmp_server.Client.{Client}
use ogmp_server.Client.Variables.{PlayerVariable, Value, add_value, variable_of}
use ogmp_server.Client.Setters.{get_variable}
use ogmp_server.Client.History.{elem}
use ogmp_server.Handler.Update.Send.{
  update_head, add_other_value, add_other_variable, add_other_types,
}

-- How many bytes a type is followed by: one for a bool or an int, four for a float, and none for
-- `remove_blood`.
abbrev pub variable_size : PlayerVariable → ℕ
variable_size PlayerVariable.remove_blood = 0
variable_size PlayerVariable.crouch = 1
variable_size PlayerVariable.jump = 1
variable_size PlayerVariable.attack = 1
variable_size PlayerVariable.grab = 1
variable_size PlayerVariable.item = 1
variable_size PlayerVariable.drop = 1
variable_size PlayerVariable.knocked_out = 1
variable_size PlayerVariable.ragdoll_type = 1
variable_size PlayerVariable.blood_delay = 1
variable_size PlayerVariable.state = 1
variable_size PlayerVariable.cut_throat = 1
variable_size _ = 4

-- A char that is no variable's type is followed by nothing.
abbrev pub type_size : ℕ → ℕ
type_size b = elim (variable_of b) [ none ↦ 0 | some v ↦ variable_size v ]

-- What a reader knows of a player: the bytes of each type.
abbrev pub View : Type 0
View = ℕ → List ℕ

-- What a reader knows when it has taken in so many types at most.
unfoldable pub unpack : ℕ → List ℕ → View → View
unpack zero bytes view = view
unpack (suc n) [] view = view
unpack (suc n) (b ∷ rest) view =
    unpack n (drop (type_size b) rest) (λ u. if b == u then take (type_size b) rest else view u)

abbrev pub value_bytes : Value → List ℕ
value_bytes (Value.flag b) = (if b then 1 else 0) ∷ []
value_bytes (Value.real f) = float_bytes f
value_bytes (Value.whole n) = to_char n ∷ []

unfoldable pub sent_bytes : PlayerVariable → Value → List ℕ
sent_bytes PlayerVariable.remove_blood x = []
sent_bytes _ x = value_bytes x

-- The bytes of a player's current value of a type.
unfoldable pub value_of : ℕ → Client → List ℕ
value_of b c = elim (variable_of b) [ none ↦ [] | some v ↦ sent_bytes v (get_variable v c) ]

length-sent_bytes :
    (v : PlayerVariable) (c : Client) → length (sent_bytes v (get_variable v c)) ≡ variable_size v
unfolding sent_bytes get_variable
length-sent_bytes PlayerVariable.remove_blood c = refl
length-sent_bytes _ c = refl

length-value_of : (b : ℕ) (c : Client) → length (value_of b c) ≡ type_size b
unfolding value_of variable_of
length-value_of b c = elim (Option-cases (variable_of b)) [
  | inl e ↦ rw e refl
  | inr (v, e) ↦ rw e (length-sent_bytes v c)
]

add_value-bytes : (x : Value) (r : Reply) → add_value x r ≡ r ++ value_bytes x
unfolding add_value add_bool add_float add_int
add_value-bytes (Value.flag b) r = refl
add_value-bytes (Value.real f) r = refl
add_value-bytes (Value.whole n) r = refl

add_other_value-bytes :
    (v : PlayerVariable) (c : Client) (r : Reply)
    → add_other_value v c r ≡ r ++ sent_bytes v (get_variable v c)
unfolding add_other_value sent_bytes
add_other_value-bytes PlayerVariable.remove_blood c r = sym (append-nil r)
add_other_value-bytes v c r = add_value-bytes (get_variable v c) r

add_other_variable-bytes :
    (b : ℕ) (c : Client) (r : Reply) → add_other_variable b c r ≡ r ++ (b ∷ value_of b c)
unfolding add_other_variable value_of add_char variable_of
add_other_variable-bytes b c r = elim (Option-cases (variable_of b)) [
  | inl e ↦ rw e refl
  | inr (v, e) ↦ rw e (
      add_other_value-bytes v c (r ++ b ∷ [])
      ∙ append_assoc r (b ∷ []) (sent_bytes v (get_variable v c)))
]

-- The types with their values.
unfoldable pub body : List ℕ → Client → List ℕ
body [] c = []
body (b ∷ bs) c = b ∷ (value_of b c ++ body bs c)

pub add_other_types-body :
    (bs : List ℕ) (c : Client) (r : Reply) → add_other_types bs c r ≡ r ++ body bs c
unfolding add_other_types body
add_other_types-body [] c r = sym (append-nil r)
add_other_types-body (b ∷ bs) c r =
    add_other_types-body bs c (add_other_variable b c r)
    ∙ ap (λ x. x ++ body bs c) (add_other_variable-bytes b c r)
    ∙ append_assoc r (b ∷ value_of b c) (body bs c)

pub length-body : (bs : List ℕ) (c : Client) → length bs ≤ length (body bs c)
unfolding body
length-body [] c = omega arith
length-body (b ∷ bs) c = omega (arith, length-append (value_of b c) (body bs c), length-body bs c)

-- A reader who takes a message apart knows the current value of each type in it, and of every
-- other what it knew before.
pub unpack-body :
    (n : ℕ) (bs : List ℕ) (c : Client) (view : View) (u : ℕ)
    → length bs ≤ n
    → unpack n (body bs c) view u ≡ (if elem u bs then value_of u c else view u)
unfolding unpack body elem
unpack-body zero [] c view u h = refl
unpack-body zero (b ∷ bs) c view u h = absurd (omega arith)
unpack-body (suc n) [] c view u h = refl
unpack-body (suc n) (b ∷ bs) c view u h =
    rw (later, first)
      (ground
        (arith, ==_iff b u, unpack-body n bs c (λ w. if b == w then value_of b c else view w) u))
  where
    size : length (value_of b c) ≡ type_size b
    size = length-value_of b c

    later : drop (type_size b) (value_of b c ++ body bs c) ≡ body bs c
    later =
        ap (λ k. drop k (value_of b c ++ body bs c)) (sym size)
        ∙ drop-length-append (value_of b c) (body bs c)

    first : take (type_size b) (value_of b c ++ body bs c) ≡ value_of b c
    first =
        ap (λ k. take k (value_of b c ++ body bs c)) (sym size)
        ∙ take-length-append (value_of b c) (body bs c)

-- The head of a message about a player: the kind of message, and the name as a C string behind its
-- length modulo 256.
abbrev pub about : Str → Reply
about name = 9 ∷ length (c_str name) % 256 ∷ c_str name

pub update_head_lem : (c : Client) → update_head c ≡ about c.username
unfolding update_head add_string add_message_type
update_head_lem c = refl
