-- ===== src/Handler/Update/Steps.antt =====
-- One round of the reading loop of `HandleUpdate`.
use ogmp_server.Base.{ℕ, suc, ◌≡◌, true, false, List, [], ◌∷◌, ◌++◌, Fault, ok, err, arith, ltb}
use ogmp_server.Input.{get_char}
use ogmp_server.Client.{Client}
use ogmp_server.Handler.Update.Read.{receive_char, read_variables}

module _ (fuel size : ℕ) (data_ : List ℕ) (i : ℕ) (c : Client) (hs : List ℕ) where
  pub read_variables_done :
      ltb i size ≡ false → read_variables (suc fuel) size data_ i c hs ≡ ok (c, hs)
  unfolding read_variables
  read_variables_done e = ground arith

  pub read_variables_no_type :
      (e : Fault)
      → ltb i size ≡ true
      → get_char data_ i ≡ err e
      → read_variables (suc fuel) size data_ i c hs ≡ err e
  unfolding read_variables
  read_variables_no_type e more bad = ground arith

  pub read_variables_no_value :
      (b j : ℕ) (e : Fault)
      → ltb i size ≡ true
      → get_char data_ i ≡ ok (b, j)
      → receive_char b data_ j ≡ err e
      → read_variables (suc fuel) size data_ i c hs ≡ err e
  unfolding read_variables
  read_variables_no_value b j e more got bad = ground arith

  pub read_variables_step :
      (b j : ℕ) (f : Client → Client) (k : ℕ)
      → ltb i size ≡ true
      → get_char data_ i ≡ ok (b, j)
      → receive_char b data_ j ≡ ok (f, k)
      → read_variables (suc fuel) size data_ i c hs
        ≡ read_variables fuel size data_ k (f c) (hs ++ b ∷ [])
  unfolding read_variables
  read_variables_step b j f k more got val = ground arith
