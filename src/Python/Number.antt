-- ===== src/Python/Number.antt =====
-- int() and the arithmetic between a value and an integer.
-- `nearest` is the float nearest to a fraction, for results in the range of floats.
use kuksa_val_feeders.Prelude.{
  List, Option, String, [], if◌then◌else◌, leb, none, some, ℕ, ◌&&◌, ◌*◌, ◌+◌, ◌-◌, ◌/◌, ◌==◌, ◌^◌,
  ◌∷◌, text_eq, nat_eq,
}
use kuksa_val_feeders.Prelude.Int.{
  neg_part, negate, pos, pos_part, scale, ℤ, ◌*ℤ◌, ◌+ℤ◌, sub_ℕ, negsuc,
}
use kuksa_val_feeders.Python.Errors.{
  Result, err, ok, type_error, unsupported_number, value_error, zero_division_error,
}
use kuksa_val_feeders.Python.Text.{codes}
use kuksa_val_feeders.Python.Value.{Value, bool, int, of_bool, real, str}

abbrev digit_of : ℕ → Option ℕ
digit_of c = if leb b'0' c && leb c b'9' then some (c - b'0') else none

unfoldable decimal_after : ℕ → List ℕ → Result ℕ
decimal_after n [] = ok n
decimal_after n (c ∷ cs) = elim (digit_of c) [
  | none ↦ err unsupported_number
  | some d ↦ decimal_after (n * 10 + d) cs
]

-- int(s) of a text of digits
unfoldable pub int_of : String → Result ℕ
unfolding decimal_after codes
int_of s = if s == "" then err value_error else decimal_after 0 (codes s)

-- towards zero
abbrev pub truncate : ℤ → ℕ → ℤ
truncate m e = sub_ℕ (pos_part m / 10 ^ e) (neg_part m / 10 ^ e)

abbrev integer : Result ℕ → Result ℤ
integer (ok n) = ok (pos n)
integer (err e) = err e

-- int(v)
unfoldable pub int_of_value : Value → Result ℤ
unfolding int_of
int_of_value (bool b) = ok (of_bool b)
int_of_value (int n) = ok n
int_of_value (real m e) = ok (truncate m e)
int_of_value (str s) = integer (int_of s)
int_of_value _ = err type_error

module _ (nearest : ℤ → ℕ → Value) where
  -- v * k, for a product that is divided then: a text or a list times a number has no quotient.
  unfoldable pub times : Value → ℤ → Result Value
  unfolding ◌*ℤ◌
  times (bool b) k = ok (int (of_bool b *ℤ k))
  times (int n) k = ok (int (n *ℤ k))
  times (real m e) k = ok (nearest (m *ℤ k) (10 ^ e))
  times _ k = err type_error

  -- n / (d * k) for a fraction n / d, by the sign of k
  abbrev pub quotient : ℤ → ℕ → ℤ → Result Value
  quotient n d (pos k) = if k == 0 then err zero_division_error else ok (nearest n (d * k))
  quotient n d (negsuc k) = ok (nearest (negate n) (d * (k + 1)))

  -- v / k
  unfoldable pub divided_by : Value → ℤ → Result Value
  divided_by (bool b) k = quotient (of_bool b) 1 k
  divided_by (int n) k = quotient n 1 k
  divided_by (real m e) k = quotient m (10 ^ e) k
  divided_by _ k = err type_error

  -- v + k
  unfoldable pub plus : Value → ℤ → Result Value
  unfolding ◌+ℤ◌
  plus (bool b) k = ok (int (of_bool b +ℤ k))
  plus (int n) k = ok (int (n +ℤ k))
  plus (real m e) k = ok (nearest (m +ℤ scale k (10 ^ e)) (10 ^ e))
  plus _ k = err type_error
