-- ===== src/Python/Hex.antt =====
-- Python's str.split, int(s, 16) and bytes.fromhex on ASCII texts, which are lists of character codes.
pub mod Printed
use kuksa_val_feeders.Prelude.{
  Bool, List, Option, [], false, if◌then◌else◌, leb, none, some, suc, true, zero, ℕ, ◌&&◌, ◌*◌,
  ◌++◌, ◌+◌, ◌-◌, ◌==◌, ◌||◌, ◌∷◌, text_eq, nat_eq,
}
use kuksa_val_feeders.Prelude.Int.{negsuc, pos, ℤ}

-- what str.split and str.strip take for a space
abbrev pub is_space : ℕ → Bool
is_space c = leb 9 c && leb c 13 || (leb 28 c && leb c 32)

-- `word` is what came of the current word, in order.
abbrev pub end_word : List ℕ → List (List ℕ) → List (List ℕ)
end_word [] words = words
end_word (c ∷ word) words = (c ∷ word) ∷ words

unfoldable pub split_from : List ℕ → List ℕ → List (List ℕ)
split_from word [] = end_word word []
split_from word (c ∷ cs) =
    if is_space c then end_word word (split_from [] cs) else split_from (word ++ (c ∷ [])) cs

-- s.split()
unfoldable pub split : List ℕ → List (List ℕ)
unfolding split_from
split cs = split_from [] cs

-- ''.join(items)
abbrev pub join : List (List ℕ) → List ℕ
join [] = []
join (cs ∷ items) = cs ++ join items

-- the value of a hexadecimal digit
unfoldable pub hex_digit : ℕ → Option ℕ
hex_digit c =
    if leb (b'0') c && leb c (b'9')
    then some (c - b'0')
    else if leb (b'a') c && leb c (b'f')
    then some (c - b'a' + 10)
    else if leb (b'A') c && leb c (b'F')
    then some (c - b'A' + 10)
    else none

-- Digits with single underscores between them: `n` is the value so far, and `after_digit` says
-- whether a digit stands before.
unfoldable pub digits_after : Bool → ℕ → List ℕ → Option ℕ
unfolding hex_digit
digits_after after_digit n [] = if after_digit then some n else none
digits_after after_digit n (c ∷ cs) = elim (hex_digit c) [
  | some d ↦ digits_after true (n * 16 + d) cs
  | none ↦ elim (after_digit && c == b'_') [ true ↦ digits_after false n cs | false ↦ none ]
]

abbrev skip_underscore : List ℕ → List ℕ
skip_underscore [] = []
skip_underscore (c ∷ cs) = if c == b'_' then cs else c ∷ cs

-- the prefix 0x
abbrev skip_prefix : List ℕ → List ℕ
skip_prefix (z ∷ x ∷ cs) =
    if z == b'0' && (x == b'x' || x == b'X') then skip_underscore cs else z ∷ x ∷ cs
skip_prefix cs = cs

unfoldable pub unsigned : List ℕ → Option ℕ
unfolding digits_after
unsigned cs = digits_after false 0 (skip_prefix cs)

abbrev positive : Option ℕ → Option ℤ
positive none = none
positive (some n) = some (pos n)

abbrev negative : Option ℕ → Option ℤ
negative none = none
negative (some zero) = some (pos 0)
negative (some (suc n)) = some (negsuc n)

-- int(s, 16) of a text without spaces
unfoldable pub int16 : List ℕ → Option ℤ
unfolding unsigned
int16 [] = none
int16 (c ∷ cs) =
    if c == b'+'
    then positive (unsigned cs)
    else if c == b'-'
    then negative (unsigned cs)
    else positive (unsigned (c ∷ cs))

abbrev pub byte_then : Option ℕ → Option ℕ → Option (List ℕ) → Option (List ℕ)
byte_then (some x) (some y) (some bytes) = some ((x * 16 + y) ∷ bytes)
byte_then _ _ _ = none

-- bytearray.fromhex of a text without spaces
unfoldable pub fromhex : List ℕ → Option (List ℕ)
unfolding hex_digit
fromhex [] = some []
fromhex (x ∷ []) = none
fromhex (x ∷ y ∷ cs) = byte_then (hex_digit x) (hex_digit y) (fromhex cs)
