-- ===== src/Python/Hex/Printed.antt =====
-- Upper-case hexadecimal digits and words with spaces, and how Python reads them back.
use kuksa_val_feeders.Prelude.{
  All, List, [], ap, append-nil, append_assoc, arith, false, if◌then◌else◌, ltb, map, refl, some,
  sym, true, ℕ, ◌%◌, ◌*◌, ◌++◌, ◌+◌, ◌-◌, ◌/◌, ◌<◌, ◌==◌, ◌∙◌, ◌∷◌, ◌≡◌, text_eq, nat_eq,
}
use kuksa_val_feeders.Python.Hex.{
  digits_after, end_word, fromhex, hex_digit, int16, is_space, join, split, split_from, unsigned,
  skip_prefix, positive,
}
use kuksa_val_feeders.Prelude.Int.{pos}

abbrev pub hex_char : ℕ → ℕ
hex_char d = if ltb d 10 then b'0' + d else b'A' + (d - 10)

pub hex_digit-hex_char : (d : ℕ) → d < 16 → hex_digit (hex_char d) ≡ some d
unfolding hex_digit
hex_digit-hex_char d h = ground (arith, h)

-- A character that int takes for no sign, prefix or space.
hex_char_plain :
    (d : ℕ)
    → d < 16
    → ((hex_char d == b'+') ≡ false)
      × ((hex_char d == b'-') ≡ false)
      × ((hex_char d == b'x') ≡ false)
      × ((hex_char d == b'X') ≡ false)
      × ((hex_char d == b'_') ≡ false)
hex_char_plain d h = ground (arith, h)

pub hex_char-is_space : (d : ℕ) → d < 16 → is_space (hex_char d) ≡ false
hex_char-is_space d h = ground (arith, h)

-- The value of digits, highest first.
abbrev pub value_after : ℕ → List ℕ → ℕ
value_after n [] = n
value_after n (d ∷ ds) = value_after (n * 16 + d) ds

digits_after-hex :
    (n : ℕ) (ds : List ℕ)
    → All (λ d. d < 16) ds
    → digits_after true n (map hex_char ds) ≡ some (value_after n ds)
unfolding digits_after
digits_after-hex n [] h = refl
digits_after-hex n (d ∷ ds) (below, h) =
    rw (hex_digit-hex_char d below, digits_after) (digits_after-hex (n * 16 + d) ds h)

skip_prefix-hex :
    (d : ℕ) (ds : List ℕ)
    → All (λ e. e < 16) ds
    → skip_prefix (hex_char d ∷ map hex_char ds) ≡ hex_char d ∷ map hex_char ds
skip_prefix-hex d [] h = refl
skip_prefix-hex d (e ∷ ds) (below, h) =
    let (_, _, small_x, large_x, _) = hex_char_plain e below in ground (arith, small_x, large_x)

unsigned-hex :
    (d : ℕ) (ds : List ℕ)
    → d < 16
    → All (λ e. e < 16) ds
    → unsigned (hex_char d ∷ map hex_char ds) ≡ some (value_after d ds)
unfolding unsigned digits_after
unsigned-hex d ds below h =
    ap (digits_after false 0) (skip_prefix-hex d ds h)
    ∙ rw (hex_digit-hex_char d below, digits_after)
        (digits_after-hex (0 * 16 + d) ds h ∙ ap (λ n. some (value_after n ds)) (omega arith))

-- int(s, 16) reads digits.
pub int16-hex :
    (d : ℕ) (ds : List ℕ)
    → d < 16
    → All (λ e. e < 16) ds
    → int16 (map hex_char (d ∷ ds)) ≡ some (pos (value_after d ds))
unfolding int16 unsigned digits_after
int16-hex d ds below h =
    let (plus, minus, _, _, _) = hex_char_plain d below in
    rw plus (rw minus (ap positive (unsigned-hex d ds below h)))

-- Bytes as two digits each.
abbrev pub hex_byte : ℕ → List ℕ
hex_byte b = hex_char (b / 16) ∷ hex_char (b % 16) ∷ []

pub fromhex-hex :
    (bytes : List ℕ) → All (λ b. b < 256) bytes → fromhex (join (map hex_byte bytes)) ≡ some bytes
unfolding fromhex
fromhex-hex [] h = refl
fromhex-hex (b ∷ bytes) (below, h) =
    rw
      (
        hex_digit-hex_char (b / 16) (omega (arith, below)),
        hex_digit-hex_char (b % 16) (omega arith),
        fromhex-hex bytes h,
      )
      (ap (λ n. some (n ∷ bytes)) (omega arith))

-- Words, each with a space after it.
abbrev pub spaced : List (List ℕ) → List ℕ
spaced [] = []
spaced (word ∷ words) = word ++ (b' ' ∷ spaced words)

abbrev pub IsWord : List ℕ → Type 0
IsWord [] = ⊥
IsWord (c ∷ cs) = All (λ x. is_space x ≡ false) (c ∷ cs)

split_from-word :
    (word before rest : List ℕ)
    → All (λ x. is_space x ≡ false) word
    → split_from before (word ++ (b' ' ∷ rest)) ≡ end_word (before ++ word) (split_from [] rest)
unfolding split_from
split_from-word [] before rest h =
    ap (λ w. end_word w (split_from [] rest)) (sym (append-nil before))
split_from-word (c ∷ word) before rest (no_space, h) = rw no_space (
    split_from-word word (before ++ (c ∷ [])) rest h
    ∙ ap (λ w. end_word w (split_from [] rest)) (append_assoc before (c ∷ []) word))

pub split-spaced : (words : List (List ℕ)) → All IsWord words → split (spaced words) ≡ words
unfolding split split_from
split-spaced [] h = refl
split-spaced ([] ∷ words) (h, _) = elim h [ ]
split-spaced ((c ∷ cs) ∷ words) (h, hs) =
    split_from-word (c ∷ cs) [] (spaced words) h ∙ ap (λ ws. (c ∷ cs) ∷ ws) (split-spaced words hs)
