-- ===== src/Elm/Dialogue/Filters.antt =====
-- The number that a filter command names.
use kuksa_val_feeders.Prelude.{
  List, [], ap, append-nil, append_assoc, arith, length, length-append, inl, inr, Bool-cases,
  String, false, if◌then◌else◌, ltb, refl, some, suc, sym, true, zero, ℕ, ◌%◌, ◌*◌, ◌++◌, ◌+◌, ◌-◌,
  ◌/◌, ◌<◌, ◌^◌, ◌∙◌, ◌∷◌, ◌≡◌, text_eq, nat_eq,
}
use kuksa_val_feeders.Elm.Dialogue.{
  at_least, digit_count, filter_command, last_digits, line, padded_hex,
}
use kuksa_val_feeders.Python.Hex.{digits_after, hex_digit}
use kuksa_val_feeders.Python.Text.{codes}

abbrev digit_char : ℕ → ℕ
digit_char d = if ltb d 10 then b'0' + d else b'a' + (d - 10)

hex_digit-digit_char : (d : ℕ) → d < 16 → hex_digit (digit_char d) ≡ some d
unfolding hex_digit
hex_digit-digit_char d h = ground (arith, h)

below_rest : (width n : ℕ) → n < 16 ^ suc width → n / 16 < 16 ^ width
below_rest width n h = grind (arith, h)

power : (width : ℕ) → 16 ^ suc width ≡ 16 ^ width * 16
power width = omega arith

shifted : (a p : ℕ) → a * (p * 16) ≡ a * p * 16
shifted a p = grind arith

one_more :
    (width start n : ℕ) → (start * 16 ^ width + n / 16) * 16 + n % 16 ≡ start * 16 ^ suc width + n
one_more width start n = rw (power width, shifted start (16 ^ width)) (omega arith)

digits_after-digit_char :
    (start d : ℕ) (rest : List ℕ)
    → d < 16
    → digits_after true start (digit_char d ∷ rest) ≡ digits_after true (start * 16 + d) rest
unfolding digits_after
digits_after-digit_char start d rest h = rw (hex_digit-digit_char d h, digits_after) refl

digits_after-last_digits :
    (width start n : ℕ) (rest : List ℕ)
    → n < 16 ^ width
    → digits_after true start (last_digits width n ++ rest)
      ≡ digits_after true (start * 16 ^ width + n) rest
unfolding last_digits
digits_after-last_digits zero start n rest h = ap (λ v. digits_after true v rest) (omega (arith, h))
digits_after-last_digits (suc width) start n rest h =
    ap (digits_after true start)
      (append_assoc (last_digits width (n / 16)) (digit_char (n % 16) ∷ []) rest)
    ∙ (digits_after-last_digits width start (n / 16) (digit_char (n % 16) ∷ rest)
          (below_rest width n h)
        ∙ (digits_after-digit_char (start * 16 ^ width + n / 16) (n % 16) rest (omega arith)
            ∙ ap (λ v. digits_after true v rest) (one_more width start n)))

digit_count_bound : (fuel n k : ℕ) → n < 16 ^ suc k → ltb (suc k) (digit_count fuel n) ≡ false
digit_count_bound zero n k h = ground arith
digit_count_bound (suc fuel) n zero h = ground (arith, h)
digit_count_bound (suc fuel) n (suc k) h =
    let shorter = digit_count_bound fuel (n / 16) k (below_rest (suc k) n h) in
    ground (arith, shorter)

at_least_exact : (k n : ℕ) → n < 16 ^ suc k → at_least (suc k) (digit_count n n) ≡ suc k
at_least_exact k n h = let bound = digit_count_bound n n k h in ground (arith, bound)

none_before : (p n : ℕ) → 0 * p + n ≡ n
none_before p n = omega arith

padded_hex-value : (k n : ℕ) → n < 16 ^ suc k → digits_after true 0 (padded_hex (suc k) n) ≡ some n
unfolding padded_hex digits_after
padded_hex-value k n h = rw (at_least_exact k n h) (
    ap (digits_after true 0) (sym (append-nil (last_digits (suc k) n)))
    ∙ (digits_after-last_digits (suc k) 0 n [] h ∙ ap (λ v. some v) (none_before (16 ^ suc k) n)))

length-last_digits : (width n : ℕ) → length (last_digits width n) ≡ width
unfolding last_digits
length-last_digits zero n = refl
length-last_digits (suc width) n =
    length-append (last_digits width (n / 16)) (digit_char (n % 16) ∷ [])
    ∙ (ap (λ m. m + 1) (length-last_digits width (n / 16)) ∙ omega arith)

-- What a filter command is to name: a frame ID, by so many digits, under a mask.
pub record Names (canid width : ℕ) (mask : String) : Type 0 where
  pub digits : List ℕ
  pub command : filter_command canid ≡ codes "STFPA " ++ (digits ++ line mask)
  pub value : digits_after true 0 digits ≡ some canid
  pub size : length digits ≡ width

padded_hex-Names :
    (canid k : ℕ) (mask : String)
    → canid < 16 ^ suc k
    → filter_command canid ≡ codes "STFPA " ++ (padded_hex (suc k) canid ++ line mask)
    → Names canid (suc k) mask
unfolding padded_hex
padded_hex-Names canid k mask h command = record {
  digits = padded_hex (suc k) canid;
  command = command;
  value = padded_hex-value k canid h;
  size = rw (at_least_exact k canid h) (length-last_digits (suc k) canid);
}

abbrev pub mask_of : ℕ → String
mask_of canid = if ltb canid 2048 then ", 07ff" else ", 03ffffff"

abbrev pub width_of : ℕ → ℕ
width_of canid = if ltb canid 2048 then 4 else 8

-- For a frame ID of 32 bits the filter command names just that frame ID in hexadecimal, by 4 digits
-- under the mask 07ff if it is below 2048, and by 8 digits under the mask 03ffffff if not.
pub filter_command-Names :
    (canid : ℕ) → canid < 2 ^ 32 → Names canid (width_of canid) (mask_of canid)
unfolding filter_command
filter_command-Names canid h = elim (Bool-cases (ltb canid 2048)) [
  | inl standard ↦ rw standard (
      padded_hex-Names canid 3 ", 07ff" (ground (arith, standard))
        (rw (standard, filter_command) refl))
  | inr extended ↦ rw extended (
      padded_hex-Names canid 7 ", 03ffffff" (omega (arith, h)) (rw (extended, filter_command) refl))
]
