-- ===== src/Python/Text.antt =====
-- Texts by the codes of their characters: str.split with a separator, and comparison without case.
pub mod Split
use Prim.Native.Char.{Char, code}
use mathlib.Core.Path.{subst}
use kuksa_val_feeders.Prelude.{
  Eq, arith, refl, ◌↔◌, ◌≡◌, Bool, List, String, [], false, if◌then◌else◌, leb, map, true, ℕ, ◌&&◌,
  ◌+◌, ◌==◌, ◌∷◌, text_eq, nat_eq,
}

unfoldable pub codes : String → List ℕ
codes String.[] = []
codes (String.◌∷◌ c s) = code c ∷ codes s

-- ASCII letters only
abbrev pub lower_code : ℕ → ℕ
lower_code c = if leb b'A' c && leb c b'Z' then c + 32 else c

abbrev pub same_codes : List ℕ → List ℕ → Bool
same_codes [] [] = true
same_codes (x ∷ xs) (y ∷ ys) = x == y && same_codes xs ys
same_codes _ _ = false

-- Texts by their codes are compared as texts are.
abbrev pub Codes : Type 0
Codes = List ℕ

same_codes_sound : (s t : Codes) → same_codes s t ≡ true → s ≡ t
same_codes_sound [] [] h = refl
same_codes_sound [] (y ∷ t) h = cc
same_codes_sound (x ∷ s) [] h = cc
same_codes_sound (x ∷ s) (y ∷ t) h = ground (arith, same_codes_sound s t)

same_codes_refl : (s : Codes) → same_codes s s ≡ true
same_codes_refl [] = refl
same_codes_refl (x ∷ s) = ground (arith, same_codes_refl s)

pub same_codes_iff : (s t : Codes) → (same_codes s t ≡ true) ↔ (s ≡ t)
same_codes_iff s t =
    (same_codes_sound s t, λ e. subst (λ u. same_codes s u ≡ true) e (same_codes_refl s))

instance abbrev pub codes_eq : Eq Codes
codes_eq = record { same = same_codes; same_iff = same_codes_iff }

-- s.lower() == word
unfoldable pub lowers_to : String → String → Bool
unfolding codes
lowers_to s word = same_codes (map lower_code (codes s)) (codes word)

-- puts a character in front of the first part
abbrev pub to_first : Char → List String → List String
to_first c [] = String.◌∷◌ c String.[] ∷ []
to_first c (part ∷ parts) = String.◌∷◌ c part ∷ parts

-- s.split(separator) for one character
unfoldable pub split_on : ℕ → String → List String
split_on separator String.[] = "" ∷ []
split_on separator (String.◌∷◌ c s) =
    let rest = split_on separator s in if code c == separator then "" ∷ rest else to_first c rest
