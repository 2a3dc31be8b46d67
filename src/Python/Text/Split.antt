-- ===== src/Python/Text/Split.antt =====
-- Where str.split finds the parts of a text.
use Prim.Native.Char.{Char, code}
use Prim.Native.String.append.{nil, cons}
use kuksa_val_feeders.Prelude.{
  String, [], ap, false, refl, ℕ, ◌<>◌, ◌==◌, ◌∙◌, ◌∷◌, ◌≡◌, text_eq, nat_eq,
}
use kuksa_val_feeders.Python.Dict.{beq_refl}
use kuksa_val_feeders.Python.Text.{split_on, to_first}

-- The separator is not in the text.
abbrev pub Lacks : ℕ → String → Type 0
Lacks separator String.[] = Unit
Lacks separator (String.◌∷◌ c s) = ((code c == separator) ≡ false) × Lacks separator s

pub split_on-Lacks :
    (separator : ℕ) (s : String) → Lacks separator s → split_on separator s ≡ s ∷ []
unfolding split_on
split_on-Lacks separator String.[] h = refl
split_on-Lacks separator (String.◌∷◌ c s) (other, h) =
    rw other (ap (to_first c) (split_on-Lacks separator s h))

pub split_on-append :
    (separator : Char) (s rest : String)
    → Lacks (code separator) s
    → split_on (code separator) (s <> String.◌∷◌ separator rest)
      ≡ s ∷ split_on (code separator) rest
unfolding split_on
split_on-append separator String.[] rest h =
    ap (split_on (code separator)) (nil (String.◌∷◌ separator rest))
    ∙ rw (beq_refl (code separator)) refl
split_on-append separator (String.◌∷◌ c s) rest (other, h) =
    ap (split_on (code separator)) (cons c s (String.◌∷◌ separator rest))
    ∙ rw other (ap (to_first c) (split_on-append separator s rest h))
