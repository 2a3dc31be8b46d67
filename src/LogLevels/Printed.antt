-- ===== src/LogLevels/Printed.antt =====
-- The levels that a text for LOG_LEVEL sets.
use Prim.Native.Char.{Char}
use Prim.Native.String.append.{nil, cons}
use mathlib.Core.Path.{subst}
use kuksa_val_feeders.Prelude.{
  All, List, String, [], ap, arith, eq_iff, map, refl, some, sym, true, ℕ, ◌<>◌, ◌∙◌, ◌∷◌, ◌≡◌,
  text_eq, nat_eq,
}
use kuksa_val_feeders.LogLevels.{
  Level, Levels, parse_env_log, parse_level, parse_spec, parse_specs, with_root,
}
use kuksa_val_feeders.Python.Dict.{has_key, insert}
use kuksa_val_feeders.Python.Errors.{Result, ok, ◌>>=◌}
use kuksa_val_feeders.Python.Text.{split_on}
use kuksa_val_feeders.Python.Text.Split.{Lacks, split_on-Lacks, split_on-append}

-- A logger with the text of its level, and the level that it is.
pub record Spec : Type 0 where
  pub logger : String
  pub level : String
  pub parsed : Level

-- The texts hold no separator, and the level is one.
abbrev pub Sets : String → Level → Type 0
Sets level parsed = Lacks b',' level × Lacks b'=' level × (parse_level level ≡ ok parsed)

pub record IsSpec (s : Spec) : Type 0 where
  pub no_comma : Lacks b',' s.logger
  pub no_equals : Lacks b'=' s.logger
  pub sets : Sets s.level s.parsed

abbrev comma : Char
comma = ","

abbrev equals : Char
equals = "="

abbrev printed_spec : Spec → String
printed_spec s = s.logger <> String.◌∷◌ equals s.level

-- root,logger=level,logger=level
abbrev pub printed : String → List Spec → String
printed root [] = root
printed root (s ∷ specs) = root <> String.◌∷◌ comma (printed (printed_spec s) specs)

-- The levels after the specs, one after the other.
abbrev pub set_levels : List Spec → Levels → Levels
set_levels [] loglevels = loglevels
set_levels (s ∷ specs) loglevels = set_levels specs (insert s.logger s.parsed loglevels)

Lacks-append :
    (separator : ℕ) (s t : String)
    → Lacks separator s
    → Lacks separator t
    → Lacks separator (s <> t)
Lacks-append separator String.[] t hs ht = subst (Lacks separator) (sym (nil t)) ht
Lacks-append separator (String.◌∷◌ c s) t hs ht =
    subst (Lacks separator) (sym (cons c s t)) (hs.0, Lacks-append separator s t hs.1 ht)

printed_spec-Lacks : (s : Spec) → IsSpec s → Lacks b',' (printed_spec s)
printed_spec-Lacks s h =
    Lacks-append b',' s.logger (String.◌∷◌ equals s.level) h.no_comma (refl, h.sets.0)

split_on-printed :
    (root : String) (specs : List Spec)
    → Lacks b',' root
    → All IsSpec specs
    → split_on b',' (printed root specs) ≡ root ∷ map printed_spec specs
split_on-printed root [] h hs = split_on-Lacks b',' root h
split_on-printed root (s ∷ specs) h hs =
    split_on-append comma root (printed (printed_spec s) specs) h
    ∙ ap (λ l. root ∷ l) (split_on-printed (printed_spec s) specs (printed_spec-Lacks s hs.0) hs.1)

split_on-printed_spec :
    (s : Spec) → IsSpec s → split_on b'=' (printed_spec s) ≡ s.logger ∷ s.level ∷ []
split_on-printed_spec s h =
    split_on-append equals s.logger s.level h.no_equals
    ∙ ap (λ l. s.logger ∷ l) (split_on-Lacks b'=' s.level h.sets.1)

parse_specs-printed :
    (specs : List Spec) (loglevels : Levels)
    → All IsSpec specs
    → parse_specs (map printed_spec specs) loglevels ≡ ok (set_levels specs loglevels)
unfolding parse_specs parse_spec
parse_specs-printed [] loglevels h = refl
parse_specs-printed (s ∷ specs) loglevels h =
    ap (λ parts. parse_spec parts loglevels >>= parse_specs (map printed_spec specs))
      (split_on-printed_spec s h.0)
    ∙ (ap
          (λ r.
            r >>= (λ l. ok (insert s.logger l loglevels)) >>= parse_specs (map printed_spec specs))
          h.0.sets.2
        ∙ parse_specs-printed specs (insert s.logger s.parsed loglevels) h.1)

has_key-insert :
    (k j : String) (l : Level) (loglevels : Levels)
    → has_key k loglevels ≡ true
    → has_key k (insert j l loglevels) ≡ true
unfolding has_key insert
has_key-insert k j l [] h = cc
has_key-insert k j l ((i, w) ∷ loglevels) h =
    ground (arith, eq_iff i j, eq_iff i k, has_key-insert k j l loglevels)

has_key-set_levels :
    (k : String) (specs : List Spec) (loglevels : Levels)
    → has_key k loglevels ≡ true
    → has_key k (set_levels specs loglevels) ≡ true
has_key-set_levels k [] loglevels h = h
has_key-set_levels k (s ∷ specs) loglevels h =
    has_key-set_levels k specs (insert s.logger s.parsed loglevels)
      (has_key-insert k s.logger s.parsed loglevels h)

with_root_set :
    (loglevels : Levels) → has_key "root" loglevels ≡ true → with_root loglevels ≡ loglevels
with_root_set loglevels h = rw h refl

abbrev finish : Levels → Result Levels
finish loglevels = ok (with_root loglevels)

-- A text with a level for the root logger and then one for each of some loggers, which may be root
-- again, gives just these levels; where a logger stands twice, it has the later level.
pub parse_env_log-printed :
    (root : String) (parsed : Level) (specs : List Spec)
    → Sets root parsed
    → All IsSpec specs
    → parse_env_log (some (printed root specs)) ≡ ok (set_levels specs (("root", parsed) ∷ []))
unfolding parse_env_log parse_specs parse_spec has_key insert
parse_env_log-printed root parsed specs h hs =
    let start : Levels = ("root", parsed) ∷ [] in
    ap (λ l. parse_specs l [] >>= finish) (split_on-printed root specs h.0 hs)
    ∙ (ap (λ parts. parse_spec parts [] >>= parse_specs (map printed_spec specs) >>= finish)
          (split_on-Lacks b'=' root h.1)
        ∙ (ap
              (λ r.
                r
                >>= (λ l. ok (insert "root" l []))
                >>= parse_specs (map printed_spec specs)
                >>= finish)
              h.2
            ∙ (ap (λ r. r >>= finish) (parse_specs-printed specs start hs)
                ∙ ap ok (
                    with_root_set (set_levels specs start)
                      (has_key-set_levels "root" specs start refl)))))
