-- ===== src/Dds/Kml/Cycle.antt =====
-- The publisher goes around its positions.
use mathlib.Core.Path.{subst}
use native.Mathlib.Nat.{mod-lt, suc-mod}
use kuksa_val_feeders.Prelude.{
  List, Option, String, [], ap, arith, get_elem?, length, map, none, refl, some, suc, sym, zero, ℕ,
  ◌%◌, ◌<◌, ◌∙◌, ◌∷◌, ◌≡◌,
}
use kuksa_val_feeders.Dds.Kml.{NavSatFix, Position, sat_fix, position_of, run}
use kuksa_val_feeders.Python.Errors.{ok}
use kuksa_val_feeders.Python.Text.{split_on}
use kuksa_val_feeders.Python.Value.{Value}

-- A message with a position of a list, if that is there.
abbrev pub fix_at : List Position → ℕ → ℕ → Option NavSatFix
fix_at positions ctr sec = elim (get_elem? positions ctr) [
  | none ↦ none
  | some position ↦ some (record { sec = sec; frame_id = ctr; position = position })
]

-- The messages of some rounds, from a round on: in each the next position, and after the last the
-- first again.
abbrev pub fixes_from : List Position → ℕ → List ℕ → List (Option NavSatFix)
fixes_from positions round [] = []
fixes_from positions round (sec ∷ secs) =
    fix_at positions (round % length positions) sec ∷ fixes_from positions (suc round) secs

module _ (parse_float : String → Option Value) where
  -- What the texts read as, one after the other.
  abbrev pub Reads : List String → List Position → Type 0
  Reads [] [] = Unit
  Reads (text ∷ coordinates) (position ∷ positions) =
      (position_of parse_float (split_on b',' text) ≡ ok position) × Reads coordinates positions
  Reads _ _ = ⊥

  length-Reads :
      (coordinates : List String) (positions : List Position)
      → Reads coordinates positions
      → length coordinates ≡ length positions
  length-Reads [] [] h = refl
  length-Reads [] (p ∷ positions) h = elim h [ ]
  length-Reads (c ∷ coordinates) [] h = elim h [ ]
  length-Reads (c ∷ coordinates) (p ∷ positions) h = ap suc (length-Reads coordinates positions h.1)

  -- A text and what it reads as, at the same place.
  abbrev ReadsAt : List String → List Position → ℕ → Type 0
  ReadsAt coordinates positions i =
      (text : String) × (position : Position) × (get_elem? coordinates i ≡ some text)
      × (get_elem? positions i ≡ some position)
      × (position_of parse_float (split_on b',' text) ≡ ok position)

  Reads-at :
      (coordinates : List String) (positions : List Position) (i : ℕ)
      → Reads coordinates positions
      → i < length positions
      → ReadsAt coordinates positions i
  Reads-at [] [] i reads below = ground (arith, below)
  Reads-at [] (p ∷ positions) i reads below = elim reads [ ]
  Reads-at (c ∷ coordinates) [] i reads below = elim reads [ ]
  Reads-at (c ∷ coordinates) (p ∷ positions) zero reads below = (c, p, refl, refl, reads.0)
  Reads-at (c ∷ coordinates) (p ∷ positions) (suc i) reads below =
      Reads-at coordinates positions i reads.1 (omega (arith, below))

  abbrev with_position : ℕ → ℕ → Position → NavSatFix
  with_position ctr sec position = record { sec = sec; frame_id = ctr; position = position }

  sat_fix-Reads :
      (coordinates : List String) (positions : List Position) (ctr sec : ℕ) (position : Position)
      (text : String)
      → get_elem? coordinates ctr ≡ some text
      → position_of parse_float (split_on b',' text) ≡ ok position
      → sat_fix parse_float coordinates ctr sec ≡ ok (with_position ctr sec position)
  unfolding sat_fix
  sat_fix-Reads coordinates positions ctr sec position text at_ctr reads =
      rw (at_ctr, sat_fix) (rw reads refl)

  fix_at-there :
      (positions : List Position) (ctr sec : ℕ) (position : Position)
      → get_elem? positions ctr ≡ some position
      → fix_at positions ctr sec ≡ some (with_position ctr sec position)
  fix_at-there positions ctr sec position there = rw (there, fix_at) refl

  -- From a round on.
  run_from-fixes_from :
      (coordinates : List String) (positions : List Position) (secs : List ℕ) (round : ℕ)
      → Reads coordinates positions
      → 0 < length positions
      → let (result, messages) = run parse_float coordinates secs (round % length positions) in
        (result ≡ ok tt) × (map some messages ≡ fixes_from positions round secs)
  unfolding run
  run_from-fixes_from coordinates positions [] round reads some_there = (refl, refl)
  run_from-fixes_from coordinates positions (sec ∷ secs) round reads some_there =
      let n = length positions in
      let (text, position, at_ctr, there, read) =
        Reads-at coordinates positions (round % n) reads (mod-lt round some_there) in
      let message = sat_fix-Reads coordinates positions (round % n) sec position text at_ctr read in
      let next : suc (round % n) % length coordinates ≡ suc round % n =
        ap (λ k. suc (round % n) % k) (length-Reads coordinates positions reads)
        ∙ sym (suc-mod round n) in
      let (ends, later) =
        run_from-fixes_from coordinates positions secs (suc round) reads some_there in
      rw message (
        rw next (
          ends,
          ap (λ l. some (with_position (round % n) sec position) ∷ l) later
              ∙ ap (λ o. o ∷ fixes_from positions (suc round) secs)
                  (sym (fix_at-there positions (round % n) sec position there)),
        ))

  -- Where each text of the data reads as a position and there is one, the publisher never raises,
  -- and publishes the positions in order, beginning again with the first after the last; the
  -- counter in the header is the place of the position.
  pub run-fixes_from :
      (coordinates : List String) (positions : List Position) (secs : List ℕ)
      → Reads coordinates positions
      → 0 < length positions
      → ((run parse_float coordinates secs 0).0 ≡ ok tt)
        × (map some (run parse_float coordinates secs 0).1 ≡ fixes_from positions 0 secs)
  run-fixes_from coordinates positions secs reads some_there =
      let from_first : 0 % length positions ≡ 0 = omega arith in
      let Ends : ℕ → Type 0 = λ ctr.
        ((run parse_float coordinates secs ctr).0 ≡ ok tt)
        × (map some (run parse_float coordinates secs ctr).1 ≡ fixes_from positions 0 secs) in
      subst Ends from_first (run_from-fixes_from coordinates positions secs 0 reads some_there)
