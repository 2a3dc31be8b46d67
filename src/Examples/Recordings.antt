-- ===== src/Examples/Recordings.antt =====
-- Instances for recordings, with gaps written as so many strokes.
use kuksa_val_feeders.Prelude.{
  All, Bool, List, Option, [], ap, arith, length, none, refl, some, suc, true, zero, ℕ, ◌==◌, ◌∷◌,
  ◌≡◌, false, text_eq, nat_eq,
}
use kuksa_val_feeders.Prelude.Int.{negsuc, pos, ℤ}
use kuksa_val_feeders.Python.Errors.{ok}
use kuksa_val_feeders.Python.Text.{Codes, codes}
use kuksa_val_feeders.Recording.Csv.Plain.{IsPlain, is_plain}
use kuksa_val_feeders.Recording.Provider.{Action, provide}
use kuksa_val_feeders.Recording.Provider.Recorded.{IsPlainBatch, provide-recorded_file}
use kuksa_val_feeders.Recording.Provider.Replay.{replay_batches}
use kuksa_val_feeders.Recording.Recorder.{Batch, Entry, recorded_file}

abbrev strokes : ℕ → Codes
strokes zero = []
strokes (suc n) = b'1' ∷ strokes n

abbrev print_gap : ℤ → Codes
print_gap (pos n) = b'+' ∷ strokes n
print_gap (negsuc n) = b'-' ∷ strokes n

abbrev parse_float : Codes → Option ℤ
parse_float [] = none
parse_float (c ∷ cs) = elim (c == b'+') [
  | true ↦ some (pos (length cs))
  | false ↦ some (negsuc (length cs))
]

length-strokes : (n : ℕ) → length (strokes n) ≡ n
length-strokes zero = refl
length-strokes (suc n) = ap suc (length-strokes n)

parse_float-print_gap : (gap : ℤ) → parse_float (print_gap gap) ≡ some gap
parse_float-print_gap (pos n) = ap (λ k. some (pos k)) (length-strokes n)
parse_float-print_gap (negsuc n) = ap (λ k. some (negsuc k)) (length-strokes n)

strokes_plain : (n : ℕ) → All (λ x. is_plain x ≡ true) (strokes n)
strokes_plain zero = tt
strokes_plain (suc n) = (refl, strokes_plain n)

print_gap-IsPlain : (gap : ℤ) → IsPlain (print_gap gap)
print_gap-IsPlain (pos n) = search (strokes_plain n)
print_gap-IsPlain (negsuc n) = search (strokes_plain n)

abbrev speed : Entry
unfolding codes
speed = record { path = codes "Speed"; value = some (codes "10"); actuator_target = none }

abbrev door : Entry
unfolding codes
door = record { path = codes "Door"; value = none; actuator_target = some (codes "open") }

abbrev batches : List Batch
batches =
    record { time = 3; updates = speed ∷ [] }
    ∷ record { time = 7; updates = speed ∷ door ∷ [] }
    ∷ record { time = 12; updates = door ∷ [] }
    ∷ []

batches_plain : All IsPlainBatch batches
unfolding codes
batches_plain = ground arith

abbrev refuses : Action → Bool
refuses action = false

provide-recorded_file_example :
    provide parse_float refuses (recorded_file print_gap 1 batches)
    ≡ (ok tt, replay_batches 1 batches)
provide-recorded_file_example =
    provide-recorded_file print_gap print_gap-IsPlain parse_float refuses 1 batches
      parse_float-print_gap batches_plain
