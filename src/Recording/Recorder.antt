-- ===== src/Recording/Recorder.antt =====
-- csv_provider/recorder.py: a row for each current and target value of an update.
-- The values of a datapoint are texts, as str gives them. Times are microseconds, and `print_gap`
-- is the text of a difference of times, a float of seconds.
use kuksa_val_feeders.Prelude.{
  Bool, List, Option, [], false, if◌then◌else◌, none, some, true, ℕ, ◌++◌, ◌∷◌,
}
use kuksa_val_feeders.Prelude.Int.{pos, sub_ℕ, ℤ}
use kuksa_val_feeders.Python.Text.{Codes, codes}
use kuksa_val_feeders.Recording.Csv.{write_rows}

-- The entry of an EntryUpdate.
pub record Entry : Type 0 where
  pub path : Codes
  pub value : Option Codes
  pub actuator_target : Option Codes

-- What comes of the subscription at one time.
pub record Batch : Type 0 where
  pub time : ℕ
  pub updates : List Entry

abbrev pub field_names : List Codes
unfolding codes
field_names = codes "field" ∷ codes "signal" ∷ codes "value" ∷ codes "delay" ∷ []

pub record Recorder : Type 0 where
  pub previous_time : ℕ
  pub initial_value : Bool

unfoldable pub new_recorder : ℕ → Recorder
new_recorder time = record { previous_time = time; initial_value = true }

-- time_gap; the first leaves previous_time at the start
unfoldable pub time_gap : ℕ → Recorder → ℤ × Recorder
time_gap current_time r =
    if r.initial_value
    then (pos 0, record r { initial_value = false })
    else (sub_ℕ current_time r.previous_time, record r { previous_time = current_time })

module _ (print_gap : ℤ → Codes) where
  abbrev pub row_if : Codes → Codes → ℤ → Option Codes → List (List Codes)
  row_if field signal gap none = []
  row_if field signal gap (some value) = (field ∷ signal ∷ value ∷ print_gap gap ∷ []) ∷ []

  unfoldable pub rows_of : ℤ → List Entry → List (List Codes)
  unfolding codes
  rows_of gap [] = []
  rows_of gap (entry ∷ updates) =
      row_if (codes "current") entry.path gap entry.value
      ++ (row_if (codes "target") entry.path gap entry.actuator_target ++ rows_of gap updates)

  unfoldable pub record_batches : List Batch → Recorder → List (List Codes)
  unfolding time_gap rows_of
  record_batches [] r = []
  record_batches (b ∷ batches) r =
      let (gap, r') = time_gap b.time r in rows_of gap b.updates ++ record_batches batches r'

  -- The file after a subscription that began at a time.
  unfoldable pub recorded_file : ℕ → List Batch → Codes
  unfolding record_batches new_recorder write_rows
  recorded_file time batches = write_rows (field_names ∷ record_batches batches (new_recorder time))
