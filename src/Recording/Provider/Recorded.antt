-- ===== src/Recording/Provider/Recorded.antt =====
-- A file of the recorder in the hands of the provider.
use kuksa_val_feeders.Prelude.{
  Bool, All, arith, All-append, List, Option, [], ap, none, refl, some, ℕ, ◌++◌, ◌∙◌, ◌∷◌, ◌≡◌,
}
use kuksa_val_feeders.Prelude.Int.{ℤ}
use kuksa_val_feeders.Python.Errors.{ok}
use kuksa_val_feeders.Python.Text.{Codes, codes}
use kuksa_val_feeders.Recording.Csv.{
  dict_rows, new_reader, read_file, read_rows, write_row, write_rows,
}
use kuksa_val_feeders.Recording.Csv.Plain.{ArePlain, IsPlain, read_rows-write_row}
use kuksa_val_feeders.Recording.Provider.{Action, process_rows, provide}
use kuksa_val_feeders.Recording.Provider.Replay.{play-record_batches, replay_batches}
use kuksa_val_feeders.Recording.Recorder.{
  Batch, Entry, Recorder, field_names, new_recorder, record_batches, recorded_file, row_if, rows_of,
  time_gap,
}

-- A row of plain texts, as many as the header has.
abbrev IsRow : List Codes → Type 0
IsRow (field ∷ signal ∷ value ∷ delay ∷ []) = ArePlain (field ∷ signal ∷ value ∷ delay ∷ [])
IsRow _ = ⊥

read_rows-one :
    (row : List Codes) (rest : Codes)
    → IsRow row
    → read_rows (write_row row ++ rest) new_reader ≡ row ∷ read_rows rest new_reader
read_rows-one [] rest h = elim h [ ]
read_rows-one (field ∷ []) rest h = elim h [ ]
read_rows-one (field ∷ signal ∷ []) rest h = elim h [ ]
read_rows-one (field ∷ signal ∷ value ∷ []) rest h = elim h [ ]
read_rows-one (field ∷ signal ∷ value ∷ delay ∷ _ ∷ _) rest h = elim h [ ]
read_rows-one (field ∷ signal ∷ value ∷ delay ∷ []) rest h =
    read_rows-write_row field signal (value ∷ delay ∷ []) rest h

read_rows-write_rows :
    (rows : List (List Codes)) → All IsRow rows → read_rows (write_rows rows) new_reader ≡ rows
unfolding write_rows read_rows
read_rows-write_rows [] h = refl
read_rows-write_rows (row ∷ rows) h =
    read_rows-one row (write_rows rows) h.0 ∙ ap (λ l. row ∷ l) (read_rows-write_rows rows h.1)

abbrev pub IsPlainValue : Option Codes → Type 0
IsPlainValue none = Unit
IsPlainValue (some value) = IsPlain value

-- The path and the values of an entry are plain texts.
pub record IsPlainEntry (entry : Entry) : Type 0 where
  pub path : IsPlain entry.path
  pub value : IsPlainValue entry.value
  pub actuator_target : IsPlainValue entry.actuator_target

abbrev pub IsPlainBatch : Batch → Type 0
IsPlainBatch b = All IsPlainEntry b.updates

module _ (print_gap : ℤ → Codes) (printed : (gap : ℤ) → IsPlain (print_gap gap)) where
  row_if-IsRow :
      (field path : Codes) (gap : ℤ) (value : Option Codes)
      → IsPlain field
      → IsPlain path
      → IsPlainValue value
      → All IsRow (row_if print_gap field path gap value)
  row_if-IsRow field path gap none f p v = tt
  row_if-IsRow field path gap (some value) f p v =
      let row : IsRow (field ∷ path ∷ value ∷ print_gap gap ∷ []) = search (f, p, v, printed gap) in
      (row, tt)

  rows_of-IsRow :
      (gap : ℤ) (updates : List Entry)
      → All IsPlainEntry updates
      → All IsRow (rows_of print_gap gap updates)
  unfolding rows_of
  rows_of-IsRow gap [] h = tt
  rows_of-IsRow gap (entry ∷ updates) h =
      All-append IsRow _ _
        (row_if-IsRow (codes "current") entry.path gap entry.value (ground arith) h.0.path
          h.0.value)
        (All-append IsRow _ _
          (row_if-IsRow (codes "target") entry.path gap entry.actuator_target (ground arith)
            h.0.path h.0.actuator_target)
          (rows_of-IsRow gap updates h.1))

  record_batches-IsRow :
      (batches : List Batch) (r : Recorder)
      → All IsPlainBatch batches
      → All IsRow (record_batches print_gap batches r)
  unfolding record_batches
  record_batches-IsRow [] r h = tt
  record_batches-IsRow (b ∷ batches) r h =
      let (gap, r') = time_gap b.time r in
      All-append IsRow _ _ (rows_of-IsRow gap b.updates h.0) (record_batches-IsRow batches r' h.1)

  -- For a recording of updates whose paths and values have no comma, quote, bar or end of line and
  -- do not begin with a space, the provider sets each current and target value in the order in which
  -- they were recorded, and waits after each single value for the gap of its batch, whether the
  -- databroker accepts the values or not: nothing for the first batch, the time from the start of
  -- the recording for the second, and the time from the batch before for every later one. The text
  -- of a gap is such a text too, and float reads it.
  pub provide-recorded_file :
      (parse_float : Codes → Option ℤ) (accepts : Action → Bool) (time : ℕ) (batches : List Batch)
      → ((gap : ℤ) → parse_float (print_gap gap) ≡ some gap)
      → All IsPlainBatch batches
      → provide parse_float accepts (recorded_file print_gap time batches)
        ≡ (ok tt, replay_batches time batches)
  unfolding provide recorded_file read_file dict_rows
  provide-recorded_file parse_float accepts time batches reads plain =
      let rows = record_batches print_gap batches (new_recorder time) in
      ap (λ l. process_rows parse_float accepts (dict_rows l))
        (read_rows-write_rows (field_names ∷ rows)
          (ground arith, record_batches-IsRow batches (new_recorder time) plain))
      ∙ play-record_batches print_gap parse_float accepts batches time reads
