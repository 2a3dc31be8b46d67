-- ===== src/Recording/Provider/Replay.antt =====
-- What was recorded is played back.
use kuksa_val_feeders.Prelude.{
  inl, inr, Bool-cases, Bool, List, Option, [], ap, append_assoc, none, refl, some, sym, ◌++◌, ◌∙◌,
  ◌∷◌, ◌≡◌, ℕ, false,
}
use kuksa_val_feeders.Prelude.Int.{ℤ, pos, sub_ℕ}
use kuksa_val_feeders.Python.Dict.{insert, lookup}
use kuksa_val_feeders.Python.Errors.{Result, ok, ◌>>=◌}
use kuksa_val_feeders.Python.Text.{Codes, codes}
use kuksa_val_feeders.Recording.Csv.{RowDict, dicts_of, zip_row}
use kuksa_val_feeders.Recording.Provider.{
  Action, after_set, process_row, process_rows, set_current, set_target, sleep, sleep_if, then_rows,
  updates_of, wait_of, report_error,
}
use kuksa_val_feeders.Recording.Recorder.{
  Batch, Entry, Recorder, new_recorder, field_names, record_batches, row_if, rows_of, time_gap,
}

-- What a recorded value gives: it is set, and then its gap is waited for.
abbrev pub replay_value :
    (Option Codes → Option Codes → Action) → Codes → ℤ → Option Codes → List Action
replay_value set path gap none = []
replay_value set path gap (some value) = set (some path) (some value) ∷ sleep gap ∷ []

abbrev pub replay_updates : ℤ → List Entry → List Action
replay_updates gap [] = []
replay_updates gap (entry ∷ updates) =
    replay_value set_current entry.path gap entry.value
    ++ (replay_value set_target entry.path gap entry.actuator_target ++ replay_updates gap updates)

-- The batches after one at the time `previous`: the gap of each is the time since the one before.
abbrev pub later_batches : ℕ → List Batch → List Action
later_batches previous [] = []
later_batches previous (b ∷ batches) =
    replay_updates (sub_ℕ b.time previous) b.updates ++ later_batches b.time batches

-- The batches of a recording from the time `start`: the first has no gap, and the gap of the second
-- counts from the start, as the time of the first is not kept.
abbrev pub replay_batches : ℕ → List Batch → List Action
replay_batches start [] = []
replay_batches start (b ∷ batches) = replay_updates (pos 0) b.updates ++ later_batches start batches

module _ (print_gap : ℤ → Codes) (parse_float : Codes → Option ℤ) (accepts : Action → Bool) where
  abbrev row_dict : Codes → Codes → Codes → ℤ → RowDict
  row_dict field signal value gap =
      zip_row field_names (field ∷ signal ∷ value ∷ print_gap gap ∷ []) []

  reported :
      (field signal value : Codes) (gap : ℤ) (updates : Action)
      → report_error parse_float accepts (row_dict field signal value gap) updates ≡ ok tt
  unfolding report_error zip_row insert lookup
  reported field signal value gap updates = elim (Bool-cases (accepts updates)) [
    | inl accepted ↦ rw accepted refl
    | inr refused ↦ rw refused refl
  ]

  waited :
      (field signal value : Codes) (gap : ℤ)
      → parse_float (print_gap gap) ≡ some gap
      → wait_of parse_float accepts (row_dict field signal value gap) ≡ ok (sleep gap ∷ [])
  unfolding wait_of zip_row insert lookup
  waited field signal value gap h =
      ap (sleep_if parse_float accepts (row_dict field signal value gap)) h

  abbrev waits : RowDict → Action → Result (Unit {0}) → Result (Unit {0}) × List Action
  waits row updates r =
      after_set parse_float accepts updates (r >>= λ _. wait_of parse_float accepts row)

  current_actions :
      (signal value : Codes) (gap : ℤ)
      → parse_float (print_gap gap) ≡ some gap
      → process_row parse_float accepts (row_dict (codes "current") signal value gap)
        ≡ (ok tt, set_current (some signal) (some value) ∷ sleep gap ∷ [])
  unfolding process_row updates_of zip_row insert lookup
  current_actions signal value gap h =
      let updates = set_current (some signal) (some value) in
      ap (waits (row_dict (codes "current") signal value gap) updates)
        (reported (codes "current") signal value gap updates)
      ∙ ap (after_set parse_float accepts updates) (waited (codes "current") signal value gap h)

  target_actions :
      (signal value : Codes) (gap : ℤ)
      → parse_float (print_gap gap) ≡ some gap
      → process_row parse_float accepts (row_dict (codes "target") signal value gap)
        ≡ (ok tt, set_target (some signal) (some value) ∷ sleep gap ∷ [])
  unfolding process_row updates_of zip_row insert lookup
  target_actions signal value gap h =
      let updates = set_target (some signal) (some value) in
      ap (waits (row_dict (codes "target") signal value gap) updates)
        (reported (codes "target") signal value gap updates)
      ∙ ap (after_set parse_float accepts updates) (waited (codes "target") signal value gap h)

  -- The rows of a file are played.
  abbrev pub play : List (List Codes) → Result (Unit {0}) × List Action
  play rows = process_rows parse_float accepts (dicts_of field_names rows)

  abbrev before_others :
      List Action → Result (Unit {0}) × List Action → Result (Unit {0}) × List Action
  before_others actions others = (others.0, actions ++ others.1)

  before_others-append :
      (a b c : List Action) (others : Result (Unit {0}) × List Action)
      → before_others a (before_others b (before_others c others))
        ≡ before_others (a ++ (b ++ c)) others
  before_others-append a b c others =
      ap (λ l. (others.0, l))
        (ap (λ l. a ++ l) (sym (append_assoc b c others.1))
          ∙ sym (append_assoc a (b ++ c) others.1))

  play-current :
      (path : Codes) (gap : ℤ) (value : Option Codes) (rows : List (List Codes))
      → parse_float (print_gap gap) ≡ some gap
      → play (row_if print_gap (codes "current") path gap value ++ rows)
        ≡ before_others (replay_value set_current path gap value) (play rows)
  unfolding dicts_of process_rows
  play-current path gap none rows h = refl
  play-current path gap (some value) rows h =
      ap (λ r. then_rows parse_float accepts r (play rows)) (current_actions path value gap h)

  play-target :
      (path : Codes) (gap : ℤ) (value : Option Codes) (rows : List (List Codes))
      → parse_float (print_gap gap) ≡ some gap
      → play (row_if print_gap (codes "target") path gap value ++ rows)
        ≡ before_others (replay_value set_target path gap value) (play rows)
  unfolding dicts_of process_rows
  play-target path gap none rows h = refl
  play-target path gap (some value) rows h =
      ap (λ r. then_rows parse_float accepts r (play rows)) (target_actions path value gap h)

  play-rows_of :
      (gap : ℤ) (updates : List Entry) (rows : List (List Codes))
      → parse_float (print_gap gap) ≡ some gap
      → play (rows_of print_gap gap updates ++ rows)
        ≡ before_others (replay_updates gap updates) (play rows)
  unfolding rows_of
  play-rows_of gap [] rows h = refl
  play-rows_of gap (entry ∷ updates) rows h =
      let currents = row_if print_gap (codes "current") entry.path gap entry.value in
      let targets = row_if print_gap (codes "target") entry.path gap entry.actuator_target in
      let later = rows_of print_gap gap updates in
      let current = replay_value set_current entry.path gap entry.value in
      let target = replay_value set_target entry.path gap entry.actuator_target in
      ap play (append_assoc currents (targets ++ later) rows)
      ∙ (play-current entry.path gap entry.value ((targets ++ later) ++ rows) h
          ∙ (ap (before_others current) (
                ap play (append_assoc targets later rows)
                ∙ (play-target entry.path gap entry.actuator_target (later ++ rows) h
                    ∙ ap (before_others target) (play-rows_of gap updates rows h)))
              ∙ before_others-append current target (replay_updates gap updates) (play rows)))

  play-later_batches :
      (batches : List Batch) (previous : ℕ)
      → ((gap : ℤ) → parse_float (print_gap gap) ≡ some gap)
      → play (
          record_batches print_gap batches
            (record { previous_time = previous; initial_value = false }))
        ≡ (ok tt, later_batches previous batches)
  unfolding record_batches time_gap dicts_of process_rows
  play-later_batches [] previous h = refl
  play-later_batches (b ∷ batches) previous h =
      let gap = sub_ℕ b.time previous in
      let r' : Recorder = record { previous_time = b.time; initial_value = false } in
      play-rows_of gap b.updates (record_batches print_gap batches r') (h gap)
      ∙ ap (before_others (replay_updates gap b.updates)) (play-later_batches batches b.time h)

  pub play-record_batches :
      (batches : List Batch) (start : ℕ)
      → ((gap : ℤ) → parse_float (print_gap gap) ≡ some gap)
      → play (record_batches print_gap batches (new_recorder start))
        ≡ (ok tt, replay_batches start batches)
  unfolding record_batches time_gap new_recorder dicts_of process_rows
  play-record_batches [] start h = refl
  play-record_batches (b ∷ batches) start h =
      let r' : Recorder = record { previous_time = start; initial_value = false } in
      play-rows_of (pos 0) b.updates (record_batches print_gap batches r') (h (pos 0))
      ∙ ap (before_others (replay_updates (pos 0) b.updates)) (play-later_batches batches start h)
