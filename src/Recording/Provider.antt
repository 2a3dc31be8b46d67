-- ===== src/Recording/Provider.antt =====
-- csv_provider/provider.py: the rows of a file are sent to the databroker, each with a delay after
-- it. `parse_float` is float() for a text, none where it raises ValueError; seconds are
-- microseconds. `accepts` tells whether client.set returns or raises VSSClientError.
pub mod Replay
pub mod Recorded
use kuksa_val_feeders.Prelude.{
  Bool, List, Option, [], false, if◌then◌else◌, none, some, true, ℕ, zero, suc, ◌++◌, ◌∷◌, text_eq,
  nat_eq,
}
use kuksa_val_feeders.Prelude.Int.{ℤ}
use kuksa_val_feeders.Python.Dict.{lookup}
use kuksa_val_feeders.Python.Errors.{Result, err, key_error, ok, type_error, ◌>>=◌}
use kuksa_val_feeders.Python.Text.{Codes, codes, codes_eq, same_codes}
use kuksa_val_feeders.Recording.Csv.{RowDict, read_file}

-- A call of client.set for a current value or a target, or for nothing; and asyncio.sleep.
pub data Action : Type 0 where
  set_current set_target : (signal value : Option Codes) → Action
  set_nothing : Action
  sleep : ℤ → Action

-- row[key]
unfoldable pub row_item : Codes → RowDict → Result (Option Codes)
unfolding lookup
row_item key row = elim (lookup key row) [ none ↦ err key_error | some v ↦ ok v ]

abbrev pub is_text : Option Codes → Codes → Bool
is_text none word = false
is_text (some s) word = same_codes s word

abbrev entry_of : (Option Codes → Option Codes → Action) → RowDict → Result Action
unfolding row_item codes
entry_of set row = do
  signal ← row_item (codes "signal") row
  value ← row_item (codes "value") row
  ok (set signal value)

abbrev updates_for : RowDict → Option Codes → Result Action
unfolding row_item codes
updates_for row field =
    if is_text field (codes "current")
    then entry_of set_current row
    else if is_text field (codes "target")
    then entry_of set_target row
    else ok set_nothing

unfoldable pub updates_of : RowDict → Result Action
unfolding row_item codes
updates_of row = row_item (codes "field") row >>= updates_for row

module _ (parse_float : Codes → Option ℤ) (accepts : Action → Bool) where
  -- The message about a VSSClientError names the signal.
  unfoldable pub report_error : RowDict → Action → Result (Unit {0})
  unfolding row_item codes
  report_error row updates =
      if accepts updates then ok tt else row_item (codes "signal") row >>= λ signal. ok tt

  abbrev pub sleep_if : RowDict → Option ℤ → Result (List Action)
  sleep_if row (some delay) = ok (sleep delay ∷ [])
  sleep_if row none =
      row_item (codes "signal") row >>= λ signal. row_item (codes "value") row >>= λ value. ok []

  abbrev pub delay_of : RowDict → Option Codes → Result (List Action)
  delay_of row none = err type_error
  delay_of row (some text) = sleep_if row (parse_float text)

  unfoldable pub wait_of : RowDict → Result (List Action)
  unfolding row_item codes
  wait_of row = do delay ← row_item (codes "delay") row; delay_of row delay

  abbrev pub after_set : Action → Result (List Action) → Result (Unit {0}) × List Action
  after_set updates (ok waits) = (ok tt, updates ∷ waits)
  after_set updates (err e) = (err e, updates ∷ [])

  unfoldable pub process_row : RowDict → Result (Unit {0}) × List Action
  unfolding updates_of report_error wait_of
  process_row row = elim (updates_of row) [
    | err e ↦ (err e, [])
    | ok updates ↦ after_set updates (report_error row updates >>= λ _. wait_of row)
  ]

  -- What an iteration that returned did, before the others.
  abbrev pub then_rows :
      Result (Unit {0}) × List Action
      → Result (Unit {0}) × List Action
      → Result (Unit {0}) × List Action
  then_rows (ok _, actions) (result, later) = (result, actions ++ later)
  then_rows (err e, actions) others = (err e, actions)

  unfoldable pub process_rows : List RowDict → Result (Unit {0}) × List Action
  unfolding process_row
  process_rows [] = (ok tt, [])
  process_rows (row ∷ rows) = then_rows (process_row row) (process_rows rows)

  -- main for one pass through the file
  unfoldable pub provide : Codes → Result (Unit {0}) × List Action
  unfolding read_file process_rows
  provide text = process_rows (read_file text)

  -- main with --infinite, for so many passes
  unfoldable pub provide_infinite : ℕ → List RowDict → Result (Unit {0}) × List Action
  unfolding process_rows
  provide_infinite zero rows = (ok tt, [])
  provide_infinite (suc passes) rows = then_rows (process_rows rows) (provide_infinite passes rows)
