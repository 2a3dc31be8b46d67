-- ===== src/Replay.antt =====
-- The loop of replay/_replay.py over the rows of a log of the KUKSA server.
-- `parse_time` is datetime.strptime for the format of the log, in microseconds, none where it
-- raises ValueError.
pub mod Timed
use kuksa_val_feeders.Prelude.{
  Bool, List, Option, String, [], false, if◌then◌else◌, leb, none, some, true, ℕ, ◌++◌, ◌-◌, ◌==◌,
  ◌||◌, ◌∷◌, text_eq, nat_eq,
}
use kuksa_val_feeders.Python.Errors.{
  Error, Result, attribute_error, err, ok, type_error, value_error, ◌>>=◌,
}

-- A row of csv.DictReader by rowIDs; the fields that the loop does not read are left out. None is
-- what a short row lacks.
pub record Row : Type 0 where
  pub timestamp : Option String
  pub action : Option String
  pub path : Option String
  pub value : Option String

-- time.sleep, and the calls of the client thread.
pub data Action : Type 0 where
  slept : ℕ → Action
  value_set : (path value : Option String) → Action
  value_got : (path : Option String) → Action

abbrev pub is_text : Option String → String → Bool
is_text none word = false
is_text (some s) word = s == word

-- A row, and the exception of its call, if that raises.
pub record Turn : Type 0 where
  pub row : Row
  pub raised : Option Error

-- What the script prints at the end.
pub data Outcome : Type 0 where
  successful wrong_attributes : Outcome
  failed : Error → Outcome

abbrev pub outcome_of : Result (Unit {0}) → Outcome
outcome_of (ok _) = successful
outcome_of (err attribute_error) = wrong_attributes
outcome_of (err e) = failed e

-- What a row asks of the client thread.
unfoldable pub call_of : String → Row → List Action
call_of mode row =
    if is_text row.action "set"
    then value_set row.path row.value ∷ []
    else if mode == "SetGet"
    then value_got row.path ∷ []
    else []

abbrev pub then_rows :
    List Action → Result (Unit {0}) × List Action → Result (Unit {0}) × List Action
then_rows actions (result, later) = (result, actions ++ later)

-- The call of a row may raise: then it was made, and nothing comes after it.
abbrev pub after_call :
    Option Error → List Action → Result (Unit {0}) × List Action → Result (Unit {0}) × List Action
after_call none actions later = then_rows actions later
after_call (some e) actions later = (err e, actions)

-- The rest of the loop after the row's difference was computed, or failed.
abbrev pub on_delta :
    String → Turn → Result (Unit {0}) × List Action → Result ℕ → Result (Unit {0}) × List Action
on_delta mode t later (err e) = (err e, [])
on_delta mode t later (ok delta) = after_call t.raised (slept delta ∷ call_of mode t.row) later

module _ (parse_time : String → Option ℕ) where
  -- datetime.datetime.strptime
  unfoldable pub strptime : Option String → Result ℕ
  strptime none = err type_error
  strptime (some s) = elim (parse_time s) [ none ↦ err value_error | some t ↦ ok t ]

  -- time.sleep of a difference; a negative one raises ValueError.
  abbrev pub sleep_for : ℕ → ℕ → Result ℕ
  sleep_for curr pre = if leb pre curr then ok (curr - pre) else err value_error

  -- How long a row waits. `timestamp_pre` is none before the first row, where it is 0.
  unfoldable pub delta_of : Option (Option String) → Option String → Result ℕ
  unfolding strptime
  delta_of none timestamp_curr = ok 0
  delta_of (some timestamp_pre) timestamp_curr =
      strptime timestamp_curr >>= λ curr. strptime timestamp_pre >>= sleep_for curr

  unfoldable pub replay_rows :
      String → List Turn → Option (Option String) → Result (Unit {0}) × List Action
  unfolding delta_of call_of
  replay_rows mode [] timestamp_pre = (ok tt, [])
  replay_rows mode (t ∷ turns) timestamp_pre =
      let later = replay_rows mode turns (some t.row.timestamp) in
      on_delta mode t later (delta_of timestamp_pre t.row.timestamp)

  -- The part of the script after the connection; then the process ends with the status 1.
  unfoldable pub replay : Option String → List Turn → Outcome × List Action
  unfolding replay_rows
  replay none turns = (wrong_attributes, [])
  replay (some mode) turns =
      if mode == "Set" || mode == "SetGet"
      then (outcome_of (replay_rows mode turns none).0, (replay_rows mode turns none).1)
      else (wrong_attributes, [])
