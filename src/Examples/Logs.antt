-- ===== src/Examples/Logs.antt =====
-- An instance for the replay: a value is set, read 3 microseconds later, and set again.
use kuksa_val_feeders.Prelude.{
  All, List, Option, String, [], if◌then◌else◌, none, refl, some, ℕ, ◌==◌, ◌∷◌, ◌≡◌, arith, text_eq,
  nat_eq,
}
use kuksa_val_feeders.Replay.{Row, replay, successful, value_got, value_set, call_of}
use kuksa_val_feeders.Replay.Timed.{IsLogged, Logged, played, replay-calls_after, timed_calls}

abbrev parse_time : String → Option ℕ
parse_time s = if s == "one" then some 1 else if s == "four" then some 4 else none

abbrev row_of : String → String → Row
row_of timestamp action = record {
  timestamp = some timestamp;
  action = some action;
  path = some "Speed";
  value = some "10";
}

abbrev log : List Logged
log = (row_of "four" "get", 4) ∷ (row_of "four" "set", 4) ∷ []

log-IsLogged : All (IsLogged parse_time) ((row_of "one" "set", 1) ∷ log)
log-IsLogged = ground arith

replay-calls_after_example :
    ((replay parse_time (some "SetGet") (played ((row_of "one" "set", 1) ∷ log))).0 ≡ successful)
    × (timed_calls (replay parse_time (some "SetGet") (played ((row_of "one" "set", 1) ∷ log))).1 0
        ≡ (0, value_set (some "Speed") (some "10"))
          ∷ (3, value_got (some "Speed"))
          ∷ (3, value_set (some "Speed") (some "10"))
          ∷ [])
unfolding call_of
replay-calls_after_example =
    replay-calls_after parse_time "SetGet" (row_of "one" "set", 1) log refl log-IsLogged
      (ground arith)
