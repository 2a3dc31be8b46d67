-- ===== src/Examples/Route.antt =====
-- An instance for the replay of a KML file with two positions.
use kuksa_val_feeders.Prelude.{
  List, Option, String, [], arith, if◌then◌else◌, map, some, ℕ, ◌==◌, ◌∷◌, ◌≡◌, text_eq, nat_eq,
}
use kuksa_val_feeders.Prelude.Int.{pos}
use kuksa_val_feeders.Dds.Kml.{NavSatFix, Position, float_of, position_of}
use kuksa_val_feeders.Dds.Kml
use kuksa_val_feeders.Dds.Kml.Cycle.{Reads, fixes_from, run-fixes_from}
use kuksa_val_feeders.Python.Errors.{ok}
use kuksa_val_feeders.Python.Value.{Value, int}
use kuksa_val_feeders.Python.Text.{split_on}

abbrev parse_float : String → Option Value
parse_float s =
    if s == "9"
    then some (int (pos 9))
    else if s == "52"
    then some (int (pos 52))
    else some (int (pos 0))

abbrev position_at : ℕ → ℕ → Position
position_at latitude longitude = record {
  latitude = int (pos latitude);
  longitude = int (pos longitude);
  altitude = int (pos 0);
}

abbrev route : List Position
route = position_at 9 52 ∷ position_at 52 9 ∷ []

route-Reads : Reads parse_float ("9,52,0" ∷ "52,9,0" ∷ []) route
unfolding position_of float_of split_on
route-Reads = ground arith

run-fixes_from_example :
    ((Kml.run parse_float ("9,52,0" ∷ "52,9,0" ∷ []) (5 ∷ 6 ∷ 7 ∷ []) 0).0 ≡ ok tt)
    × (map some (Kml.run parse_float ("9,52,0" ∷ "52,9,0" ∷ []) (5 ∷ 6 ∷ 7 ∷ []) 0).1
        ≡ fixes_from route 0 (5 ∷ 6 ∷ 7 ∷ []))
run-fixes_from_example =
    run-fixes_from parse_float ("9,52,0" ∷ "52,9,0" ∷ []) route (5 ∷ 6 ∷ 7 ∷ []) route-Reads
      (omega arith)
