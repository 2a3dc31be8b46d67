-- ===== src/Dds/Kml.antt =====
-- dds2val/kml/dds_kmlreplay.py: the publisher of the positions of a KML file.
-- `parse_float` is float() for a text, none where it raises ValueError. The data are the texts of
-- the coordinates, as read_kml_file gives them.
pub mod Cycle
use kuksa_val_feeders.Prelude.{
  List, Option, String, [], get_elem?, if◌then◌else◌, length, none, some, ℕ, ◌%◌, ◌+◌, ◌==◌, ◌∷◌,
  suc, text_eq, nat_eq,
}
use kuksa_val_feeders.Python.Errors.{
  Result, err, index_error, ok, value_error, zero_division_error, ◌>>=◌,
}
use kuksa_val_feeders.Python.Text.{split_on}
use kuksa_val_feeders.Python.Value.{Value}

-- sensor_msgs.msg.NavSatFix without its constants; the header's text is that of a counter.
pub record Position : Type 0 where
  pub latitude : Value
  pub longitude : Value
  pub altitude : Value

pub record NavSatFix : Type 0 where
  pub sec : ℕ
  pub frame_id : ℕ
  pub position : Position

module _ (parse_float : String → Option Value) where
  unfoldable pub float_of : String → Result Value
  float_of text = elim (parse_float text) [ none ↦ err value_error | some v ↦ ok v ]

  -- latitude, longitutde, altitude = text.split(","); other numbers of parts raise ValueError.
  unfoldable pub position_of : List String → Result Position
  unfolding float_of
  position_of (latitude ∷ longitutde ∷ altitude ∷ []) = float_of latitude >>= λ lat.
      float_of longitutde >>= λ lon.
      float_of altitude >>= λ alt. ok (record { latitude = lat; longitude = lon; altitude = alt })
  position_of _ = err value_error

  -- The message of a round, at a time.
  unfoldable pub sat_fix : List String → ℕ → ℕ → Result NavSatFix
  unfolding position_of split_on
  sat_fix coordinates ctr sec = elim (get_elem? coordinates ctr) [
    | none ↦ err index_error
    | some text ↦ position_of (split_on b',' text) >>= λ position.
        ok (record { sec = sec; frame_id = ctr; position = position })
  ]

  abbrev pub after_message :
      Result NavSatFix → Result (Unit {0}) × List NavSatFix → Result (Unit {0}) × List NavSatFix
  after_message (err e) rest = (err e, [])
  after_message (ok message) (result, later) = (result, message ∷ later)

  -- run, for rounds at some times
  unfoldable pub run : List String → List ℕ → ℕ → Result (Unit {0}) × List NavSatFix
  unfolding sat_fix
  run coordinates [] ctr = (ok tt, [])
  run coordinates (sec ∷ secs) ctr =
      after_message (sat_fix coordinates ctr sec)
        (run coordinates secs (suc ctr % length coordinates))
