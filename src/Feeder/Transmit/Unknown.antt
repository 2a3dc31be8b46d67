-- ===== src/Feeder/Transmit/Unknown.antt =====
-- A VSS signal whose CAN signal no message of the database has.
use kuksa_val_feeders.Prelude.{List, Option, String, ap, none, refl, ℕ, ◌∙◌, ◌≡◌}
use kuksa_val_feeders.Mapper.{Mapper, Ref}
use kuksa_val_feeders.Feeder.Transmit.Signals.{
  Stores, before_sending, outcome, target_update, up_to_sending,
}
use kuksa_val_feeders.Python.Value.{Value}
use kuksa_val_feeders.Mapping.{VssMapping}
use kuksa_val_feeders.Python.Run.{bind_err, raise}
use kuksa_val_feeders.Python.Errors.{err, type_error}
use kuksa_val_feeders.Feeder.Transmit.{send_frame, send_frames, vss_update}

module _ (evaluate : Value → Value → Option Value) (path : String) (q : Ref) (o : VssMapping)
    (target w : Value) where
  -- For a VSS signal that is mapped to a CAN signal which the database lacks, which _analyze_vss2dbc
  -- only logs, a target value makes _vss_update raise TypeError and send nothing.
  pub vss_update_unknown :
      (m : Mapper) (frames : List (ℕ × List ℕ))
      → Stores evaluate path q o target w none m
      → outcome
          (vss_update evaluate (target_update path target) (record { mapper = m; frames = frames }))
        ≡ (err type_error, frames)
  unfolding send_frames send_frame raise
  vss_update_unknown m frames h = ap outcome (
      up_to_sending evaluate path q o target w none m h frames
      ∙ bind_err (send_frame none) _ (before_sending evaluate path q o target w m frames) refl)
