-- ===== src/Feeder/Transmit/Signals.antt =====
-- The first two loops of _vss_update, for one update of a VSS signal that is mapped to one CAN signal.
-- What goes to the bus, and how _vss_update ends.
use kuksa_val_feeders.Feeder.Transmit.{
  EntryUpdate, Transmitter, canids_for_signals, handle_updates, on_mapper, send_frames, vss_update,
}
use kuksa_val_feeders.Dbc.Lookup.{IsCoherent, get_canid_for_signal_fst}
use kuksa_val_feeders.Prelude.{
  List, Option, String, [], ap, get_elem?, none, set, some, ℕ, ◌∙◌, ◌∷◌, ◌≡◌, text_eq, nat_eq,
}
use kuksa_val_feeders.Mapper.{Mapper, Ref, handle_update, store_dbc_values}
use kuksa_val_feeders.Python.Errors.{Result, ok}
use kuksa_val_feeders.Python.Value.{Value}
use kuksa_val_feeders.Mapping.{VssMapping, transform_value}
use kuksa_val_feeders.Python.Dict.{add, add_all, lookup}
use kuksa_val_feeders.Python.Run.{bind_ok, pure, ◌>>=◌}
use kuksa_val_feeders.Dbc.{find_signal, get_canid_for_signal}
use kuksa_val_feeders.Mapper.Update.{store_dbc_value_ok, store_dbc_values-cons, with_dbc_value}

abbrev pub outcome : Result (Unit {0}) × Transmitter → Result (Unit {0}) × List (ℕ × List ℕ)
outcome (result, st) = (result, st.frames)

-- The one update of a VSS signal.
abbrev pub target_update : String → Value → List EntryUpdate
target_update path target = record { path = path; value = none; actuator_target = some target } ∷ []

module _ (evaluate : Value → Value → Option Value) (path : String) (q : Ref) (o : VssMapping)
    (target w : Value) where
  -- What the mapper holds of the signal: its one mapping, whose transform gives `w`, and the frame
  -- of the CAN signal, none where no message has the signal.
  pub record Stores (id : Option ℕ) (m : Mapper) : Type 0 where
    pub coherent : IsCoherent m.parser
    pub listed : lookup path m.vss2dbc_mapping ≡ some (q ∷ [])
    pub at_ref : get_elem? m.objects q ≡ some o
    pub transformed : transform_value evaluate o target ≡ ok w
    pub in_frame : find_signal o.dbc_name m.parser.db.messages ≡ id

  abbrev pub updated_mapper : Mapper → Mapper
  updated_mapper m = record m { objects = set m.objects q (with_dbc_value o w) }

  -- The mapper once the frame of the signal was looked up.
  abbrev pub after_lookups : Mapper → Mapper
  after_lookups m = record (updated_mapper m) {
    parser = (get_canid_for_signal o.dbc_name m.parser).1;
  }

  -- The transmitter with the mapper that the lookups leave, before anything is sent.
  abbrev pub before_sending : Mapper → List (ℕ × List ℕ) → Transmitter
  before_sending m frames = record { mapper = after_lookups m; frames = frames }

  module _ (id : Option ℕ) (m : Mapper) (h : Stores id m) where
    handles : handle_update evaluate path target m ≡ (ok (o.dbc_name ∷ []), updated_mapper m)
    unfolding handle_update store_dbc_values pure add
    handles =
        let step = store_dbc_value_ok evaluate q target [] m o w h.at_ref h.transformed in
        rw (h.listed, handle_update)
          (store_dbc_values-cons evaluate q [] target [] m (o.dbc_name ∷ [])
              (ap (λ (s : Result (List String) × Mapper). s.0) step)
            ∙ ap (λ (s : Result (List String) × Mapper). (ok (o.dbc_name ∷ []), s.1)) step)

    handles_all :
        handle_updates evaluate (target_update path target) [] m
        ≡ (ok (o.dbc_name ∷ []), updated_mapper m)
    unfolding handle_updates ◌>>=◌ pure add_all add
    handles_all =
        rw (handles, handle_updates, ◌>>=◌)
          (ap (λ (s : Result (List String) × Mapper). (ok (o.dbc_name ∷ []), s.1)) handles)

    canid : (get_canid_for_signal o.dbc_name m.parser).0 ≡ id
    canid = get_canid_for_signal_fst m.parser h.coherent o.dbc_name ∙ h.in_frame

    canids : canids_for_signals (o.dbc_name ∷ []) [] (updated_mapper m) ≡ (id ∷ [], after_lookups m)
    unfolding canids_for_signals add
    canids = ap (λ a. (a ∷ [], after_lookups m)) canid

    pub up_to_sending :
        (frames : List (ℕ × List ℕ))
        → vss_update evaluate (target_update path target) (record { mapper = m; frames = frames })
          ≡ send_frames (id ∷ []) (before_sending m frames)
    unfolding vss_update on_mapper
    up_to_sending frames = bind_ok _ _ _ (handled frames) ∙ bind_ok _ _ _ (found frames)
      where
        handled :
            (frames : List (ℕ × List ℕ))
            → on_mapper
                (handle_updates evaluate (target_update path target) [])
                (record { mapper = m; frames = frames })
              ≡ (ok (o.dbc_name ∷ []), record { mapper = updated_mapper m; frames = frames })
        handled frames =
            ap
              (λ (s : Result (List String) × Mapper).
                (s.0, record { mapper = s.1; frames = frames }))
              handles_all

        found :
            (frames : List (ℕ × List ℕ))
            → on_mapper
                (λ m'. let (ids, m'') = canids_for_signals (o.dbc_name ∷ []) [] m' in (ok ids, m''))
                (record { mapper = updated_mapper m; frames = frames })
              ≡ (ok (id ∷ []), before_sending m frames)
        found frames =
            ap
              (λ (s : List (Option ℕ) × Mapper). (ok s.0, record { mapper = s.1; frames = frames }))
              canids
