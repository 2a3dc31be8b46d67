-- ===== src/Feeder/Transmit/Target.antt =====
-- From a target value of a VSS signal to the frame that is sent.
use kuksa_val_feeders.Prelude.{
  All-weaken, Bool-cases, List, Option, Option-cases, String, [], ap, arith, contains, false,
  get_elem?, get_elem?-set, inl, inr, nat_beq_iff, none, refl, some, sym, true, ℕ, ◌++◌, ◌==◌, ◌∙◌,
  ◌∷◌, ◌≡◌, text_eq, nat_eq,
}
use kuksa_val_feeders.Dbc.{Database, Message, Parser, get_message_for_canid, get_signals_for_canid}
use kuksa_val_feeders.Python.Dict.{Dict, beq_refl, lookup}
use kuksa_val_feeders.Mapper.{Mapper, Ref, get_default_values, get_value_dict, overlay}
use kuksa_val_feeders.Mapper.ValueDict.{
  OnlyRef, get_value_dict-of_refs, latest-OnlyRef, lookup-overlay,
}
use kuksa_val_feeders.Python.Errors.{Result, err, library_error, ok}
use kuksa_val_feeders.Feeder.Transmit.Signals.{
  Stores, before_sending, outcome, target_update, up_to_sending, after_lookups,
}
use kuksa_val_feeders.Feeder.Transmit.{
  Transmitter, on_mapper, send_frame, send_frames, send_message, vss_update,
}
use kuksa_val_feeders.Python.Value.{Value, is_none}
use kuksa_val_feeders.Mapping.{VssMapping}
use kuksa_val_feeders.Python.Run.{bind_err, bind_ok, pure}
use kuksa_val_feeders.Mapper.WellFormed.{get_canid_for_signal_db}
use kuksa_val_feeders.Mapper.Update.{with_dbc_value}

get_signals_for_canid_db : (c : ℕ) (p : Parser) → (get_signals_for_canid c p).1.db ≡ p.db
unfolding get_signals_for_canid
get_signals_for_canid_db c p = ground arith

get_value_dict_db : (c : ℕ) (m : Mapper) → (get_value_dict c m).1.parser.db ≡ m.parser.db
unfolding get_value_dict get_default_values
get_value_dict_db c m = elim (Option-cases (lookup c m.vss2dbc_can_id_mapping)) [
  | inl absent ↦ rw (absent, get_value_dict) (get_signals_for_canid_db c m.parser)
  | inr (refs, there) ↦ rw (there, get_value_dict) (get_signals_for_canid_db c m.parser)
]

-- A VSS signal that is mapped to one CAN signal, which lies in a frame.
module _ (evaluate : Value → Value → Option Value) (path : String) (q : Ref) (o : VssMapping)
    (target w : Value) (c : ℕ) (msg : Message) (can_refs : List Ref) where
  -- What the mapper holds of the signal and of the frame.
  pub record MapsTo (m : Mapper) : Type 0 where
    pub stores : Stores evaluate path q o target w (some c) m
    pub present : is_none w ≡ false
    pub known : m.parser.db.message_by_frame_id c ≡ some msg
    pub frame_listed : lookup c m.vss2dbc_can_id_mapping ≡ some can_refs
    pub there : contains can_refs q ≡ true
    pub only : OnlyRef m.objects o.dbc_name q can_refs

  abbrev looked_up : Mapper → Mapper
  looked_up m = after_lookups evaluate path q o target w m

  abbrev before : Mapper → List (ℕ × List ℕ) → Transmitter
  before m frames = before_sending evaluate path q o target w m frames

  -- What the transmitter is left with, by what the encoding answers.
  abbrev pub sent_frame :
      List (ℕ × List ℕ) → Option (List ℕ) → Result (Unit {0}) × List (ℕ × List ℕ)
  sent_frame frames none = (err library_error, frames)
  sent_frame frames (some payload) = (ok tt, frames ++ ((msg.frame_id, payload) ∷ []))

  module _ (m : Mapper) (h : MapsTo m) where
    only_after : OnlyRef (looked_up m).objects o.dbc_name q can_refs
    only_after = All-weaken _ _ can_refs one h.only
      where
        one :
            (r : Ref)
            → ((p : VssMapping) → get_elem? m.objects r ≡ some p → p.dbc_name ≡ o.dbc_name → r ≡ q)
            → (p : VssMapping) → get_elem? (looked_up m).objects r ≡ some p
            → p.dbc_name ≡ o.dbc_name
            → r ≡ q
        one r only p at_r named = elim (Bool-cases (q == r)) [
          | inl same ↦ sym ((nat_beq_iff q r).0 same)
          | inr other ↦
              only p
                (ground (
                  arith,
                  get_elem?-set m.objects q r (with_dbc_value o w) h.stores.at_ref,
                  at_r,
                  other,
                ))
                named
        ]

    stored : get_elem? (looked_up m).objects q ≡ some (with_dbc_value o w)
    stored = get_elem?-set m.objects q q (with_dbc_value o w) h.stores.at_ref ∙ rw (beq_refl q) refl

    values :
        (d : Dict String Value) × ((get_value_dict c (looked_up m)).0 ≡ ok d)
        × (lookup o.dbc_name d ≡ some w)
    values =
        let defaults = (get_default_values c (looked_up m)).0 in
        (
          overlay (looked_up m).objects can_refs defaults,
          get_value_dict-of_refs evaluate c can_refs (looked_up m) h.frame_listed,
          lookup-overlay (looked_up m).objects can_refs defaults o.dbc_name
              ∙ latest-OnlyRef (looked_up m).objects q (with_dbc_value o w) stored can_refs _
                  only_after h.there h.present,
        )

    message_known : get_message_for_canid c (get_value_dict c (looked_up m)).1.parser ≡ some msg
    unfolding get_message_for_canid
    message_known =
        ap (λ (db : Database). db.message_by_frame_id c)
          (get_value_dict_db c (looked_up m) ∙ get_canid_for_signal_db o.dbc_name m.parser)
        ∙ h.known

    module _ (frames : List (ℕ × List ℕ)) (d : Dict String Value)
        (dict : (get_value_dict c (looked_up m)).0 ≡ ok d) where
      abbrev with_values : Transmitter
      with_values = record { mapper = (get_value_dict c (looked_up m)).1; frames = frames }

      sends_message : send_frame (some c) (before m frames) ≡ send_message msg d with_values
      unfolding send_frame on_mapper
      sends_message =
          bind_ok (on_mapper (get_value_dict c)) _ (before m frames)
            (ap (λ r. (r, with_values)) dict)
          ∙ rw message_known refl

      message_fails :
          msg.encode d ≡ none → send_message msg d with_values ≡ (err library_error, with_values)
      unfolding send_message
      message_fails failed = rw (failed, send_message) refl

      message_sent :
          (payload : List ℕ)
          → msg.encode d ≡ some payload
          → send_message msg d with_values
            ≡ (ok tt, record with_values { frames = frames ++ ((msg.frame_id, payload) ∷ []) })
      unfolding send_message
      message_sent payload encoded = rw (encoded, send_message) refl

      sends :
          outcome (send_frames (some c ∷ []) (before m frames)) ≡ sent_frame frames (msg.encode d)
      unfolding send_frames pure
      sends = elim (Option-cases (msg.encode d)) [
        | inl failed ↦ rw failed (
            ap outcome (
              bind_err (send_frame (some c)) _ (before m frames)
                (sends_message ∙ message_fails failed)))
        | inr (payload, encoded) ↦ rw encoded (
            ap outcome (
              bind_ok (send_frame (some c)) _ (before m frames)
                (sends_message ∙ message_sent payload encoded)))
      ]

    -- A target value that reaches a VSS signal which is mapped to one CAN signal of one frame: the
    -- dictionary that is encoded has the transformed value for that CAN signal, and exactly one
    -- frame goes to the bus, with the frame ID of the message definition and the encoded values,
    -- or, where the encoding raises, none and the exception goes on. The parser's caches must be
    -- coherent, the transform must give a value that is not None, and no other mapping may write
    -- the same CAN signal in the frame.
    pub vss_update_target :
        (frames : List (ℕ × List ℕ))
        → (d : Dict String Value) × (lookup o.dbc_name d ≡ some w)
          × (outcome (
                vss_update evaluate
                  (target_update path target)
                  (record { mapper = m; frames = frames }))
              ≡ sent_frame frames (msg.encode d))
    vss_update_target frames =
        let (d, dict, has_value) = values in
        (
          d,
          has_value,
          ap outcome (up_to_sending evaluate path q o target w (some c) m h.stores frames)
              ∙ sends frames d dict,
        )
