-- ===== src/Reader/Origin.antt =====
-- The observations in the queue come from frames.
use mathlib.Core.List.{Mem, mem-cons_of_mem, mem-cons_self}
use kuksa_val_feeders.Prelude.{
  All, All-append, All-weaken, Bool-cases, List, Option, Option-cases, String, [], ap, get_elem?,
  if_holds, if◌then◌else◌, arith, inl, inr, none, refl, some, sym, ℕ, ◌∙◌, ◌∷◌, ◌≡◌, text_eq,
  nat_eq,
}
use kuksa_val_feeders.Dbc.{Message, get_message_for_canid}
use kuksa_val_feeders.Mapper.{Mapper, Ref, get_dbc2vss_mappings}
use kuksa_val_feeders.Mapper.Alike.{Alike, Alike-update, AlikeObjects}
use kuksa_val_feeders.Mapping.{VssMapping, VssObservation, time_condition_fulfilled}
use kuksa_val_feeders.Python.Dict.{Dict}
use kuksa_val_feeders.Python.Value.{Value}
use kuksa_val_feeders.Reader.{
  Frame, Reader, Round, observation, on_round, process_can_message, queue_mapping, queue_mappings,
  queue_signals, rx_worker, stop,
}
use kuksa_val_feeders.Reader.Queue.{
  queue_mapping_dangling, queue_mapping_due, queue_mapping_early, time_condition_vss_name,
}

pub All-Mem {ℓ} : {A : Type ℓ} (xs : List A) → All (λ x. Mem x xs) xs
All-Mem [] = tt
All-Mem (x ∷ xs) = (mem-cons_self, All-weaken _ _ xs (λ y h. mem-cons_of_mem x h) (All-Mem xs))

time_condition_transform :
    (t : ℕ) (o : VssMapping) → (time_condition_fulfilled t o).1.transform ≡ o.transform
unfolding time_condition_fulfilled
time_condition_transform t o = ground arith

passed-AlikeObjects :
    (rx_time : ℕ) (o : VssMapping) → AlikeObjects o (time_condition_fulfilled rx_time o).1
passed-AlikeObjects rx_time o = record {
  vss_name = time_condition_vss_name rx_time o;
  transform = time_condition_transform rx_time o;
}

-- `m0` is the mapper at the beginning, and `Arrived` holds of the frames that came.
module _ (m0 : Mapper) (Arrived : Frame → Type 0) where
  -- The observation has the raw value of its signal in a frame that came, which the message of the
  -- frame's ID decodes, and the time of the frame.
  pub record FromFrame (obs : VssObservation) : Type 0 where
    pub frame : Frame
    pub arrived : Arrived frame
    pub message : Message
    pub known : get_message_for_canid frame.frame_id m0.parser ≡ some message
    pub decoded_values : Dict String Value
    pub decoded : message.decode frame.payload ≡ some decoded_values
    pub observed : Mem (obs.dbc_name, obs.raw_value) decoded_values
    pub received_at : obs.time ≡ frame.rx_time

  -- The mapper is as at the beginning up to the state of its conditions, and the queue has only
  -- observations from frames.
  pub record Traced (m : Mapper) (queue : List VssObservation) : Type 0 where
    pub alike : Alike m0 m
    pub origins : All FromFrame queue

  abbrev pub IsTraced : Reader → Type 0
  IsTraced st = Traced st.mapper st.queue

  -- Whatever mapping it is for, an observation of this value comes from a frame.
  abbrev Observes : String → Value → ℕ → Type 0
  Observes signal_name raw_value rx_time =
      (o : VssMapping) → FromFrame (observation signal_name raw_value rx_time o)

  module _ (signal_name : String) (raw_value : Value) (rx_time : ℕ)
      (observes : Observes signal_name raw_value rx_time) where
    queue_mapping-IsTraced :
        (r : Ref) (st : Reader)
        → IsTraced st
        → IsTraced (queue_mapping signal_name raw_value rx_time r st)
    queue_mapping-IsTraced r st h = elim (Option-cases (get_elem? st.mapper.objects r)) [
      | inl absent ↦ rw (queue_mapping_dangling signal_name raw_value rx_time r st absent) h
      | inr (o, found) ↦
          let alike =
            Alike-update r o (time_condition_fulfilled rx_time o).1 m0 st.mapper found
              (passed-AlikeObjects rx_time o) h.alike in
          elim (Bool-cases (time_condition_fulfilled rx_time o).0) [
            | inl due ↦
                rw (queue_mapping_due signal_name raw_value rx_time r o st found due) (record {
                  alike = alike;
                  origins = All-append FromFrame st.queue _ h.origins (observes o, tt);
                })
            | inr early ↦
                rw (queue_mapping_early signal_name raw_value rx_time r o st found early)
                  (record { alike = alike; origins = h.origins })
          ]
    ]

    queue_mappings-IsTraced :
        (refs : List Ref) (st : Reader)
        → IsTraced st
        → IsTraced (queue_mappings signal_name raw_value rx_time refs st)
    unfolding queue_mappings
    queue_mappings-IsTraced [] st h = h
    queue_mappings-IsTraced (r ∷ refs) st h =
        queue_mappings-IsTraced refs (queue_mapping signal_name raw_value rx_time r st)
          (queue_mapping-IsTraced r st h)

  abbrev ObservesItem : ℕ → String × Value → Type 0
  ObservesItem rx_time (signal_name, raw_value) = Observes signal_name raw_value rx_time

  queue_signals-IsTraced :
      (decode : Dict String Value) (rx_time : ℕ) (st : Reader)
      → All (ObservesItem rx_time) decode
      → IsTraced st
      → IsTraced (queue_signals decode rx_time st)
  unfolding queue_signals
  queue_signals-IsTraced [] rx_time st observes h = h
  queue_signals-IsTraced ((signal_name, raw_value) ∷ decode) rx_time st observes h =
      let listing = get_dbc2vss_mappings signal_name st.mapper in
      queue_signals-IsTraced decode rx_time
        (queue_mappings signal_name raw_value rx_time listing st) observes.1
        (queue_mappings-IsTraced signal_name raw_value rx_time observes.0 listing st h)

  process_can_message-IsTraced :
      (f : Frame) (st : Reader)
      → Arrived f
      → IsTraced st
      → IsTraced (process_can_message f.frame_id f.payload f.rx_time st)
  unfolding process_can_message
  process_can_message-IsTraced f st came h =
      elim (Option-cases (get_message_for_canid f.frame_id st.mapper.parser)) [
        | inl unknown ↦ rw (unknown, process_can_message) h
        | inr (message, known) ↦ elim (Option-cases (message.decode f.payload)) [
          | inl failed ↦ rw (known, process_can_message) (rw failed h)
          | inr (values, decoded) ↦
              rw (known, process_can_message)
                (rw decoded (
                  queue_signals-IsTraced values f.rx_time st
                    (All-weaken _ _ values
                      (λ (signal_name, raw_value) value_in o. record {
                        frame = f;
                        arrived = came;
                        message = message;
                        known = ap (get_message_for_canid f.frame_id) (sym h.alike.parser) ∙ known;
                        decoded_values = values;
                        decoded = decoded;
                        observed = value_in;
                        received_at = refl;
                      })
                      (All-Mem values))
                    h))
        ]
      ]

  -- The frame of a round, if one comes.
  abbrev pub ArrivedIn : Round → Type 0
  ArrivedIn e = (f : Frame) → e.received ≡ some f → Arrived f

  after_stop-IsTraced :
      (received : Option Frame) (st : Reader)
      → ((f : Frame) → received ≡ some f → Arrived f)
      → IsTraced st
      → IsTraced (elim received as (λ _. Reader) [
        | none ↦ st
        | some f ↦ process_can_message f.frame_id f.payload f.rx_time st
      ])
  after_stop-IsTraced none st came h = h
  after_stop-IsTraced (some f) st came h = process_can_message-IsTraced f st (came f refl) h

  on_round-IsTraced :
      (e : Round) (st : Reader) → ArrivedIn e → IsTraced st → IsTraced (on_round e st)
  unfolding on_round stop
  on_round-IsTraced e st came h =
      after_stop-IsTraced e.received (if e.stopped then stop st else st) came
        (if_holds IsTraced e.stopped (λ yes_stop. h) (λ no_stop. h))

  pub rx_worker-IsTraced :
      (rounds : List Round) (st : Reader)
      → All ArrivedIn rounds
      → IsTraced st
      → IsTraced (rx_worker rounds st)
  unfolding rx_worker
  rx_worker-IsTraced [] st came h = h
  rx_worker-IsTraced (e ∷ rounds) st came h =
      if_holds IsTraced st.running
        (λ on. rx_worker-IsTraced rounds (on_round e st) came.1 (on_round-IsTraced e st came.0 h))
        (λ off. h)
