-- ===== src/Feeder/Receive/Sent.antt =====
-- What the receiver sends, and that it gets through its queue.
use kuksa_val_feeders.Feeder.{Action, updated, register_datapoints}
use kuksa_val_feeders.Prelude.{
  Bool, List, Option, Option-cases, arith, false, get_elem?, if◌then◌else◌, inl, inr, none, some,
  true, ◌∷◌, ◌≡◌, Bool-cases, ap, sym, ◌∙◌, All, String, if_holds, leb, suc, ◌*◌, refl, [],
}
use kuksa_val_feeders.Mapper.{Mapper, Ref, get_dbc2vss_mapping, update}
use kuksa_val_feeders.Python.Errors.{Result-cases, ok, Error, err}
use kuksa_val_feeders.Python.Value.{Value, is_none}
use kuksa_val_feeders.Mapping.{
  VssMapping, VssObservation, change_condition_fulfilled, is_change, transform_value,
}
use kuksa_val_feeders.Feeder.Receive.{
  value_to_send, Receiver, apply_mapping, count_message, process_observation, send_datapoint,
  send_value, Turn, connected_turn, process_queue, put, put_mapper, turn, note_queue_size,
  set_queue, take_from,
}

-- The datapoint that an observation gives: its mapping is found and takes it to a value that is
-- there and that passes the change condition.
pub record Gives (evaluate : Value → Value → Option Value) (m : Mapper) (obs : VssObservation)
    (value : Value) : Type 0 where
  pub ref : Ref
  pub object : VssMapping
  pub found : get_dbc2vss_mapping obs.dbc_name obs.vss_name m ≡ some ref
  pub at_ref : get_elem? m.objects ref ≡ some object
  pub transformed : transform_value evaluate object obs.raw_value ≡ ok value
  pub present : is_none value ≡ false
  pub change : is_change value object ≡ true

module _ (evaluate : Value → Value → Option Value) where
  -- Where a sent datapoint comes from: the oldest observation of the queue.
  abbrev pub FromQueue : Option Mapper → List VssObservation → Action → Type 0
  FromQueue mapper queue (updated target value) =
      (obs : VssObservation) × (rest : List VssObservation) × (m : Mapper) × (queue ≡ obs ∷ rest)
      × (mapper ≡ some m)
      × (target ≡ obs.vss_name)
      × Gives evaluate m obs value
  FromQueue mapper queue _ = Unit

  change_condition_fst :
      (v : Value) (o : VssMapping) → (change_condition_fulfilled v o).0 ≡ is_change v o
  unfolding change_condition_fulfilled
  change_condition_fst v o = ground arith

  if_some : (b : Bool) (v w : Value) → (if b then some v else none) ≡ some w → (b ≡ true) × (v ≡ w)
  if_some b v w h = ground (arith, h)

  -- value_to_send, by what is behind the reference and what the transform answers.
  module _ (obs : VssObservation) (r : Ref) (m : Mapper) where
    pub value_to_send_dangling :
        get_elem? m.objects r ≡ none → value_to_send evaluate obs r m ≡ (none, m)
    unfolding value_to_send
    value_to_send_dangling absent = rw (absent, value_to_send)

    module _ (o : VssMapping) (at_r : get_elem? m.objects r ≡ some o) where
      pub value_to_send_err :
          (e : Error)
          → transform_value evaluate o obs.raw_value ≡ err e
          → value_to_send evaluate obs r m ≡ (none, m)
      unfolding value_to_send
      value_to_send_err e raised = rw (at_r, value_to_send) (rw raised)

      pub value_to_send_null :
          (v : Value)
          → transform_value evaluate o obs.raw_value ≡ ok v
          → is_none v ≡ true
          → value_to_send evaluate obs r m ≡ (none, m)
      unfolding value_to_send
      value_to_send_null v result null_value = rw (at_r, value_to_send) (rw result (rw null_value))

      pub value_to_send_value :
          (v : Value)
          → transform_value evaluate o obs.raw_value ≡ ok v
          → is_none v ≡ false
          → value_to_send evaluate obs r m ≡ (
            if (change_condition_fulfilled v o).0 then some v else none,
            update r (λ _. (change_condition_fulfilled v o).1) m,
          )
      unfolding value_to_send
      value_to_send_value v result present = rw (at_r, value_to_send) (rw result (rw present))

  abbrev sent_part : Option Value × Mapper → Option Value
  sent_part (v, m) = v

  -- A value to send comes from a mapping that gives it.
  value_to_send-some :
      (obs : VssObservation) (r : Ref) (m : Mapper) (v : Value)
      → get_dbc2vss_mapping obs.dbc_name obs.vss_name m ≡ some r
      → (value_to_send evaluate obs r m).0 ≡ some v
      → Gives evaluate m obs v
  value_to_send-some obs r m v found h = elim (Option-cases (get_elem? m.objects r)) [
    | inl absent ↦ cc (ap sent_part (value_to_send_dangling obs r m absent), h)
    | inr (o, at_r) ↦ elim (Result-cases (transform_value evaluate o obs.raw_value)) [
      | inl (value, result) ↦ elim (Bool-cases (is_none value)) [
        | inl null_value ↦
            cc (ap sent_part (value_to_send_null obs r m o at_r value result null_value), h)
        | inr present ↦
            let (change, same) =
              if_some (change_condition_fulfilled value o).0 value v (
                sym (ap sent_part (value_to_send_value obs r m o at_r value result present)) ∙ h) in
            record {
              ref = r;
              object = o;
              found = found;
              at_ref = at_r;
              transformed = result ∙ ap ok same;
              present = ap is_none (sym same) ∙ present;
              change =
                  ap (λ x. is_change x o) (sym same)
                  ∙ (sym (change_condition_fst value o) ∙ change);
            }
      ]
      | inr (e, raised) ↦ cc (ap sent_part (value_to_send_err obs r m o at_r e raised), h)
    ]
  ]

  -- One step.
  count_message-FromQueue :
      (mapper : Option Mapper) (queue : List VssObservation) (st : Receiver)
      → All (FromQueue mapper queue) (count_message st).0
  unfolding count_message
  count_message-FromQueue mapper queue st =
      if_holds (λ (s : List Action × Receiver). All (FromQueue mapper queue) s.0)
        (leb (2 * st.last_sent_log_entry) (suc st.messages_sent)) (λ due. (tt, tt)) (λ early. tt)

  send_datapoint-FromQueue :
      (mapper : Option Mapper) (queue : List VssObservation) (target : String) (value : Value)
      (answer : Option Bool) (st : Receiver)
      → FromQueue mapper queue (updated target value)
      → All (FromQueue mapper queue) (send_datapoint target value answer st).0
  unfolding send_datapoint
  send_datapoint-FromQueue mapper queue target value none st h = (h, tt)
  send_datapoint-FromQueue mapper queue target value (some false) st h = (h, tt)
  send_datapoint-FromQueue mapper queue target value (some true) st h =
      (h, count_message-FromQueue mapper queue st)

  process_observation-FromQueue :
      (obs : VssObservation) (rest : List VssObservation) (answer : Option Bool)
      (mapper : Option Mapper) (st : Receiver)
      → All (FromQueue mapper (obs ∷ rest)) (process_observation evaluate obs answer mapper st).0
  unfolding process_observation apply_mapping send_value
  process_observation-FromQueue obs rest answer none st = tt
  process_observation-FromQueue obs rest answer (some m) st =
      elim (Option-cases (get_dbc2vss_mapping obs.dbc_name obs.vss_name m)) [
        | inl unknown ↦ rw unknown tt
        | inr (r, found) ↦ rw found (by_value r found _ refl)
      ]
    where
      by_value :
          (r : Ref)
          → get_dbc2vss_mapping obs.dbc_name obs.vss_name m ≡ some r
          → (v : Option Value) → (value_to_send evaluate obs r m).0 ≡ v
          → All
              (FromQueue (some m) (obs ∷ rest))
              (send_value obs.vss_name v answer
                (put_mapper (value_to_send evaluate obs r m).1 st)).0
      by_value r found none is_none = tt
      by_value r found (some v) is_v =
          send_datapoint-FromQueue (some m) (obs ∷ rest) obs.vss_name v answer _
            (obs, rest, m, refl, refl, refl, value_to_send-some obs r m v found is_v)

  abbrev AllFromQueue : Receiver → List Action × Receiver → Type 0
  AllFromQueue st (actions, st') = All (FromQueue st.feeder.mapper st.feeder.queue) actions

  process_queue-FromQueue :
      (answer : Option Bool) (st : Receiver)
      → All (FromQueue st.feeder.mapper st.feeder.queue) (process_queue evaluate answer st).0
  unfolding process_queue
  process_queue-FromQueue answer st = by_queue st.feeder.queue
    where
      by_queue :
          (queue : List VssObservation)
          → All
              (FromQueue st.feeder.mapper queue)
              (take_from evaluate answer queue (note_queue_size st)).0
      by_queue [] = tt
      by_queue (obs ∷ rest) =
          process_observation-FromQueue obs rest answer st.feeder.mapper
            (set_queue rest (note_queue_size st))

  -- A datapoint that an iteration sends is the oldest observation of the queue: its target is the
  -- VSS name of the observation, and its value is what the mapping of that name and that CAN signal
  -- makes of the raw value, is not None, and passes the change condition of the mapping.
  pub turn-FromQueue :
      (t : Turn) (st : Receiver)
      → All (FromQueue st.feeder.mapper st.feeder.queue) (turn evaluate t st).0
  unfolding turn connected_turn
  turn-FromQueue t st =
      if_holds (AllFromQueue st) st.feeder.running
        (λ on.
          if_holds (AllFromQueue st) t.connected
            (λ up.
              if_holds (AllFromQueue st) st.feeder.registered
                (λ known.
                  process_queue-FromQueue t.answer
                    (put (record (st.feeder) { disconnect_rounds = 0 }) st))
                (λ unknown.
                  if_holds (AllFromQueue st)
                    (register_datapoints t.is_signal_defined
                      (record (st.feeder) { disconnect_rounds = 0 }))
                    (λ passed. (
                      tt,
                      process_queue-FromQueue t.answer (
                          put (record (st.feeder) { registered = true; disconnect_rounds = 0 }) st),
                    ))
                    (λ failed. (tt, tt))))
            (λ lost. (tt, tt)))
        (λ off. tt)
