-- ===== src/Feeder/Receive/Kept.antt =====
-- What the receiver and the reader's thread keep of the mapper and the queue that they share.
use mathlib.Core.Path.{subst}
use kuksa_val_feeders.Feeder.{Action, Feeder, register_datapoints}
use kuksa_val_feeders.Prelude.{
  Bool, Bool-cases, List, Option, Option-cases, String, [], arith, get_elem?, if_holds, inl, inr,
  leb, none, refl, some, suc, sym, true, false, ◌*◌, ◌∷◌, ◌≡◌,
}
use kuksa_val_feeders.Feeder.Receive.{
  Receiver, Turn, apply_mapping, connected_turn, count_message, note_queue_size,
  process_observation, process_queue, put, put_mapper, reader_round, send_datapoint, send_value,
  set_queue, take_from, turn, value_to_send, wait_for_client,
}
use kuksa_val_feeders.Mapper.{Mapper, Ref, get_dbc2vss_mapping, update}
use kuksa_val_feeders.Mapper.Alike.{AlikeObjects}
use kuksa_val_feeders.Python.Errors.{Result-cases}
use kuksa_val_feeders.Reader.{Reader, Round, rx_worker}
use kuksa_val_feeders.Python.Value.{Value, is_none}
use kuksa_val_feeders.Mapping.{
  VssMapping, VssObservation, change_condition_fulfilled, transform_value,
}
use kuksa_val_feeders.Feeder.Receive.Sent.{
  value_to_send_dangling, value_to_send_err, value_to_send_null, value_to_send_value,
}

change_condition-AlikeObjects :
    (v : Value) (o : VssMapping) → AlikeObjects o (change_condition_fulfilled v o).1
unfolding change_condition_fulfilled
change_condition-AlikeObjects v o = record { vss_name = ground arith; transform = ground arith }

-- Something that holds of a mapper and a queue; before start there is no mapper.
abbrev pub HoldsOf :
    (Mapper → List VssObservation → Type 0) → Option Mapper → List VssObservation → Type 0
HoldsOf Holds none queue = Unit
HoldsOf Holds (some m) queue = Holds m queue

abbrev pub HoldsIn : (Mapper → List VssObservation → Type 0) → Receiver → Type 0
HoldsIn Holds st = HoldsOf Holds st.feeder.mapper st.feeder.queue

-- It stays where an observation is taken off the queue, and where the state of a condition changes.
pub record IsKept (Holds : Mapper → List VssObservation → Type 0) : Type 0 where
  pub taken :
      (m : Mapper) (obs : VssObservation) (queue : List VssObservation)
      → Holds m (obs ∷ queue)
      → Holds m queue
  pub changed :
      (r : Ref) (o o' : VssMapping) (m : Mapper) (queue : List VssObservation)
      → get_elem? m.objects r ≡ some o
      → AlikeObjects o o'
      → Holds m queue
      → Holds (update r (λ _. o') m) queue

module _ (evaluate : Value → Value → Option Value) (Holds : Mapper → List VssObservation → Type 0)
    (kept : IsKept Holds) where
  abbrev After : List Action × Receiver → Type 0
  After (actions, st) = HoldsIn Holds st

  -- A step that leaves mapper and queue alone.
  count_message-After : (st : Receiver) → HoldsIn Holds st → After (count_message st)
  unfolding count_message
  count_message-After st h =
      if_holds After (leb (2 * st.last_sent_log_entry) (suc st.messages_sent)) (λ due. h)
        (λ early. h)

  send_value-After :
      (target : String) (value : Option Value) (answer : Option Bool) (st : Receiver)
      → HoldsIn Holds st
      → After (send_value target value answer st)
  unfolding send_value send_datapoint
  send_value-After target none answer st h = h
  send_value-After target (some v) none st h = h
  send_value-After target (some v) (some false) st h = h
  send_value-After target (some v) (some true) st h = count_message-After st h

  value_to_send-Holds :
      (obs : VssObservation) (r : Ref) (m : Mapper) (queue : List VssObservation)
      → Holds m queue
      → Holds (value_to_send evaluate obs r m).1 queue
  value_to_send-Holds obs r m queue h = elim (Option-cases (get_elem? m.objects r)) [
    | inl absent ↦ rw (value_to_send_dangling evaluate obs r m absent) h
    | inr (o, at_r) ↦ elim (Result-cases (transform_value evaluate o obs.raw_value)) [
      | inl (value, result) ↦ elim (Bool-cases (is_none value)) [
        | inl null_value ↦ rw (value_to_send_null evaluate obs r m o at_r value result null_value) h
        | inr present ↦ rw (value_to_send_value evaluate obs r m o at_r value result present) (
            kept.changed r o (change_condition_fulfilled value o).1 m queue at_r
              (change_condition-AlikeObjects value o) h)
      ]
      | inr (e, raised) ↦ rw (value_to_send_err evaluate obs r m o at_r e raised) h
    ]
  ]

  apply_mapping-After :
      (obs : VssObservation) (answer : Option Bool) (m : Mapper) (r : Option Ref) (st : Receiver)
      → st.feeder.mapper ≡ some m
      → Holds m st.feeder.queue
      → After (apply_mapping evaluate obs answer m r st)
  unfolding apply_mapping
  apply_mapping-After obs answer m none st is_m h =
      subst (λ p. HoldsOf Holds p st.feeder.queue) (sym is_m) h
  apply_mapping-After obs answer m (some r) st is_m h =
      send_value-After obs.vss_name (value_to_send evaluate obs r m).0 answer
        (put_mapper (value_to_send evaluate obs r m).1 st)
        (value_to_send-Holds obs r m st.feeder.queue h)

  process_observation-After :
      (obs : VssObservation) (answer : Option Bool) (mapper : Option Mapper) (st : Receiver)
      → st.feeder.mapper ≡ mapper
      → HoldsOf Holds mapper st.feeder.queue
      → After (process_observation evaluate obs answer mapper st)
  unfolding process_observation
  process_observation-After obs answer none st is_none h =
      subst (λ p. HoldsOf Holds p st.feeder.queue) (sym is_none) tt
  process_observation-After obs answer (some m) st is_m h =
      apply_mapping-After obs answer m (get_dbc2vss_mapping obs.dbc_name obs.vss_name m) st is_m h

  HoldsOf-tail :
      (mapper : Option Mapper) (obs : VssObservation) (queue : List VssObservation)
      → HoldsOf Holds mapper (obs ∷ queue)
      → HoldsOf Holds mapper queue
  HoldsOf-tail none obs queue h = tt
  HoldsOf-tail (some m) obs queue h = kept.taken m obs queue h

  take_from-After :
      (answer : Option Bool) (queue : List VssObservation) (st : Receiver)
      → HoldsOf Holds st.feeder.mapper queue
      → st.feeder.queue ≡ queue
      → After (take_from evaluate answer queue st)
  unfolding take_from
  take_from-After answer [] st h same = subst (HoldsOf Holds st.feeder.mapper) (sym same) h
  take_from-After answer (obs ∷ queue) st h same =
      process_observation-After obs answer st.feeder.mapper (set_queue queue st) refl
        (HoldsOf-tail st.feeder.mapper obs queue h)

  process_queue-After :
      (answer : Option Bool) (st : Receiver)
      → HoldsIn Holds st
      → After (process_queue evaluate answer st)
  unfolding process_queue note_queue_size
  process_queue-After answer st h =
      take_from-After answer st.feeder.queue (note_queue_size st) h refl

  pub turn-After : (t : Turn) (st : Receiver) → HoldsIn Holds st → After (turn evaluate t st)
  unfolding turn connected_turn wait_for_client
  turn-After t st h =
      if_holds After st.feeder.running
        (λ on.
          if_holds After t.connected
            (λ up.
              if_holds After st.feeder.registered
                (λ known.
                  process_queue-After t.answer
                    (put (record (st.feeder) { disconnect_rounds = 0 }) st) h)
                (λ unknown.
                  if_holds After
                    (register_datapoints t.is_signal_defined
                      (record (st.feeder) { disconnect_rounds = 0 }))
                    (λ passed.
                      process_queue-After t.answer
                        (put (record (st.feeder) { registered = true; disconnect_rounds = 0 }) st)
                        h)
                    (λ failed. h)))
            (λ lost. h))
        (λ off. h)

  -- A round of the reader's thread.
  pub reader_round-HoldsOf :
      (e : Round) (f : Feeder)
      → ((st : Reader)
          → Holds st.mapper st.queue
          → Holds (rx_worker (e ∷ []) st).mapper (rx_worker (e ∷ []) st).queue)
      → HoldsOf Holds f.mapper f.queue
      → HoldsOf Holds (reader_round e f).mapper (reader_round e f).queue
  unfolding reader_round
  reader_round-HoldsOf e f keeps h = elim (Option-cases f.mapper) [
    | inl no_mapper ↦ simp (no_mapper, reader_round) tt
    | inr (m, is_m) ↦ elim (Option-cases f.reader_running) [
      | inl no_reader ↦ simp (is_m, reader_round) (simp no_reader h)
      | inr (b, is_b) ↦
          simp (is_m, reader_round)
            (simp is_b (
              keeps (record { running = b; mapper = m; queue = f.queue })
                (subst (λ p. HoldsOf Holds p f.queue) is_m h)))
    ]
  ]
