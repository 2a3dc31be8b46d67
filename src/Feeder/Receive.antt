-- ===== src/Feeder/Receive.antt =====
-- Feeder._run_receiver of dbc2val/dbcfeeder.py: one iteration of its loop, and the runs of the
-- feeder in which iterations, rounds of the reader's thread and stop follow each other.
pub mod Cases
pub mod Discipline
pub mod Counter
pub mod Drain
pub mod Sent
pub mod Kept
pub mod Origin
pub mod Resolved
use kuksa_val_feeders.Feeder.{
  Action, Feeder, disconnected, checked, updated, reported, register_datapoints,
}
use kuksa_val_feeders.Feeder
use kuksa_val_feeders.Prelude.{
  Bool, List, Option, String, [], false, get_elem?, if◌then◌else◌, leb, length, ltb, none, some,
  suc, true, ℕ, ◌*◌, ◌++◌, ◌∷◌,
}
use kuksa_val_feeders.Mapper.{Mapper, Ref, get_dbc2vss_mapping, update}
use kuksa_val_feeders.Reader.{Round, rx_worker}
use kuksa_val_feeders.Python.Value.{Value, end, is_none}
use kuksa_val_feeders.Mapping.{VssObservation, change_condition_fulfilled, transform_value}
use kuksa_val_feeders.Python.Errors.{err, ok}

pub record Receiver : Type 0 where
  pub feeder : Feeder
  pub processing_started : Bool
  pub messages_sent : ℕ
  pub last_sent_log_entry : ℕ
  pub queue_max_size : ℕ

-- The thread with the local variables of the method as it begins.
unfoldable pub new_receiver : Feeder → Receiver
new_receiver f = record {
  feeder = f;
  processing_started = false;
  messages_sent = 0;
  last_sent_log_entry = 0;
  queue_max_size = 0;
}

-- What an iteration meets. `answer` is what update_datapoint returns, none where it raises.
pub record Turn : Type 0 where
  pub connected : Bool
  pub is_signal_defined : String → Bool
  pub answer : Option Bool

-- not connected: 25 times 0.2 is the first sum of 0.2 that is more than 5
unfoldable pub wait_for_client : Feeder → Feeder
wait_for_client f = record f {
  registered = false;
  disconnect_rounds = if ltb f.disconnect_rounds 24 then suc f.disconnect_rounds else 0;
}

-- A message was sent: it is counted, and 1, 2, 4, 8, … messages are reported.
unfoldable pub count_message : Receiver → List Action × Receiver
count_message st =
    let n = suc st.messages_sent in
    if leb (2 * st.last_sent_log_entry) n
    then (reported n ∷ [], record st { messages_sent = n; last_sent_log_entry = n })
    else ([], record st { messages_sent = n })

unfoldable pub send_datapoint : String → Value → Option Bool → Receiver → List Action × Receiver
unfolding count_message
send_datapoint target value answer st =
    let (actions, st') = elim answer as (λ _. List Action × Receiver) [
      | none ↦ ([], st)
      | some success ↦ if success then count_message st else ([], st)
    ] in
    (updated target value ∷ actions, st')

-- The value that the mapping behind `r` makes of an observation, if its change condition lets it
-- pass; an exception of the transform is caught.
unfoldable pub value_to_send :
    (Value → Value → Option Value) → VssObservation → Ref → Mapper → Option Value × Mapper
unfolding transform_value change_condition_fulfilled update
value_to_send evaluate obs r m = elim (get_elem? m.objects r) [
  | none ↦ (none, m)
  | some o ↦ elim (transform_value evaluate o obs.raw_value) [
    | err e ↦ (none, m)
    | ok value ↦
        if is_none value
        then (none, m)
        else let (fulfilled, o') = change_condition_fulfilled value o in
          (if fulfilled then some value else none, update r (λ _. o') m)
  ]
]

abbrev pub put_mapper : Mapper → Receiver → Receiver
put_mapper m st = record st { feeder = record (st.feeder) { mapper = some m } }

unfoldable pub send_value : String → Option Value → Option Bool → Receiver → List Action × Receiver
unfolding send_datapoint
send_value target none answer st = ([], st)
send_value target (some value) answer st = send_datapoint target value answer st

-- An observation that was taken off the queue, with the mapping that was found for it. None for
-- that is an AttributeError, which is caught.
unfoldable pub apply_mapping :
    (Value → Value → Option Value)
    → VssObservation
    → Option Bool
    → Mapper
    → Option Ref
    → Receiver
    → List Action × Receiver
unfolding send_value value_to_send
apply_mapping evaluate obs answer m none st = ([], st)
apply_mapping evaluate obs answer m (some r) st =
    let (value, m') = value_to_send evaluate obs r m in
    send_value obs.vss_name value answer (put_mapper m' st)

unfoldable pub process_observation :
    (Value → Value → Option Value)
    → VssObservation
    → Option Bool
    → Option Mapper
    → Receiver
    → List Action × Receiver
unfolding apply_mapping
process_observation evaluate obs answer none st = ([], st)
process_observation evaluate obs answer (some m) st =
    apply_mapping evaluate obs answer m (get_dbc2vss_mapping obs.dbc_name obs.vss_name m) st

-- What happens before the queue is asked.
unfoldable pub note_queue_size : Receiver → Receiver
note_queue_size st =
    let size = length st.feeder.queue in
    record st {
      processing_started = true;
      queue_max_size = if ltb st.queue_max_size size then size else st.queue_max_size;
    }

abbrev pub set_queue : List VssObservation → Receiver → Receiver
set_queue queue st = record st { feeder = record (st.feeder) { queue = queue } }

unfoldable pub take_from :
    (Value → Value → Option Value)
    → Option Bool
    → List VssObservation
    → Receiver
    → List Action × Receiver
unfolding process_observation
take_from evaluate answer [] st = ([], st)
take_from evaluate answer (obs ∷ queue) st =
    process_observation evaluate obs answer st.feeder.mapper (set_queue queue st)

-- The part inside `try`. An empty queue is queue.Empty after a second.
unfoldable pub process_queue :
    (Value → Value → Option Value) → Option Bool → Receiver → List Action × Receiver
unfolding take_from note_queue_size
process_queue evaluate answer st = take_from evaluate answer st.feeder.queue (note_queue_size st)

abbrev pub put : Feeder → Receiver → Receiver
put f st = record st { feeder = f }

abbrev preceded_by : Action → List Action × Receiver → List Action × Receiver
preceded_by a (actions, st) = (a ∷ actions, st)

-- An iteration of a connected receiver.
unfoldable pub connected_turn :
    (Value → Value → Option Value) → Turn → Receiver → List Action × Receiver
unfolding process_queue register_datapoints Feeder.stop
connected_turn evaluate t st =
    let f = record (st.feeder) { disconnect_rounds = 0 } in
    if f.registered
    then process_queue evaluate t.answer (put f st)
    else if register_datapoints t.is_signal_defined f
    then preceded_by (checked true)
        (process_queue evaluate t.answer (put (record f { registered = true }) st))
    else (checked false ∷ [], put (Feeder.stop f) st)

-- One iteration of the loop. Once `running` is false the thread has ended.
unfoldable pub turn : (Value → Value → Option Value) → Turn → Receiver → List Action × Receiver
unfolding connected_turn wait_for_client
turn evaluate t st =
    if st.feeder.running
    then if t.connected
      then connected_turn evaluate t st
      else (disconnected ∷ [], put (wait_for_client st.feeder) st)
    else ([], st)

-- A round of the reader's thread, on the mapper and the queue that it shares.
unfoldable pub reader_round : Round → Feeder → Feeder
unfolding rx_worker
reader_round e f = elim f.mapper [
  | none ↦ f
  | some m ↦ elim f.reader_running [
    | none ↦ f
    | some b ↦
        let r = rx_worker (e ∷ []) (record { running = b; mapper = m; queue = f.queue }) in
        record f { reader_running = some r.running; mapper = some r.mapper; queue = r.queue }
  ]
]

-- What the threads do, one after the other: the iterations and rounds of a run do not overlap in
-- the model. stop comes from the signal handler of main.
pub data Event : Type 0 where
  receive : Turn → Event
  read : Round → Event
  stop_requested : Event

unfoldable pub on_event : (Value → Value → Option Value) → Event → Receiver → List Action × Receiver
unfolding turn reader_round Feeder.stop
on_event evaluate (receive t) st = turn evaluate t st
on_event evaluate (read e) st = ([], put (reader_round e st.feeder) st)
on_event evaluate stop_requested st = ([], put (Feeder.stop st.feeder) st)

unfoldable pub run : (Value → Value → Option Value) → List Event → Receiver → List Action × Receiver
unfolding on_event
run evaluate [] st = ([], st)
run evaluate (e ∷ events) st =
    let (actions, st') = on_event evaluate e st in
    let (later_actions, final) = run evaluate events st' in (actions ++ later_actions, final)
