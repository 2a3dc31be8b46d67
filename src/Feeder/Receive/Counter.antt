-- ===== src/Feeder/Receive/Counter.antt =====
-- The status messages of the receiver: after 1, 2, 4, 8, … messages.
use kuksa_val_feeders.Feeder.{Action, reported, register_datapoints}
use kuksa_val_feeders.Prelude.{
  All, List, false, if_holds, leb, suc, true, ◌*◌, Bool, Option, String, [], none, some, All-append,
  ◌∷◌,
}
use kuksa_val_feeders.Feeder.Receive.{
  Receiver, count_message, send_datapoint, Event, Turn, connected_turn, on_event, process_queue,
  put, read, receive, run, stop_requested, turn,
}
use kuksa_val_feeders.Python.Value.{Value}
use kuksa_val_feeders.Prelude.{CountedTo, IsPowerOfTwo, due_report, early_report, power_counted}
use kuksa_val_feeders.Feeder.Receive.Cases.{process_queue_holds}

abbrev pub Counted : Receiver → Type 0
Counted st = CountedTo st.messages_sent st.last_sent_log_entry

-- A status message gives a power of two.
abbrev pub IsPowerReport : Action → Type 0
IsPowerReport (reported n) = IsPowerOfTwo n
IsPowerReport _ = Unit

abbrev pub Counts : List Action × Receiver → Type 0
Counts (actions, st) = All IsPowerReport actions × Counted st

count_message-Counts : (st : Receiver) → Counted st → Counts (count_message st)
unfolding count_message
count_message-Counts st h =
    if_holds Counts (leb (2 * st.last_sent_log_entry) (suc st.messages_sent))
      (λ due.
        let (k, power) = due_report st.messages_sent st.last_sent_log_entry h due in
        (((k, power), tt), power_counted st.messages_sent k power))
      (λ early. (tt, early_report st.messages_sent st.last_sent_log_entry h early))

send_datapoint-Counts :
    (target : String) (value : Value) (answer : Option Bool) (st : Receiver)
    → Counted st
    → Counts (send_datapoint target value answer st)
unfolding send_datapoint
send_datapoint-Counts target value none st h = ((tt, tt), h)
send_datapoint-Counts target value (some false) st h = ((tt, tt), h)
send_datapoint-Counts target value (some true) st h =
    let (reports, h') = count_message-Counts st h in ((tt, reports), h')

module _ (evaluate : Value → Value → Option Value) where
  process_queue-Counts :
      (answer : Option Bool) (st : Receiver)
      → Counted st
      → Counts (process_queue evaluate answer st)
  process_queue-Counts answer st h =
      process_queue_holds evaluate Counts answer st
        (λ st' s. (tt, rw (s.messages_sent, s.last_sent_log_entry) h))
        (λ target value st' s.
          send_datapoint-Counts target value answer st'
            (rw (s.messages_sent, s.last_sent_log_entry) h))

  turn-Counts : (t : Turn) (st : Receiver) → Counted st → Counts (turn evaluate t st)
  unfolding turn connected_turn
  turn-Counts t st h =
      if_holds Counts st.feeder.running
        (λ on.
          if_holds Counts t.connected
            (λ up.
              if_holds Counts st.feeder.registered
                (λ known.
                  process_queue-Counts t.answer
                    (put (record (st.feeder) { disconnect_rounds = 0 }) st) h)
                (λ unknown.
                  if_holds Counts
                    (register_datapoints t.is_signal_defined
                      (record (st.feeder) { disconnect_rounds = 0 }))
                    (λ passed.
                      let (reports, h') =
                        process_queue-Counts t.answer
                          (put (record (st.feeder) { registered = true; disconnect_rounds = 0 }) st)
                          h in
                      ((tt, reports), h'))
                    (λ failed. ((tt, tt), h))))
            (λ lost. ((tt, tt), h)))
        (λ off. (tt, h))

  on_event-Counts : (e : Event) (st : Receiver) → Counted st → Counts (on_event evaluate e st)
  unfolding on_event
  on_event-Counts (receive t) st h = turn-Counts t st h
  on_event-Counts (read e) st h = (tt, h)
  on_event-Counts stop_requested st h = (tt, h)

  -- The receiver reports the number of messages sent only when it is a power of two, and the number
  -- of its last report is always the largest power of two that was reached: from a thread that has
  -- sent nothing, or that satisfies this, every run has only such reports and ends with this.
  pub run-Counted :
      (events : List Event) (st : Receiver) → Counted st → Counts (run evaluate events st)
  unfolding run
  run-Counted [] st h = (tt, h)
  run-Counted (e ∷ events) st h =
      let (reports, h') = on_event-Counts e st h in
      let (later_reports, h'') = run-Counted events (on_event evaluate e st).1 h' in
      (
        All-append IsPowerReport (on_event evaluate e st).0
            (run evaluate events (on_event evaluate e st).1).0 reports later_reports,
        h'',
      )
