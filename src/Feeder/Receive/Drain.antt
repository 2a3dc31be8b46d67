-- ===== src/Feeder/Receive/Drain.antt =====
-- The receiver gets through its queue, whatever the client answers.
use kuksa_val_feeders.Feeder.{Action}
use kuksa_val_feeders.Prelude.{
  All, Bool, List, Option, String, [], ap, arith, false, if_holds, leb, length, none, some, suc,
  true, ◌*◌, ◌∙◌, ◌∷◌, ◌≡◌, ◌≤◌, ℕ,
}
use kuksa_val_feeders.Feeder.Receive.{
  Event, Receiver, Turn, connected_turn, count_message, on_event, process_queue, put, receive, run,
  send_datapoint, turn,
}
use kuksa_val_feeders.Feeder.Receive.Cases.{HasTaken, process_queue_holds, tail}
use kuksa_val_feeders.Python.Value.{Value}
use kuksa_val_feeders.Mapping.{VssObservation}

abbrev pub receives : List Turn → List Event
receives [] = []
receives (t ∷ turns) = receive t ∷ receives turns

length-tail : (xs : List VssObservation) (n : ℕ) → length xs ≤ suc n → length (tail xs) ≤ n
length-tail [] n h = omega arith
length-tail (x ∷ xs) n h = omega (arith, h)

-- The receiver runs and is registered, and `queue` is what it has to process.
pub record Waits (queue : List VssObservation) (st : Receiver) : Type 0 where
  pub running : st.feeder.running ≡ true
  pub registered : st.feeder.registered ≡ true
  pub waiting : st.feeder.queue ≡ queue

abbrev pub WaitsAfter : List VssObservation → List Action × Receiver → Type 0
WaitsAfter queue (actions, st) = Waits queue st

count_message-Waits :
    (queue : List VssObservation) (st : Receiver)
    → Waits queue st
    → WaitsAfter queue (count_message st)
unfolding count_message
count_message-Waits queue st w =
    if_holds (WaitsAfter queue) (leb (2 * st.last_sent_log_entry) (suc st.messages_sent))
      (λ due. record { running = w.running; registered = w.registered; waiting = w.waiting })
      (λ early. record { running = w.running; registered = w.registered; waiting = w.waiting })

send_datapoint-Waits :
    (queue : List VssObservation) (target : String) (value : Value) (answer : Option Bool)
    (st : Receiver)
    → Waits queue st
    → WaitsAfter queue (send_datapoint target value answer st)
unfolding send_datapoint
send_datapoint-Waits queue target value none st w = w
send_datapoint-Waits queue target value (some false) st w = w
send_datapoint-Waits queue target value (some true) st w = count_message-Waits queue st w

module _ (evaluate : Value → Value → Option Value) where
  process_queue-Waits :
      (queue : List VssObservation) (answer : Option Bool) (st : Receiver)
      → Waits queue st
      → WaitsAfter (tail queue) (process_queue evaluate answer st)
  process_queue-Waits queue answer st w =
      process_queue_holds evaluate (WaitsAfter (tail queue)) answer st (λ st' h. after st' h)
        (λ target value st' h.
          send_datapoint-Waits (tail queue) target value answer st' (after st' h))
    where
      after : (st' : Receiver) → HasTaken st st' → Waits (tail queue) st'
      after st' h = record {
        running = h.running ∙ w.running;
        registered = h.registered ∙ w.registered;
        waiting = h.queue ∙ ap tail w.waiting;
      }

  turn-Waits :
      (queue : List VssObservation) (t : Turn) (st : Receiver)
      → t.connected ≡ true
      → Waits queue st
      → WaitsAfter (tail queue) (turn evaluate t st)
  unfolding turn connected_turn
  turn-Waits queue t st up w =
      if_holds (WaitsAfter (tail queue)) st.feeder.running
        (λ on.
          if_holds (WaitsAfter (tail queue)) t.connected
            (λ connected.
              if_holds (WaitsAfter (tail queue)) st.feeder.registered
                (λ known.
                  process_queue-Waits queue t.answer
                    (put (record (st.feeder) { disconnect_rounds = 0 }) st)
                    (record {
                      running = w.running;
                      registered = w.registered;
                      waiting = w.waiting;
                    }))
                (λ unknown. cc (unknown, w.registered)))
            (λ lost. cc (lost, up)))
        (λ off. cc (off, w.running))

  -- While the client stays connected, every iteration of a registered receiver takes one
  -- observation, also where its mapping is missing, its transform or the client raises, or the
  -- client refuses the value: as many iterations as observations empty the queue, and the receiver
  -- still runs.
  pub run-empties :
      (queue : List VssObservation) (turns : List Turn) (st : Receiver)
      → All (λ (t : Turn). t.connected ≡ true) turns
      → Waits queue st
      → length queue ≤ length turns
      → WaitsAfter [] (run evaluate (receives turns) st)
  unfolding run on_event
  run-empties [] [] st connected w enough = w
  run-empties (obs ∷ queue) [] st connected w enough = ground (arith, enough)
  run-empties queue (t ∷ turns) st (up, connected) w enough =
      run-empties (tail queue) turns (turn evaluate t st).1 connected (turn-Waits queue t st up w)
        (length-tail queue (length turns) enough)
