-- ===== src/Feeder/Receive/Discipline.antt =====
-- The order of what the receiver asks of the client: nothing is sent before the datapoints are
-- checked, and they are checked again after a lost connection.
use kuksa_val_feeders.Feeder
use kuksa_val_feeders.Feeder.{
  Action, checked, disconnected, reported, updated, Feeder, register_datapoints,
}
use kuksa_val_feeders.Prelude.{
  Bool, Bool-cases, List, Option, String, [], false, inl, inr, leb, none, not, refl, some, suc,
  true, ◌&&◌, ◌*◌, ◌++◌, ◌∷◌, ◌≡◌, ap, sym, ◌∙◌, arith, if_holds,
}
use kuksa_val_feeders.Feeder.Receive.{
  Receiver, count_message, process_queue, send_datapoint, Turn, connected_turn, Event, on_event,
  read, reader_round, receive, run, stop_requested, turn, wait_for_client,
}
use kuksa_val_feeders.Python.Value.{Value}
use kuksa_val_feeders.Reader.{Round}
use kuksa_val_feeders.Feeder.Receive.Cases.{process_queue_holds}

-- Whether the actions keep that order, where `registered` says that the last check succeeded and
-- the client was not found disconnected since.
abbrev pub allowed : Bool → List Action → Bool
allowed registered [] = true
allowed registered (disconnected ∷ actions) = allowed false actions
allowed registered (checked passed ∷ actions) = not registered && allowed passed actions
allowed registered (updated target value ∷ actions) = registered && allowed registered actions
allowed registered (reported n ∷ actions) = allowed registered actions

-- A step that sends only, and leaves the feeder registered.
abbrev Sends : List Action × Receiver → Type 0
Sends (actions, st) =
    (st.feeder.registered ≡ true)
    × ((rest : List Action) → allowed true (actions ++ rest) ≡ allowed true rest)

send_datapoint-Sends :
    (target : String) (value : Value) (answer : Option Bool) (st : Receiver)
    → st.feeder.registered ≡ true
    → Sends (send_datapoint target value answer st)
unfolding send_datapoint count_message
send_datapoint-Sends target value none st on = (on, λ rest. refl)
send_datapoint-Sends target value (some false) st on = (on, λ rest. refl)
send_datapoint-Sends target value (some true) st on =
    elim (Bool-cases (leb (2 * st.last_sent_log_entry) (suc st.messages_sent))) [
      | inl due ↦ rw due (on, λ rest. refl)
      | inr early ↦ rw early (on, λ rest. refl)
    ]

module _ (evaluate : Value → Value → Option Value) where
  process_queue-Sends :
      (answer : Option Bool) (st : Receiver)
      → st.feeder.registered ≡ true
      → Sends (process_queue evaluate answer st)
  process_queue-Sends answer st on =
      process_queue_holds evaluate Sends answer st (λ st' s. (s.registered ∙ on, λ rest. refl))
        (λ target value st' s. send_datapoint-Sends target value answer st' (s.registered ∙ on))

  -- A step from any state keeps the order, and says whether the feeder is registered after it.
  abbrev KeepsOrder : Bool → List Action × Receiver → Type 0
  KeepsOrder registered (actions, st) =
      (rest : List Action)
      → allowed registered (actions ++ rest) ≡ allowed st.feeder.registered rest

  Sends-order : (s : List Action × Receiver) → Sends s → KeepsOrder true s
  Sends-order s (on, h) rest = h rest ∙ ap (λ b. allowed b rest) (sym on)

  abbrev registered_again : Receiver → Receiver
  registered_again st = record st {
    feeder = record (st.feeder) { registered = true; disconnect_rounds = 0 };
  }

  queue_order :
      (answer : Option Bool) (st : Receiver)
      → KeepsOrder true (process_queue evaluate answer (registered_again st))
  queue_order answer st =
      Sends-order (process_queue evaluate answer (registered_again st))
        (process_queue-Sends answer (registered_again st) refl)

  connected_turn_order :
      (t : Turn) (st : Receiver) → KeepsOrder st.feeder.registered (connected_turn evaluate t st)
  unfolding connected_turn Feeder.stop
  connected_turn_order t st =
      if_holds (KeepsOrder st.feeder.registered) st.feeder.registered
        (λ on. rw on (queue_order t.answer st))
        (λ off.
          if_holds (KeepsOrder st.feeder.registered)
            (register_datapoints t.is_signal_defined (record (st.feeder) { disconnect_rounds = 0 }))
            (λ passed. rw off (queue_order t.answer st)) (λ failed rest. rw off refl))

  turn_order : (t : Turn) (st : Receiver) → KeepsOrder st.feeder.registered (turn evaluate t st)
  unfolding turn wait_for_client
  turn_order t st =
      if_holds (KeepsOrder st.feeder.registered) st.feeder.running
        (λ on.
          if_holds (KeepsOrder st.feeder.registered) t.connected (λ up. connected_turn_order t st)
            (λ lost rest. refl))
        (λ off rest. refl)

  round_order : (e : Round) (f : Feeder) → (reader_round e f).registered ≡ f.registered
  unfolding reader_round
  round_order e f = ground arith

  on_event_order :
      (e : Event) (st : Receiver) → KeepsOrder st.feeder.registered (on_event evaluate e st)
  unfolding on_event Feeder.stop
  on_event_order (receive t) st rest = turn_order t st rest
  on_event_order (read e) st rest = ap (λ b. allowed b rest) (sym (round_order e st.feeder))
  on_event_order stop_requested st rest = refl

  -- In every run of the feeder, in which iterations of the receiver follow rounds of the reader and
  -- calls of stop in any order, the receiver sends a datapoint only when the last check of the
  -- datapoints succeeded and the client was not found disconnected since, and it does not check
  -- again before that happens.
  pub run-allowed :
      (events : List Event) (st : Receiver)
      → allowed st.feeder.registered (run evaluate events st).0 ≡ true
  unfolding run
  run-allowed [] st = refl
  run-allowed (e ∷ events) st =
      on_event_order e st (run evaluate events (on_event evaluate e st).1).0
      ∙ run-allowed events (on_event evaluate e st).1
