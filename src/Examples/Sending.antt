-- ===== src/Examples/Sending.antt =====
-- Instances for the feeder.
use mathlib.Core.List.{Mem}
use kuksa_val_feeders.Prelude.{
  All, Bool, List, String, [], arith, false, inl, none, refl, some, true, ◌∷◌, ◌≡◌, text_eq, nat_eq,
}
use kuksa_val_feeders.Feeder.Receive.Counter.{Counts, run-Counted}
use kuksa_val_feeders.Python.Dict.{Dict, lookup}
use kuksa_val_feeders.Feeder.Receive.{
  Event, Receiver, Turn, receive, run, stop_requested, turn, read,
}
use kuksa_val_feeders.Feeder.{Feeder}
use kuksa_val_feeders.Feeder.Receive.Resolved.{ResolvedAfter, run-Resolved}
use kuksa_val_feeders.Reader.Queue.{Resolves}
use kuksa_val_feeders.Mapper.{Mapper, get_dbc2vss_mapping}
use kuksa_val_feeders.Feeder.Receive.Sent.{FromQueue, turn-FromQueue}
use kuksa_val_feeders.Feeder.Transmit.Target.{MapsTo, sent_frame, vss_update_target}
use kuksa_val_feeders.Feeder.Transmit.Signals.{Stores, outcome, target_update}
use kuksa_val_feeders.Python.Value.{Value, int}
use kuksa_val_feeders.Mapping.{VssObservation, transform_value}
use kuksa_val_feeders.Feeder.Receive.Drain.{WaitsAfter, receives, run-empties}
use kuksa_val_feeders.Feeder.Receive.Discipline.{allowed, run-allowed}
use kuksa_val_feeders.Examples.{
  door_message, encode, evaluate, lock, mapper, only_door, parser, parser-IsCoherent,
}
use kuksa_val_feeders.Dbc.{find_signal}
use kuksa_val_feeders.Examples.Tables.{only_lock}
use kuksa_val_feeders.Prelude.Int.{pos}
use kuksa_val_feeders.Feeder.Transmit.{vss_update}
use kuksa_val_feeders.Feeder.Transmit.Subscription.{
  run_subscribe, run_transmitter, second_passed, updates_received,
}
use kuksa_val_feeders.Feeder.Transmit.Subscription.Ends.{Idles, run_subscribe-unknown}
use kuksa_val_feeders.Feeder.Receive.Origin.{IsFromFrame, frames_of, run-FromFrames}
use kuksa_val_feeders.Reader.{Round}

abbrev observed : VssObservation
observed = record {
  dbc_name = "Speed";
  vss_name = "Vehicle.Speed";
  raw_value = int (pos 30);
  time = 1000;
}

abbrev feeder : Feeder
feeder = record {
  running = true;
  reader_running = some true;
  mapper = some mapper;
  registered = false;
  queue = observed ∷ [];
  client_running = true;
  disconnect_rounds = 0;
  dbc2val_enabled = true;
  val2dbc_enabled = true;
  canclient_running = none;
  transmit = false;
}

abbrev receiver : Receiver
receiver = record {
  feeder = feeder;
  processing_started = false;
  messages_sent = 0;
  last_sent_log_entry = 0;
  queue_max_size = 0;
}

abbrev registered_receiver : Receiver
registered_receiver = record receiver { feeder = record feeder { registered = true } }

abbrev always_defined : String → Bool
always_defined vss_name = true

abbrev good_turn : Turn
good_turn = record { connected = true; is_signal_defined = always_defined; answer = some true }

abbrev events : List Event
events = receive good_turn ∷ stop_requested ∷ receive good_turn ∷ []

run-allowed_example : allowed false (run evaluate events receiver).0 ≡ true
run-allowed_example = run-allowed evaluate events receiver

run-Counted_example : Counts (run evaluate events receiver)
run-Counted_example = run-Counted evaluate events receiver (inl (refl, refl))

turn-FromQueue_example :
    All (FromQueue evaluate (some mapper) (observed ∷ [])) (turn evaluate good_turn receiver).0
turn-FromQueue_example = turn-FromQueue evaluate good_turn receiver

run-empties_example : WaitsAfter [] (run evaluate (receives (good_turn ∷ [])) registered_receiver)
run-empties_example =
    run-empties evaluate (observed ∷ []) (good_turn ∷ []) registered_receiver (refl, tt)
      (record { running = refl; registered = refl; waiting = refl }) (omega arith)

observed-Resolves : All (Resolves mapper) (observed ∷ [])
unfolding get_dbc2vss_mapping lookup
observed-Resolves = ((0, refl), tt)

run-Resolved_example : ResolvedAfter (run evaluate events receiver)
run-Resolved_example = run-Resolved evaluate events receiver observed-Resolves

-- A frame comes and is taken from the queue.
abbrev frame_read : Round
frame_read = record {
  stopped = false;
  received = some (record { frame_id = 258; payload = 42 ∷ []; rx_time = 1000000 });
}

abbrev reading_receiver : Receiver
reading_receiver = record (receiver) {
  feeder = record (receiver.feeder) {
    queue = [];
    reader_running = some true;
    mapper = some mapper;
  };
}

run-FromFrames_example :
    All
      (IsFromFrame evaluate mapper
        (λ f. Mem f (frames_of (read frame_read ∷ receive good_turn ∷ []))))
      (run evaluate (read frame_read ∷ receive good_turn ∷ []) reading_receiver).0
run-FromFrames_example =
    run-FromFrames evaluate mapper (read frame_read ∷ receive good_turn ∷ []) reading_receiver refl
      refl

-- The door is locked through its VSS signal.
door-Stores : Stores evaluate "Vehicle.Lock" 1 lock (int (pos 1)) (int (pos 1)) (some 258) mapper
unfolding lookup transform_value find_signal
door-Stores = record {
  coherent = parser-IsCoherent;
  listed = refl;
  at_ref = refl;
  transformed = refl;
  in_frame = refl;
}

door_maps :
    MapsTo evaluate "Vehicle.Lock" 1 lock
      (int (pos 1))
      (int (pos 1))
      258
      door_message
      (1 ∷ [])
      mapper
unfolding lookup
door_maps = record {
  stores = door-Stores;
  present = refl;
  known = refl;
  frame_listed = refl;
  there = refl;
  only = only_lock;
}

vss_update_target_example :
    (d : Dict String Value) × (lookup "DoorLock" d ≡ some (int (pos 1)))
    × (outcome (
          vss_update evaluate
            (target_update "Vehicle.Lock" (int (pos 1)))
            (record { mapper = mapper; frames = [] }))
        ≡ sent_frame evaluate "Vehicle.Lock" 1 lock
            (int (pos 1))
            (int (pos 1))
            258
            door_message
            (1 ∷ [])
            []
            (encode d))
vss_update_target_example =
    vss_update_target evaluate "Vehicle.Lock" 1 lock (int (pos 1)) (int (pos 1)) 258 door_message
      (1 ∷ []) mapper door_maps []

-- The same with a database that lacks the message.
abbrev empty_mapper : Mapper
empty_mapper = record mapper {
  parser = record parser { db = record { messages = []; message_by_frame_id = only_door } };
}

unknown-Stores : Stores evaluate "Vehicle.Lock" 1 lock (int (pos 1)) (int (pos 1)) none empty_mapper
unfolding lookup transform_value find_signal
unknown-Stores = record {
  coherent = record { canids = λ s c h. ground arith; names = λ c l h. ground arith };
  listed = refl;
  at_ref = refl;
  transformed = refl;
  in_frame = refl;
}

run_subscribe-unknown_example : Idles [] (
    run_subscribe evaluate
      (updates_received (target_update "Vehicle.Lock" (int (pos 1)))
        ∷ second_passed
        ∷ updates_received (target_update "Vehicle.Lock" (int (pos 0)))
        ∷ [])
      (run_transmitter (record { mapper = empty_mapper; frames = [] })))
unfolding run_transmitter
run_subscribe-unknown_example =
    run_subscribe-unknown evaluate "Vehicle.Lock" 1 lock (int (pos 1)) (int (pos 1))
      (second_passed ∷ updates_received (target_update "Vehicle.Lock" (int (pos 0))) ∷ [])
      (run_transmitter (record { mapper = empty_mapper; frames = [] })) unknown-Stores refl refl
      refl (search tt)
