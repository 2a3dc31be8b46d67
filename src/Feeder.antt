-- ===== src/Feeder.antt =====
-- The class Feeder of dbc2val/dbcfeeder.py: its state, start, stop and the check of the datapoints.
-- The feeder and its reader share one mapper and one queue. What the client wrapper answers is
-- given to each step; what the feeder asks of it is recorded as an `Action`.
pub mod Receive
pub mod Transmit
use kuksa_val_feeders.Prelude.{
  Bool, List, Option, String, [], false, if◌then◌else◌, none, some, true, ℕ, ◌&&◌, ◌∷◌, ◌++◌,
}
use kuksa_val_feeders.Mapper.{
  CanFilter, Mapper, get_vss_names, has_dbc2vss_mapping, has_vss2dbc_mapping,
}
use kuksa_val_feeders.Mapping.{VssObservation}
use kuksa_val_feeders.Python.Value.{Value}
use kuksa_val_feeders.Reader.{Reader, new_reader}

-- `disconnect_rounds` counts the sleeps of 0.2 s that `_disconnect_time` adds up. `reader_running`
-- and `canclient_running` are none as long as the reader and the CAN client are None.
pub record Feeder : Type 0 where
  pub running : Bool
  pub reader_running : Option Bool
  pub mapper : Option Mapper
  pub registered : Bool
  pub queue : List VssObservation
  pub client_running : Bool
  pub disconnect_rounds : ℕ
  pub dbc2val_enabled : Bool
  pub val2dbc_enabled : Bool
  pub canclient_running : Option Bool
  pub transmit : Bool

-- __init__
unfoldable pub new_feeder : Bool → Bool → Feeder
new_feeder dbc2val val2dbc = record {
  running = false;
  reader_running = none;
  mapper = none;
  registered = false;
  queue = [];
  client_running = false;
  disconnect_rounds = 0;
  dbc2val_enabled = dbc2val;
  val2dbc_enabled = val2dbc;
  canclient_running = none;
  transmit = false;
}

-- `if self._reader is not None: self._reader.stop()`
abbrev pub stopped : Option Bool → Option Bool
stopped none = none
stopped (some b) = some false

unfoldable pub stop : Feeder → Feeder
stop f = record f {
  running = false;
  reader_running = stopped f.reader_running;
  client_running = false;
  canclient_running = stopped f.canclient_running;
  transmit = false;
}

-- The threads that start creates, the receiver with the CAN filters that its reader takes.
pub data Thread : Type 0 where
  receiver : List CanFilter → Thread
  transmitter : Thread

-- The reader is created, and its thread and the receiver are started.
unfoldable pub start_reception : Mapper → Feeder → List Thread × Feeder
unfolding new_reader
start_reception m f =
    let (can_filters, r) = new_reader f.queue m in
    (receiver can_filters ∷ [], record f { mapper = some r.mapper; reader_running = some true })

unfoldable pub start_transmission : Bool → Feeder → List Thread × Feeder
unfolding stop
start_transmission supports_subscription f =
    if supports_subscription
    then (transmitter ∷ [], record f { canclient_running = some true })
    else ([], stop f)

-- start, with the mapper that the files give
unfoldable pub start : Mapper → Bool → Feeder → List Thread × Feeder
unfolding start_reception start_transmission
start m supports_subscription f0 =
    let f = record f0 { running = true; mapper = some m; client_running = true } in
    let (receivers, f1) =
      if f.dbc2val_enabled && has_dbc2vss_mapping m then start_reception m f else ([], f) in
    let (transmitters, f2) =
      if f1.val2dbc_enabled && has_vss2dbc_mapping m
      then start_transmission supports_subscription f1
      else ([], f1) in
    (receivers ++ transmitters, f2)

abbrev all_defined : (String → Bool) → List String → Bool
all_defined is_signal_defined [] = true
all_defined is_signal_defined (vss_name ∷ names) =
    let others = all_defined is_signal_defined names in is_signal_defined vss_name && others

unfoldable pub register_datapoints : (String → Bool) → Feeder → Bool
register_datapoints is_signal_defined f = elim f.mapper [
  | none ↦ false
  | some m ↦ all_defined is_signal_defined (get_vss_names m)
]

-- What the receiver asks of the client and writes to the log: that the client is not connected,
-- a check of the datapoints with its result, a datapoint that is sent, and the number of messages.
pub data Action : Type 0 where
  disconnected : Action
  checked : Bool → Action
  updated : String → Value → Action
  reported : ℕ → Action
