-- ===== src/Reader.antt =====
-- dbc2val/dbcfeederlib/canreader.py, dbcreader.py, j1939reader.py, canclient.py and canmessage.py.
-- The bus is a sequence of events that the receiving loop meets; python-can is not modelled.
use Prim.Native.Nat.{bit_or}
pub mod Resolve
pub mod Queue
pub mod Player
pub mod Origin
pub mod Frames
use kuksa_val_feeders.Prelude.{
  Bool, List, String, [], false, get_elem?, if◌then◌else◌, none, some, true, ℕ, ◌*◌, ◌++◌, ◌^◌, ◌∷◌,
  Option,
}
use kuksa_val_feeders.Mapper.{
  CanFilter, Mapper, Ref, can_frame_id_whitelist, get_dbc2vss_mappings, update,
}
use kuksa_val_feeders.Python.Dict.{Dict}
use kuksa_val_feeders.Python.Value.{Value}
use kuksa_val_feeders.Mapping.{VssMapping, VssObservation, time_condition_fulfilled}
use kuksa_val_feeders.Dbc.{get_message_for_canid}

-- CanReader with the queue that it shares with the feeder. The bus and the player are outside.
pub record Reader : Type 0 where
  pub running : Bool
  pub mapper : Mapper
  pub queue : List VssObservation

-- __init__: the whitelist is taken, and nothing runs yet.
unfoldable pub new_reader : List VssObservation → Mapper → List CanFilter × Reader
new_reader rxqueue m =
    let (can_filters, m') = can_frame_id_whitelist m in
    (can_filters, record { running = false; mapper = m'; queue = rxqueue })

unfoldable pub start : Reader → Reader
start r = record r { running = true }

unfoldable pub stop : Reader → Reader
stop r = record r { running = false }

abbrev pub observation : String → Value → ℕ → VssMapping → VssObservation
observation signal_name raw_value rx_time o = record {
  dbc_name = signal_name;
  vss_name = o.vss_name;
  raw_value = raw_value;
  time = rx_time;
}

-- One mapping of a signal: its time condition, and the observation if that is fulfilled.
unfoldable pub queue_mapping : String → Value → ℕ → Ref → Reader → Reader
unfolding update
queue_mapping signal_name raw_value rx_time ref st = elim (get_elem? st.mapper.objects ref) [
  | none ↦ st
  | some o ↦
      let (fulfilled, o') = time_condition_fulfilled rx_time o in
      let m' = update ref (λ _. o') st.mapper in
      if fulfilled
      then record st {
        mapper = m';
        queue = st.queue ++ (observation signal_name raw_value rx_time o ∷ []);
      }
      else record st { mapper = m' }
]

unfoldable pub queue_mappings : String → Value → ℕ → List Ref → Reader → Reader
unfolding queue_mapping
queue_mappings signal_name raw_value rx_time [] st = st
queue_mappings signal_name raw_value rx_time (ref ∷ refs) st =
    queue_mappings signal_name raw_value rx_time refs
      (queue_mapping signal_name raw_value rx_time ref st)

unfoldable pub queue_signals : Dict String Value → ℕ → Reader → Reader
unfolding queue_mappings get_dbc2vss_mappings
queue_signals [] rx_time st = st
queue_signals ((signal_name, raw_value) ∷ decode) rx_time st =
    queue_signals decode rx_time
      (queue_mappings signal_name raw_value rx_time (get_dbc2vss_mappings signal_name st.mapper) st)

-- _process_can_message: an exception is logged, and nothing raised before the loop has any effect.
unfoldable pub process_can_message : ℕ → List ℕ → ℕ → Reader → Reader
unfolding queue_signals
process_can_message frame_id payload rx_time st =
    elim (get_message_for_canid frame_id st.mapper.parser) [
      | none ↦ st
      | some message_def ↦ elim (message_def.decode payload) [
        | none ↦ st
        | some decode ↦ queue_signals decode rx_time st
      ]
    ]

pub record Frame : Type 0 where
  pub frame_id : ℕ
  pub payload : List ℕ
  pub rx_time : ℕ

-- What a round of the receiving loop meets: whether another thread stops the reader after the
-- loop's test, and the frame that comes within the timeout, none also for a bus error.
pub record Round : Type 0 where
  pub stopped : Bool
  pub received : Option Frame

unfoldable pub on_round : Round → Reader → Reader
unfolding process_can_message stop
on_round e st =
    let st' = if e.stopped then stop st else st in
    elim e.received [ none ↦ st' | some f ↦ process_can_message f.frame_id f.payload f.rx_time st' ]

-- DBCReader._rx_worker
unfoldable pub rx_worker : List Round → Reader → Reader
unfolding on_round
rx_worker [] st = st
rx_worker (e ∷ rounds) st =
    let rest = rx_worker rounds (on_round e st) in if st.running then rest else st

-- J1939Reader._on_message: pgn << 8 | source_address
unfoldable pub extended_frame_id : ℕ → ℕ → ℕ
extended_frame_id pgn source_address = bit_or (pgn * 2 ^ 8) source_address

unfoldable pub on_message : ℕ → ℕ → List ℕ → ℕ → Reader → Reader
unfolding extended_frame_id process_can_message
on_message pgn source_address payload rx_time st =
    process_can_message (extended_frame_id pgn source_address) payload rx_time st
