-- ===== src/Examples.antt =====
-- Concrete data for the instances of the theorems: a door signal that is mapped both ways to the
-- CAN signal DoorLock of the frame 258, and a speed signal that comes from the same frame.
pub mod Conditions
pub mod Tables
pub mod Arrivals
pub mod Sending
pub mod Lines
pub mod Adapter
pub mod Samples
pub mod Recordings
pub mod Levels
pub mod Playing
pub mod Route
pub mod Logs
pub mod Databases
pub mod Positions
pub mod Clients
use kuksa_val_feeders.Dbc.{Database, Message, Parser}
use kuksa_val_feeders.Python.Dict.{Dict, lookup, values}
use kuksa_val_feeders.Dbc.Lookup.{IsCoherent}
use kuksa_val_feeders.Prelude.{
  List, Option, String, [], arith, if◌then◌else◌, none, some, true, ℕ, ◌==◌, ◌∷◌, text_eq, nat_eq,
}
use kuksa_val_feeders.Mapper.{Mapper}
use kuksa_val_feeders.Python.Value.{Value, end, field, int, null, str}
use kuksa_val_feeders.Mapping.{VssMapping}
use kuksa_val_feeders.Prelude.Int.{pos}

abbrev pub evaluate : Value → Value → Option Value
evaluate formula value = some value

abbrev pub decode : List ℕ → Option (Dict String Value)
decode [] = none
decode (byte ∷ payload) = some (("Speed", int (pos byte)) ∷ [])

abbrev pub encode : Dict String Value → Option (List ℕ)
encode [] = none
encode (entry ∷ values) = some (7 ∷ [])

abbrev pub door_message : Message
door_message = record {
  frame_id = 258;
  signals = "Speed" ∷ "DoorLock" ∷ [];
  decode = decode;
  encode = encode;
}

abbrev pub only_door : ℕ → Option Message
only_door frame_id = if frame_id == 258 then some door_message else none

abbrev pub database : Database
database = record { messages = door_message ∷ []; message_by_frame_id = only_door }

abbrev pub parser : Parser
parser = record { db = database; frame_id_mask = 2047; signal_to_canid = []; canid_to_signals = [] }

abbrev pub mapping_of : String → String → VssMapping
mapping_of vss_name dbc_name = record {
  vss_name = vss_name;
  dbc_name = dbc_name;
  transform = none;
  interval_ms = pos 100;
  on_change = true;
  datatype = str "uint8";
  description = str "";
  last_time = 0;
  last_vss_value = null;
  last_dbc_value = null;
}

abbrev pub speed : VssMapping
speed = mapping_of "Vehicle.Speed" "Speed"

abbrev pub lock : VssMapping
lock = mapping_of "Vehicle.Lock" "DoorLock"

abbrev pub mapper : Mapper
mapper = record {
  parser = parser;
  dbc_default = field "Speed" (int (pos 0)) end;
  objects = speed ∷ lock ∷ [];
  dbc2vss_mapping = ("Speed", 0 ∷ []) ∷ [];
  vss2dbc_mapping = ("Vehicle.Lock", 1 ∷ []) ∷ [];
  vss2dbc_can_id_mapping = (258, 1 ∷ []) ∷ [];
  mapped_can_frame_ids = 258 ∷ [];
  can_filters = [];
}

pub parser-IsCoherent : IsCoherent parser
unfolding lookup
parser-IsCoherent = record { canids = λ s c h. ground arith; names = λ c l h. ground arith }
