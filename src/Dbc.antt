-- ===== src/Dbc.antt =====
-- dbc2val/dbcfeederlib/dbcparser.py: message definitions and the two lookups that it caches.
-- cantools is not part of the repository: its database is a list of message definitions with the
-- library's own lookup by frame ID, and a definition decodes and encodes as the library does.
pub mod Lookup
pub mod Files
use kuksa_val_feeders.Prelude.{
  ℕ, String, Bool, Option, none, some, List, [], ◌∷◌, text_eq, nat_eq, if◌then◌else◌, contains,
}
use kuksa_val_feeders.Python.Dict.{Dict, lookup, insert, add_all}
use kuksa_val_feeders.Python.Value.{Value}

-- `decode` and `encode` are none where the library raises.
pub record Message : Type 0 where
  pub frame_id : ℕ
  pub signals : List String
  pub decode : List ℕ → Option (Dict String Value)
  pub encode : Dict String Value → Option (List ℕ)

-- `message_by_frame_id` is none where the library raises KeyError.
pub record Database : Type 0 where
  pub messages : List Message
  pub message_by_frame_id : ℕ → Option Message

-- DBCParser
pub record Parser : Type 0 where
  pub db : Database
  pub frame_id_mask : ℕ
  pub signal_to_canid : Dict String (Option ℕ)
  pub canid_to_signals : Dict ℕ (List String)

-- 11 bits of a standard frame ID, or bits 8 to 25 of an extended one
unfoldable pub mask_for : Bool → ℕ
mask_for expect_extended_frame_ids =
    if expect_extended_frame_ids then 0b00011111111111111111100000000 else 0b11111111111

-- __init__, with the database that the files were read into
unfoldable pub new_parser : Database → Bool → Parser
unfolding mask_for
new_parser db expect_extended_frame_ids = record {
  db = db;
  frame_id_mask = mask_for expect_extended_frame_ids;
  signal_to_canid = [];
  canid_to_signals = [];
}

-- The search through all messages: the first that has the signal.
unfoldable pub find_signal : String → List Message → Option ℕ
find_signal sig_to_find [] = none
find_signal sig_to_find (msg ∷ messages) =
    if contains msg.signals sig_to_find then some msg.frame_id else find_signal sig_to_find messages

unfoldable pub get_canid_for_signal : String → Parser → Option ℕ × Parser
get_canid_for_signal sig_to_find p = elim (lookup sig_to_find p.signal_to_canid) [
  | some known ↦ (known, p)
  | none ↦
      let found = find_signal sig_to_find p.db.messages in
      (found, record p { signal_to_canid = insert sig_to_find found p.signal_to_canid })
]

unfoldable pub get_message_for_canid : ℕ → Parser → Option Message
get_message_for_canid canid p = p.db.message_by_frame_id canid

abbrev pub names_of : Option Message → List String
names_of none = []
names_of (some message) = add_all message.signals []

unfoldable pub get_signals_for_canid : ℕ → Parser → List String × Parser
unfolding get_message_for_canid
get_signals_for_canid canid p = elim (lookup canid p.canid_to_signals) [
  | some names ↦ (names, p)
  | none ↦
      let names = names_of (get_message_for_canid canid p) in
      (names, record p { canid_to_signals = insert canid names p.canid_to_signals })
]
