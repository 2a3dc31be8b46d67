-- ===== src/Dds/Provider.antt =====
-- The class Provider of dds2val/ddsproviderlib/databroker.py, and register_datapoints of helper.py.
-- The answers of the KUKSA client library are arguments: `is_datatype` tells the members of its
-- enumeration of datatypes, which the model names by their texts.
pub mod Types
use kuksa_val_feeders.Prelude.{
  Bool, List, Option, String, [], false, if◌then◌else◌, none, some, true, ◌++◌, ◌∷◌, text_eq,
  nat_eq,
}
use kuksa_val_feeders.Client.Databroker.{Metadata, client_error, one_entry, unexpected_entries}
use kuksa_val_feeders.Dds.Mapper.{Vss2DdsMapper}
use kuksa_val_feeders.Python.Dict.{Dict, insert, lookup}
use kuksa_val_feeders.Python.Errors.{Result, attribute_error, err, key_error, ok}
use kuksa_val_feeders.Python.Run.{Run, lift, pure, raise, ◌>>=◌}
use kuksa_val_feeders.Python.Value.{Fields, Value, end, field, get_item, str}

-- The types by name, and what the client was asked to set.
pub record Provider : Type 0 where
  pub name_to_type : Dict String String
  pub metadata_set : List (String × String × Value)
  pub values_set : List (String × Value × String)

unfoldable pub new_provider : Provider
new_provider = record { name_to_type = []; metadata_set = []; values_set = [] }

unfoldable pub note_type : String → String → Provider → Provider
note_type name data_type p = record p { name_to_type = insert name data_type p.name_to_type }

abbrev pub ask_metadata : String → String → Value → Provider → Provider
ask_metadata name data_type description p = record p {
  metadata_set = p.metadata_set ++ ((name, data_type, description) ∷ []);
}

-- _register, where set_metadata returns if `accepted`, and else raises VSSClientError.
unfoldable pub register_new : String → String → Value → Bool → Run Provider Bool
unfolding note_type
register_new name data_type description accepted p =
    let asked = ask_metadata name data_type description p in
    if accepted then (ok true, note_type name data_type asked) else (ok false, asked)

-- What the client answers about a name: its metadata, and whether new metadata is accepted.
pub record Answer : Type 0 where
  pub metadata : Metadata
  pub accepted : Bool

unfoldable pub register_known :
    String → String → Value → (accepted : Bool) → Metadata → Run Provider Bool
unfolding note_type register_new
register_known name data_type description accepted (one_entry known) p =
    (ok true, note_type name known p)
register_known name data_type description accepted unexpected_entries p =
    register_new name data_type description accepted p
register_known name data_type description accepted client_error p = (ok false, p)

-- The rest of the loop, unless the function returns False before.
abbrev pub if_registered : Run Provider Bool → Bool → Run Provider Bool
if_registered others true = others
if_registered others false = pure false

module _ (is_datatype : String → Bool) where
  -- getattr(DataType, data_type); what is no text has no `name` later.
  unfoldable pub data_type_of : Value → Result String
  data_type_of (str s) = if is_datatype s then ok s else err attribute_error
  data_type_of _ = err attribute_error

  unfoldable pub register : String → Value → Value → Answer → Run Provider Bool
  unfolding data_type_of register_known
  register name data_type description answer = do
    type_name ← lift (data_type_of data_type)
    register_known name type_name description answer.accepted answer.metadata

  -- The datapoints of a mapping, up to the first that is not registered.
  unfoldable pub register_all : (String → Answer) → Fields → Run Provider Bool
  unfolding register get_item
  register_all answers end = pure true
  register_all answers (field vss_signal entry mapping) = do
    databroker ← lift (get_item entry "databroker")
    datatype ← lift (get_item databroker "datatype")
    description ← lift (get_item entry "description")
    registered ← register vss_signal datatype description (answers vss_signal)
    if_registered (register_all answers mapping) registered

  unfoldable pub register_datapoints : (String → Answer) → Vss2DdsMapper → Run Provider Bool
  unfolding register_all
  register_datapoints answers m = register_all answers m.mapping

-- update_datapoint, where set returns if `accepted`, and else raises VSSClientError.
unfoldable pub update_datapoint : String → Value → Bool → Run Provider Bool
unfolding lookup
update_datapoint name value accepted p = elim (lookup name p.name_to_type) [
  | none ↦ (err key_error, p)
  | some data_type ↦
      (ok accepted, record p { values_set = p.values_set ++ ((name, value, data_type) ∷ []) })
]
