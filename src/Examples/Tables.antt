-- ===== src/Examples/Tables.antt =====
-- Instances for DBCParser and Mapper.
use kuksa_val_feeders.Python.Dict.{Dict, add, lookup}
use kuksa_val_feeders.Mapper.WellFormed.{IsWellFormed}
use kuksa_val_feeders.Mapper.ValueDict.{OnlyRef, get_value_dict-handle_update}
use kuksa_val_feeders.Prelude.{List, String, [], false, refl, some, ◌∷◌, ◌≡◌, text_eq, nat_eq}
use kuksa_val_feeders.Python.Value.{Value, end, field, int, is_none, obj, str}
use kuksa_val_feeders.Mapper.Build.{build_mapper}
use kuksa_val_feeders.Mapper.WellFormed.Traverse.{build_mapper-IsWellFormed}
use kuksa_val_feeders.Examples.{database, evaluate, lock, mapper}
use kuksa_val_feeders.Mapper.Update.{dbc_value_of}
use kuksa_val_feeders.Dbc.{new_parser}
use kuksa_val_feeders.Dbc.Lookup.{Lookup, canid_for_signal, signals_for_canid}
use kuksa_val_feeders.Mapper.{
  get_value_dict, handle_update, store_dbc_value, store_dbc_values, update,
}
use kuksa_val_feeders.Python.Errors.{ok}
use kuksa_val_feeders.Prelude.Int.{pos}
use kuksa_val_feeders.Python.Run.{pure, ◌>>=◌}
use kuksa_val_feeders.Mapping.{transform_value}

-- Two lookups are made twice, and find their answers in the caches the second time.
abbrev lookups : List Lookup
lookups =
    canid_for_signal "DoorLock"
    ∷ canid_for_signal "Unknown"
    ∷ canid_for_signal "DoorLock"
    ∷ signals_for_canid 258
    ∷ canid_for_signal "Unknown"
    ∷ signals_for_canid 258
    ∷ []

abbrev definition : Value
definition = obj (
    field "type" (str "sensor") (
      field "datatype" (str "uint8") (
        field "description" (str "") (
          field "dbc2vss" (obj (field "signal" (str "Speed") end))
            (field "vss2dbc" (obj (field "signal" (str "DoorLock") end)) end)))))

abbrev definitions : Value
definitions = obj (field "Vehicle" definition end)

build_mapper-IsWellFormed_example :
    IsWellFormed database.messages (build_mapper (new_parser database false) end definitions).1
build_mapper-IsWellFormed_example = build_mapper-IsWellFormed database false end definitions

abbrev no_values : Dict String Value
no_values = []

returned : (handle_update evaluate "Vehicle.Lock" (int (pos 1)) mapper).0 ≡ ok ("DoorLock" ∷ [])
unfolding handle_update store_dbc_values store_dbc_value lookup transform_value add ◌>>=◌ pure
    update
returned = refl

listed : lookup "Vehicle.Lock" mapper.vss2dbc_mapping ≡ some (1 ∷ [])
unfolding lookup
listed = refl

in_frame : lookup 258 mapper.vss2dbc_can_id_mapping ≡ some (1 ∷ [])
unfolding lookup
in_frame = refl

pub only_lock : OnlyRef mapper.objects "DoorLock" 1 (1 ∷ [])
only_lock = ((λ o found named. refl), tt)

present : is_none (dbc_value_of evaluate lock (int (pos 1))) ≡ false
unfolding transform_value
present = refl

get_value_dict-handle_update_example :
    (d : Dict String Value) × ((get_value_dict 258
        (handle_update evaluate "Vehicle.Lock" (int (pos 1)) mapper).1).0
      ≡ ok d)
    × (lookup "DoorLock" d ≡ some (dbc_value_of evaluate lock (int (pos 1))))
get_value_dict-handle_update_example =
    get_value_dict-handle_update evaluate mapper "Vehicle.Lock" (int (pos 1)) (1 ∷ []) listed
      returned 258 (1 ∷ []) 1 lock refl refl present in_frame refl only_lock
