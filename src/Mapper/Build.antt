-- ===== src/Mapper/Build.antt =====
-- The construction of a Mapper: _analyze_dbc2vss, _analyze_vss2dbc, _analyze_signal and
-- _traverse_vss_node of dbc2val/dbcfeederlib/dbc2vssmapper.py.
use kuksa_val_feeders.Prelude.{
  ℕ, String, ◌<>◌, Eq, [], false, if◌then◌else◌, none, true, ◌++◌, ◌==◌, ◌∷◌, text_eq, nat_eq,
}
use kuksa_val_feeders.Mapper.{
  Mapper, Fields, Bool, VssMapping, Run, Option, Dict, Ref, Value, Parser, ok, List,
  get_canid_for_signal, some, get_field, new_mapper, length, insert, add, refs_of, lookup,
}
use kuksa_val_feeders.Python.Value.{
  arr, bool, end, field, get_item, int, is_none, null, obj, real, str,
}
use kuksa_val_feeders.Python.Errors.{attribute_error, err, key_error, Result}
use kuksa_val_feeders.Mapper.Verify.{
  branch_node, dbc2vss_def, extract_verify_transform, interval_of, kind_of, on_change_of,
  plain_node, signal_node, signal_of,
}
use kuksa_val_feeders.Python.Dict.{has_key}
use kuksa_val_feeders.Python.Run.{lift, modify, pure, raise, ◌>>=◌, ◌>>◌}
use kuksa_val_feeders.Mapping.{new_mapping}
use kuksa_val_feeders.Prelude.Int.{pos, ℤ}

-- The object is put into the store, and its reference is the result.
unfoldable pub allocate : VssMapping → Run Mapper Ref
allocate o m = (ok (length m.objects), record m { objects = m.objects ++ (o ∷ []) })

-- if k not in d: d[k] = []
unfoldable pub open_entry {ℓ} : {K : Type ℓ} ⦃e : Eq K⦄ → K → Dict K (List Ref) → Dict K (List Ref)
open_entry k d = if has_key k d then d else insert k [] d

-- d[k].append(r), for a key that is there
unfoldable pub append_ref {ℓ} :
    {K : Type ℓ} ⦃e : Eq K⦄ → K → Ref → Dict K (List Ref) → Dict K (List Ref)
append_ref k r d = insert k (refs_of (lookup k d) ++ (r ∷ [])) d

unfoldable pub lookup_canid : String → Run Mapper (Option ℕ)
lookup_canid signal m =
    let (found, p) = get_canid_for_signal signal m.parser in (ok found, record m { parser = p })

unfoldable pub whitelist_frame : Option ℕ → Mapper → Mapper
whitelist_frame none m = m
whitelist_frame (some c) m = record m { mapped_can_frame_ids = add c m.mapped_can_frame_ids }

-- the new object into the store, the dictionary and, with its frame, the whitelist
unfoldable pub add_dbc2vss : String → VssMapping → Run Mapper (Unit {0})
unfolding allocate append_ref lookup_canid whitelist_frame
add_dbc2vss signal o = do
  r ← allocate o
  modify λ m. record m { dbc2vss_mapping = append_ref signal r m.dbc2vss_mapping }
  can_frame_id ← lookup_canid signal
  modify (whitelist_frame can_frame_id)

-- from the new entry of the dictionary on
unfoldable pub record_dbc2vss :
    String → String → Option Fields → ℤ → Bool → Fields → Run Mapper (Unit {0})
unfolding open_entry add_dbc2vss
record_dbc2vss expanded_name signal transform interval on_change node = do
  modify λ m. record m { dbc2vss_mapping = open_entry signal m.dbc2vss_mapping }
  datatype ← lift (get_item (obj node) "datatype")
  description ← lift (get_item (obj node) "description")
  add_dbc2vss signal
      (new_mapping expanded_name signal transform interval on_change datatype description)

unfoldable pub analyze_dbc2vss : String → Fields → Value → Run Mapper (Unit {0})
unfolding record_dbc2vss
analyze_dbc2vss expanded_name node (obj d) = do
  signal ← lift (signal_of d)
  transform ← lift (extract_verify_transform d)
  on_change ← lift (on_change_of d)
  interval ← lift (interval_of on_change d)
  record_dbc2vss expanded_name signal transform interval on_change node
analyze_dbc2vss expanded_name node _ = raise attribute_error

-- The test is on the CAN signal's name, and the entry is that of the VSS name.
unfoldable pub open_vss_entry : String → String → Dict String (List Ref) → Dict String (List Ref)
open_vss_entry signal expanded_name d = if has_key signal d then d else insert expanded_name [] d

unfoldable pub append_vss_entry : String → Ref → Run Mapper (Unit {0})
unfolding append_ref
append_vss_entry expanded_name r m =
    if has_key expanded_name m.vss2dbc_mapping
    then (ok tt, record m { vss2dbc_mapping = append_ref expanded_name r m.vss2dbc_mapping })
    else (err key_error, m)

unfoldable pub record_can_id : Option ℕ → Ref → Mapper → Mapper
unfolding open_entry append_ref
record_can_id none r m = m
record_can_id (some c) r m = record m {
  vss2dbc_can_id_mapping = append_ref c r (open_entry c m.vss2dbc_can_id_mapping);
}

-- the CAN frame of the signal, if the database has one
unfoldable pub add_can_id : String → Ref → Run Mapper (Unit {0})
unfolding lookup_canid record_can_id
add_can_id signal r = do can_frame_id ← lookup_canid signal; modify (record_can_id can_frame_id r)

unfoldable pub record_vss2dbc : String → String → Option Fields → Fields → Run Mapper (Unit {0})
unfolding allocate open_vss_entry append_vss_entry add_can_id
record_vss2dbc expanded_name signal transform node = do
  datatype ← lift (get_item (obj node) "datatype")
  description ← lift (get_item (obj node) "description")
  r ← allocate (new_mapping expanded_name signal transform (pos 0) true datatype description)
  modify λ m. record m { vss2dbc_mapping = open_vss_entry signal expanded_name m.vss2dbc_mapping }
  append_vss_entry expanded_name r
  add_can_id signal r

unfoldable pub analyze_vss2dbc : String → Fields → Value → Run Mapper (Unit {0})
unfolding record_vss2dbc
analyze_vss2dbc expanded_name node (obj d) = do
  signal ← lift (signal_of d)
  transform ← lift (extract_verify_transform d)
  record_vss2dbc expanded_name signal transform node
analyze_vss2dbc expanded_name node _ = raise attribute_error

unfoldable pub analyze_signal : String → Fields → Run Mapper (Unit {0})
unfolding analyze_dbc2vss analyze_vss2dbc
analyze_signal expanded_name node = do
  def ← lift (dbc2vss_def node)
  if is_none def then pure tt else analyze_dbc2vss expanded_name node def
  elim (get_field "vss2dbc" node) [ none ↦ pure tt | some v ↦ analyze_vss2dbc expanded_name node v ]

unfoldable mutual
  -- a node that is no dict is passed over
  pub traverse_vss_node : Value → String → String → Run Mapper (Unit {0})
  traverse_vss_node (obj fs) name prefix m = elim (kind_of fs) [
    | branch_node ↦ traverse_children fs (prefix <> name <> ".") m
    | signal_node ↦ analyze_signal (prefix <> name) fs m
    | plain_node ↦ traverse_items fs prefix m
  ]
  traverse_vss_node null name prefix m = (ok tt, m)
  traverse_vss_node (bool _) name prefix m = (ok tt, m)
  traverse_vss_node (int _) name prefix m = (ok tt, m)
  traverse_vss_node (real _ _) name prefix m = (ok tt, m)
  traverse_vss_node (str _) name prefix m = (ok tt, m)
  traverse_vss_node (arr _) name prefix m = (ok tt, m)

  -- node["children"].items()
  pub traverse_children : Fields → String → Run Mapper (Unit {0})
  traverse_children end prefix m = (err key_error, m)
  traverse_children (field k v fs) prefix m = elim (k == "children") [
    | true ↦ traverse_child_dict v prefix m
    | false ↦ traverse_children fs prefix m
  ]

  pub traverse_child_dict : Value → String → Run Mapper (Unit {0})
  traverse_child_dict (obj fs) prefix m = traverse_items fs prefix m
  traverse_child_dict null prefix m = (err attribute_error, m)
  traverse_child_dict (bool _) prefix m = (err attribute_error, m)
  traverse_child_dict (int _) prefix m = (err attribute_error, m)
  traverse_child_dict (real _ _) prefix m = (err attribute_error, m)
  traverse_child_dict (str _) prefix m = (err attribute_error, m)
  traverse_child_dict (arr _) prefix m = (err attribute_error, m)

  pub traverse_items : Fields → String → Run Mapper (Unit {0})
  traverse_items end prefix m = (ok tt, m)
  traverse_items (field k v fs) prefix m =
      let (r, m') = traverse_vss_node v k prefix m in
      elim r [ ok _ ↦ traverse_items fs prefix m' | err e ↦ (err e, m') ]

-- __init__ from the parsed mapping definitions on
unfoldable pub build_mapper : Parser → Fields → Value → Result (Unit {0}) × Mapper
unfolding traverse_vss_node
build_mapper parser dbc_default json_mapping =
    traverse_vss_node json_mapping "" "" (new_mapper parser dbc_default)
