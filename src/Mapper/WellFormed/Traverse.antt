-- ===== src/Mapper/WellFormed/Traverse.antt =====
-- _analyze_signal and _traverse_vss_node keep the invariant, so every Mapper that is built has it.
use kuksa_val_feeders.Mapper.Refs.{AllRefs-nil}
use kuksa_val_feeders.Prelude.{
  Bool, Bool-cases, List, Option, String, false, if◌then◌else◌, inl, inr, none, refl, some, true,
  ◌<>◌, ◌==◌, text_eq, nat_eq,
}
use kuksa_val_feeders.Dbc.{Database, Message, new_parser}
use kuksa_val_feeders.Python.Value.{
  Fields, Value, arr, bool, end, field, get_field, int, is_none, null, obj, real, str,
}
use kuksa_val_feeders.Mapper.WellFormed.{IsWellFormed}
use kuksa_val_feeders.Python.Run.{Keeps, Keeps-bind, Keeps-lift, Keeps-pure, pure}
use kuksa_val_feeders.Mapper.{Mapper, new_mapper}
use kuksa_val_feeders.Mapper.Verify.{
  NodeKind, branch_node, dbc2vss_def, kind_of, plain_node, signal_node,
}
use kuksa_val_feeders.Python.Errors.{Result, err, ok}
use kuksa_val_feeders.Mapper.Build.{
  analyze_dbc2vss, analyze_signal, analyze_vss2dbc, build_mapper, traverse_child_dict,
  traverse_children, traverse_items, traverse_vss_node,
}
use kuksa_val_feeders.Mapper.WellFormed.Dbc2vss.{analyze_dbc2vss-Keeps}
use kuksa_val_feeders.Mapper.WellFormed.Vss2dbc.{analyze_vss2dbc-Keeps}
use kuksa_val_feeders.Dbc.Lookup.{new_parser-IsCoherent}
use kuksa_val_feeders.Mapping.Change.{present}

-- A property of each case holds of the chosen one.
by_kind :
    {A : Type 0} (P : A → Type 0) (k : NodeKind) (x y z : A)
    → P x
    → P y
    → P z
    → P (elim k [ branch_node ↦ x | signal_node ↦ y | plain_node ↦ z ])
by_kind P branch_node x y z px py pz = px
by_kind P signal_node x y z px py pz = py
by_kind P plain_node x y z px py pz = pz

by_test :
    {A : Type 0} (P : A → Type 0) (b : Bool) (x y : A)
    → P x
    → P y
    → P (elim b [ true ↦ x | false ↦ y ])
by_test P true x y px py = px
by_test P false x y px py = py

by_result :
    (P : Mapper → Type 0) (r : Result (Unit {0})) (m : Mapper) (rest : Result (Unit {0}) × Mapper)
    → P m
    → P rest.1
    → P (elim r as (λ _. Result (Unit {0}) × Mapper) [ ok _ ↦ rest | err e ↦ (err e, m) ]).1
by_result P (ok _) m rest pm pr = pr
by_result P (err e) m rest pm pr = pm

module _ (messages : List Message) where
  first_part-Keeps :
      (name : String) (node : Fields) (def : Value)
      → Keeps
          (IsWellFormed messages)
          (if is_none def then pure tt else analyze_dbc2vss name node def)
  first_part-Keeps name node def = elim (Bool-cases (is_none def)) [
    | inl absent ↦ rw absent (Keeps-pure _ tt)
    | inr present ↦ rw present (analyze_dbc2vss-Keeps messages name node def)
  ]

  second_part-Keeps :
      (name : String) (node : Fields) (o : Option Value)
      → Keeps
          (IsWellFormed messages)
          (elim o [ none ↦ pure tt | some v ↦ analyze_vss2dbc name node v ])
  second_part-Keeps name node none = Keeps-pure _ tt
  second_part-Keeps name node (some v) = analyze_vss2dbc-Keeps messages name node v

  analyze_signal-Keeps :
      (name : String) (node : Fields) → Keeps (IsWellFormed messages) (analyze_signal name node)
  unfolding analyze_signal
  analyze_signal-Keeps name node = Keeps-bind _ _ (Keeps-lift _ (dbc2vss_def node)) λ def.
      Keeps-bind _ _ (first_part-Keeps name node def)
        λ _. second_part-Keeps name node (get_field "vss2dbc" node)

  mutual
    unfolding traverse_vss_node

    node-Keeps :
        (node : Value) (name prefix : String) (m : Mapper)
        → IsWellFormed messages m
        → IsWellFormed messages (traverse_vss_node node name prefix m).1
    node-Keeps (obj fs) name prefix m h =
        by_kind (λ (x : Result (Unit {0}) × Mapper). IsWellFormed messages x.1) (kind_of fs) _ _ _
          (children-Keeps fs (prefix <> name <> ".") m h)
          (analyze_signal-Keeps (prefix <> name) fs m h) (items-Keeps fs prefix m h)
    node-Keeps null name prefix m h = h
    node-Keeps (bool _) name prefix m h = h
    node-Keeps (int _) name prefix m h = h
    node-Keeps (real _ _) name prefix m h = h
    node-Keeps (str _) name prefix m h = h
    node-Keeps (arr _) name prefix m h = h

    children-Keeps :
        (fs : Fields) (prefix : String) (m : Mapper)
        → IsWellFormed messages m
        → IsWellFormed messages (traverse_children fs prefix m).1
    children-Keeps end prefix m h = h
    children-Keeps (field k v fs) prefix m h =
        by_test (λ (x : Result (Unit {0}) × Mapper). IsWellFormed messages x.1) (k == "children") _
          _ (child_dict-Keeps v prefix m h) (children-Keeps fs prefix m h)

    child_dict-Keeps :
        (v : Value) (prefix : String) (m : Mapper)
        → IsWellFormed messages m
        → IsWellFormed messages (traverse_child_dict v prefix m).1
    child_dict-Keeps (obj fs) prefix m h = items-Keeps fs prefix m h
    child_dict-Keeps null prefix m h = h
    child_dict-Keeps (bool _) prefix m h = h
    child_dict-Keeps (int _) prefix m h = h
    child_dict-Keeps (real _ _) prefix m h = h
    child_dict-Keeps (str _) prefix m h = h
    child_dict-Keeps (arr _) prefix m h = h

    items-Keeps :
        (fs : Fields) (prefix : String) (m : Mapper)
        → IsWellFormed messages m
        → IsWellFormed messages (traverse_items fs prefix m).1
    items-Keeps end prefix m h = h
    items-Keeps (field k v fs) prefix m h =
        let kept = node-Keeps v k prefix m h in
        by_result (IsWellFormed messages) (traverse_vss_node v k prefix m).0
          (traverse_vss_node v k prefix m).1 _ kept
          (items-Keeps fs prefix (traverse_vss_node v k prefix m).1 kept)

-- Whatever the mapping definitions are, the mapper that they leave is well formed: every entry of
-- `_dbc2vss_mapping` belongs to its CAN signal and that signal's frame is whitelisted, every entry
-- of `_vss2dbc_mapping` to its VSS name, every entry of `_vss2dbc_can_id_mapping` to its frame, and
-- the caches agree with the database.
pub build_mapper-IsWellFormed :
    (db : Database) (extended : Bool) (dbc_default : Fields) (json_mapping : Value)
    → IsWellFormed db.messages (build_mapper (new_parser db extended) dbc_default json_mapping).1
unfolding build_mapper new_mapper
build_mapper-IsWellFormed db extended dbc_default json_mapping =
    node-Keeps db.messages json_mapping "" "" _ (record {
      from_messages = unfold new_parser in refl;
      coherent = new_parser-IsCoherent db extended;
      dbc2vss = AllRefs-nil;
      vss2dbc = AllRefs-nil;
      can_ids = AllRefs-nil;
    })
