-- ===== src/Mapper/Verify.antt =====
-- The checks on one mapping definition: _extract_verify_transform and the property tests of
-- _analyze_dbc2vss, _analyze_signal and _traverse_vss_node of dbc2val/dbcfeederlib/dbc2vssmapper.py.
-- `sys.exit(-1)` is the error system_exit.
use kuksa_val_feeders.Prelude.{
  Bool, Option, String, false, if◌then◌else◌, none, some, true, ◌==◌, ◌||◌, text_eq, nat_eq,
}
use kuksa_val_feeders.Python.Value.{
  Fields, Items, Value, arr, bool, cons, contained_in, get_field, has_field, int, nil, null, obj,
  of_bool, py_eq, str,
}
use kuksa_val_feeders.Python.Errors.{Result, err, ok, system_exit, unsupported_signal, ◌>>=◌, ◌>>◌}
use kuksa_val_feeders.Prelude.Int.{pos, ℤ}

-- every item of a "mapping" has "from" and "to"
unfoldable pub check_items : Items → Result (Unit {0})
check_items nil = ok tt
check_items (cons item rest) = do
  has_from ← contained_in "from" item
  has_to ← elim has_from [ false ↦ ok false | true ↦ contained_in "to" item ]
  elim has_to [ false ↦ err system_exit | true ↦ check_items rest ]

unfoldable pub check_mapping : Fields → Result Bool
unfolding check_items
check_mapping t = elim (get_field "mapping" t) [
  | none ↦ ok false
  | some v ↦ elim v [ arr xs ↦ (check_items xs >> ok true) | _ ↦ err system_exit ]
]

unfoldable pub check_math : Bool → Fields → Result (Unit {0})
check_math has_mapping t = elim (get_field "math" t) [
  | some v ↦ if has_mapping then err system_exit else elim v [ str s ↦ ok tt | _ ↦ err system_exit ]
  | none ↦ if has_mapping then ok tt else err system_exit
]

unfoldable pub verify_transform : Fields → Result (Option Fields)
unfolding check_mapping check_math
verify_transform t = do has_mapping ← check_mapping t; check_math has_mapping t; ok (some t)

unfoldable pub extract_verify_transform : Fields → Result (Option Fields)
unfolding verify_transform
extract_verify_transform node = elim (get_field "transform" node) [
  | none ↦ ok none
  | some v ↦ elim v [ obj t ↦ verify_transform t | _ ↦ err system_exit ]
]

-- dbc2vss.get("signal", "")
unfoldable pub signal_of : Fields → Result String
signal_of d = elim (get_field "signal" d) [
  | none ↦ err system_exit
  | some v ↦ elim v [
    | str s ↦ if s == "" then err system_exit else ok s
    | _ ↦ err unsupported_signal
  ]
]

unfoldable pub on_change_of : Fields → Result Bool
on_change_of d = elim (get_field "on_change" d) [
  | none ↦ ok false
  | some v ↦ elim v [ bool b ↦ ok b | _ ↦ err system_exit ]
]

-- isinstance(interval, int) holds of a bool too
unfoldable pub interval_of : Bool → Fields → Result ℤ
interval_of on_change d = elim (get_field "interval_ms" d) [
  | none ↦ ok (if on_change then pos 0 else pos 1000)
  | some v ↦ elim v [ int n ↦ ok n | bool b ↦ ok (of_bool b) | _ ↦ err system_exit ]
]

-- "dbc" is a synonym of "dbc2vss", and both together are refused
unfoldable pub dbc2vss_def : Fields → Result Value
dbc2vss_def node = elim (get_field "dbc" node) [
  | some v ↦ if has_field "dbc2vss" node then err system_exit else ok v
  | none ↦ elim (get_field "dbc2vss" node) [ some v ↦ ok v | none ↦ ok null ]
]

pub data NodeKind : Type 0 where
  signal_node branch_node plain_node : NodeKind

unfoldable pub kind_of : Fields → NodeKind
kind_of node = elim (get_field "type" node) [
  | none ↦ plain_node
  | some v ↦
      if py_eq v (str "sensor") || (py_eq v (str "actuator") || py_eq v (str "attribute"))
      then signal_node
      else if py_eq v (str "branch")
      then branch_node
      else plain_node
]
