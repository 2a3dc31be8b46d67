-- ===== src/Mapping.antt =====
-- The class VSSMapping of dbc2val/dbcfeederlib/dbc2vssmapper.py.
-- A time is a float of seconds, as a number of ticks of 2 ^ -22 s: so far apart are the floats from
-- 2 ^ 30 to 2 ^ 31, the seconds of the years 2004 to 2038, and their differences are exact; 0 stands
-- for the initial 0.0. `evaluate` is py_expression_eval's parser and evaluator, which is not part of
-- the repository: `none` where it raises.
pub mod Time
pub mod Change
pub mod Transform
use kuksa_val_feeders.Prelude.{
  ℕ, ◌-◌, ◌*◌, String, Bool, true, false, not, ◌&&◌, Option, none, some, ◌==◌, nat_eq, ltb,
  if◌then◌else◌,
}
use kuksa_val_feeders.Prelude.Int.{ℤ, pos, negsuc, pos_part}
use kuksa_val_feeders.Python.Float.{round_float}
use kuksa_val_feeders.Python.Errors.{Result, ok, ◌>>=◌}
use kuksa_val_feeders.Python.Value.{
  Value, null, Items, nil, cons, Fields, get_field, is_none, py_eq, get_item, iterate,
}

-- VSSObservation
pub record VssObservation : Type 0 where
  pub dbc_name : String
  pub vss_name : String
  pub raw_value : Value
  pub time : ℕ

pub record VssMapping : Type 0 where
  pub vss_name : String
  pub dbc_name : String
  pub transform : Option Fields
  pub interval_ms : ℤ
  pub on_change : Bool
  pub datatype : Value
  pub description : Value
  pub last_time : ℕ
  pub last_vss_value : Value
  pub last_dbc_value : Value

-- __init__
unfoldable pub new_mapping : String → String → Option Fields → ℤ → Bool → Value → Value → VssMapping
new_mapping vss_name dbc_name transform interval_ms on_change datatype description = record {
  vss_name = vss_name;
  dbc_name = dbc_name;
  transform = transform;
  interval_ms = interval_ms;
  on_change = on_change;
  datatype = datatype;
  description = description;
  last_time = 0;
  last_vss_value = null;
  last_dbc_value = null;
}

-- A thousand intervals of n ms last n seconds: so many ticks.
abbrev pub thousand_intervals : ℤ → ℕ
thousand_intervals n = pos_part n * 4194304

-- interval_ms > 0 and last_time != 0.0 and (time - last_time) * 1000.0 < interval_ms, with both
-- sides in ticks; a negative difference counts as 0, as both are below a positive interval.
unfoldable pub too_early : ℕ → VssMapping → Bool
unfolding round_float
too_early time m =
    ltb 0 (pos_part m.interval_ms)
    && (not (m.last_time == 0)
        && ltb (round_float ((time - m.last_time) * 1000)) (thousand_intervals m.interval_ms))

unfoldable pub time_condition_fulfilled : ℕ → VssMapping → Bool × VssMapping
unfolding too_early
time_condition_fulfilled time m =
    if too_early time m then (false, m) else (true, record m { last_time = time })

-- The test of the change condition.
unfoldable pub is_change : Value → VssMapping → Bool
is_change vss_value m =
    if is_none vss_value
    then false
    else if is_none m.last_vss_value
    then true
    else if m.on_change
    then not (py_eq m.last_vss_value vss_value)
    else true

unfoldable pub change_condition_fulfilled : Value → VssMapping → Bool × VssMapping
unfolding is_change
change_condition_fulfilled vss_value m =
    if is_change vss_value m then (true, record m { last_vss_value = vss_value }) else (false, m)

-- for item in tmp: if item["from"] == value, then item["to"]
unfoldable pub first_match : Items → Value → Result Value
first_match nil value = ok null
first_match (cons item rest) value = do
  from_val ← get_item item "from"
  elim (py_eq from_val value) [ true ↦ get_item item "to" | false ↦ first_match rest value ]

abbrev evaluated : Option Value → Value
evaluated none = null
evaluated (some v) = v

module _ (evaluate : Value → Value → Option Value) where
  -- The body for a transform that is not None.
  unfoldable pub apply_transform : Fields → Value → Result Value
  unfolding get_field iterate first_match
  apply_transform t value = elim (get_field "mapping" t) [
    | some tmp ↦ iterate tmp >>= λ items. first_match items value
    | none ↦ elim (get_field "math" t) [
      | some tmp ↦ ok (evaluated (evaluate tmp value))
      | none ↦ ok null
    ]
  ]

  unfoldable pub transform_value : VssMapping → Value → Result Value
  unfolding apply_transform
  transform_value m value = elim m.transform [ none ↦ ok value | some t ↦ apply_transform t value ]
