-- ===== src/Mapper.antt =====
-- The class Mapper of dbc2val/dbcfeederlib/dbc2vssmapper.py: its state and the methods that the
-- readers and the feeder call. Mapping objects are shared between the dictionaries of the mapper,
-- so they live in a store and the dictionaries hold references to them.
pub mod Verify
pub mod Build
pub mod Refs
pub mod WellFormed
pub mod Alike
pub mod Update
pub mod ValueDict
use kuksa_val_feeders.Prelude.{
  ℕ, String, Bool, true, false, not, Option, none, some, List, [], ◌∷◌, ◌++◌, map, ◌==◌, text_eq,
  nat_eq, if◌then◌else◌, get_elem?, set, length,
}
use kuksa_val_feeders.Python.Errors.{Result, ok, err, key_error, type_error}
use kuksa_val_feeders.Python.Dict.{Dict, lookup, insert, has_key, keys, values, add, add_all}
use kuksa_val_feeders.Python.Value.{Value, null, is_none, Fields, get_field}
use kuksa_val_feeders.Python.Run.{Run, pure, raise, lift, modify, ◌>>=◌, ◌>>◌}
use kuksa_val_feeders.Dbc.{Parser, get_canid_for_signal, get_signals_for_canid}
use kuksa_val_feeders.Mapping.{VssMapping, VssObservation, transform_value}

abbrev pub Ref : Type 0
Ref = ℕ

-- python-can's filter: an ID and the mask under which IDs are compared
pub record CanFilter : Type 0 where
  pub can_id : ℕ
  pub can_mask : ℕ

pub record Mapper : Type 0 where
  pub parser : Parser
  pub dbc_default : Fields
  pub objects : List VssMapping
  pub dbc2vss_mapping : Dict String (List Ref)
  pub vss2dbc_mapping : Dict String (List Ref)
  pub vss2dbc_can_id_mapping : Dict ℕ (List Ref)
  pub mapped_can_frame_ids : List ℕ
  pub can_filters : List CanFilter

-- The state of __init__ before the mapping definitions are traversed.
unfoldable pub new_mapper : Parser → Fields → Mapper
new_mapper parser dbc_default = record {
  parser = parser;
  dbc_default = dbc_default;
  objects = [];
  dbc2vss_mapping = [];
  vss2dbc_mapping = [];
  vss2dbc_can_id_mapping = [];
  mapped_can_frame_ids = [];
  can_filters = [];
}

-- d.get(k, []) as a list of references
abbrev pub refs_of {ℓ} : {A : Type ℓ} → Option (List A) → List A
refs_of none = []
refs_of (some refs) = refs

-- the object behind a reference, changed
unfoldable pub update : Ref → (VssMapping → VssMapping) → Mapper → Mapper
update r f m = elim (get_elem? m.objects r) [
  | none ↦ m
  | some o ↦ record m { objects = set m.objects r (f o) }
]

abbrev filter_for : ℕ → ℕ → CanFilter
filter_for mask frame_id = record { can_id = frame_id; can_mask = mask }

unfoldable pub can_frame_id_whitelist : Mapper → List CanFilter × Mapper
can_frame_id_whitelist m = elim m.can_filters [
  | [] ↦
      let filters = map (filter_for m.parser.frame_id_mask) m.mapped_can_frame_ids in
      (filters, record m { can_filters = filters })
  | f ∷ fs ↦ (m.can_filters, m)
]

-- the test of the loop of get_dbc2vss_mapping; `rest` is what the later rounds return
unfoldable pub match_or : String → Ref → Option VssMapping → Option Ref → Option Ref
match_or vss_name r none rest = rest
match_or vss_name r (some o) rest = if o.vss_name == vss_name then some r else rest

unfoldable pub find_by_vss_name : String → List VssMapping → List Ref → Option Ref
unfolding match_or
find_by_vss_name vss_name objects [] = none
find_by_vss_name vss_name objects (r ∷ refs) =
    match_or vss_name r (get_elem? objects r) (find_by_vss_name vss_name objects refs)

unfoldable pub get_dbc2vss_mapping : String → String → Mapper → Option Ref
unfolding find_by_vss_name
get_dbc2vss_mapping dbc_name vss_name m =
    find_by_vss_name vss_name m.objects (refs_of (lookup dbc_name m.dbc2vss_mapping))

unfoldable pub get_dbc2vss_mappings : String → Mapper → List Ref
get_dbc2vss_mappings dbc_name m = refs_of (lookup dbc_name m.dbc2vss_mapping)

unfoldable pub get_dbc2vss_entries : Mapper → List String
get_dbc2vss_entries m = keys m.dbc2vss_mapping

unfoldable pub get_vss2dbc_entries : Mapper → List String
get_vss2dbc_entries m = keys m.vss2dbc_mapping

-- the VSS names of a list of references
unfoldable pub vss_names_of : List VssMapping → List Ref → List String
vss_names_of objects [] = []
vss_names_of objects (r ∷ refs) = elim (get_elem? objects r) [
  | none ↦ vss_names_of objects refs
  | some o ↦ o.vss_name ∷ vss_names_of objects refs
]

unfoldable pub collect_vss_names : List VssMapping → List (List Ref) → List String → List String
unfolding vss_names_of
collect_vss_names objects [] names = names
collect_vss_names objects (entry ∷ entries) names =
    collect_vss_names objects entries (add_all (vss_names_of objects entry) names)

unfoldable pub get_vss_names : Mapper → List String
unfolding collect_vss_names
get_vss_names m =
    add_all (keys m.vss2dbc_mapping) (collect_vss_names m.objects (values m.dbc2vss_mapping) [])

abbrev is_nonempty {ℓ} : {A : Type ℓ} → List A → Bool
is_nonempty [] = false
is_nonempty (x ∷ xs) = true

unfoldable pub has_dbc2vss_mapping : Mapper → Bool
has_dbc2vss_mapping m = is_nonempty m.dbc2vss_mapping

unfoldable pub has_vss2dbc_mapping : Mapper → Bool
has_vss2dbc_mapping m = is_nonempty m.vss2dbc_mapping

-- for signal in signals: res[signal] = self._dbc_default[signal], if it is there
unfoldable pub defaults_for : Fields → List String → Dict String Value → Dict String Value
defaults_for dbc_default [] res = res
defaults_for dbc_default (signal ∷ signals) res =
    defaults_for dbc_default signals
      (elim (get_field signal dbc_default) [ none ↦ res | some v ↦ insert signal v res ])

unfoldable pub get_default_values : ℕ → Mapper → Dict String Value × Mapper
unfolding defaults_for
get_default_values can_id m =
    let (signals, p) = get_signals_for_canid can_id m.parser in
    (defaults_for m.dbc_default signals [], record m { parser = p })

-- for can_mapping in refs: res[dbc_name] = last_dbc_value, unless that is None
unfoldable pub overlay : List VssMapping → List Ref → Dict String Value → Dict String Value
overlay objects [] res = res
overlay objects (r ∷ refs) res = overlay objects refs (elim (get_elem? objects r) [
  | none ↦ res
  | some o ↦ if is_none o.last_dbc_value then res else insert o.dbc_name o.last_dbc_value res
])

unfoldable pub get_value_dict : ℕ → Run Mapper (Dict String Value)
unfolding get_default_values overlay
get_value_dict can_id m =
    let (res, m') = get_default_values can_id m in
    elim (lookup can_id m'.vss2dbc_can_id_mapping) [
      | none ↦ (err key_error, m')
      | some refs ↦ (ok (overlay m'.objects refs res), m')
    ]

module _ (evaluate : Value → Value → Option Value) where
  -- one round of the loop of handle_update
  unfoldable pub store_dbc_value : Ref → Value → List String → Run Mapper (List String)
  unfolding update
  store_dbc_value r value dbc_ids m = elim (get_elem? m.objects r) [
    | none ↦ (ok dbc_ids, m)
    | some o ↦ elim (transform_value evaluate o value) [
      | err e ↦ (err e, m)
      | ok dbc_value ↦
          (ok (add o.dbc_name dbc_ids), update r (λ o'. record o' { last_dbc_value = dbc_value }) m)
    ]
  ]

  unfoldable pub store_dbc_values : List Ref → Value → List String → Run Mapper (List String)
  unfolding store_dbc_value
  store_dbc_values [] value dbc_ids = pure dbc_ids
  store_dbc_values (r ∷ refs) value dbc_ids = do
    ids ← store_dbc_value r value dbc_ids
    store_dbc_values refs value ids

  unfoldable pub handle_update : String → Value → Run Mapper (List String)
  unfolding store_dbc_values
  handle_update vss_name value m = elim (lookup vss_name m.vss2dbc_mapping) [
    | none ↦ (err key_error, m)
    | some refs ↦ store_dbc_values refs value [] m
  ]

  unfoldable pub transform_dbc_value : VssObservation → Mapper → Result Value
  unfolding get_dbc2vss_mapping
  transform_dbc_value obs m = elim (get_dbc2vss_mapping obs.dbc_name obs.vss_name m) [
    | none ↦ ok null
    | some r ↦ elim (get_elem? m.objects r) [
      | none ↦ ok null
      | some o ↦ transform_value evaluate o obs.raw_value
    ]
  ]
