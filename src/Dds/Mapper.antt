-- ===== src/Dds/Mapper.antt =====
-- Vss2DdsMapper and formula of dds2val/ddsproviderlib/vss2ddsmapper.py.
-- The keys of the mapping file are texts.
pub mod Grouped
pub mod Transform
use kuksa_val_feeders.Prelude.{
  List, Option, String, [], if◌then◌else◌, none, some, ℕ, ◌++◌, ◌==◌, ◌∷◌, text_eq, nat_eq,
}
use kuksa_val_feeders.Prelude.Int.{pos, ℤ}
use kuksa_val_feeders.Python.Dict.{Dict, insert, lookup}
use kuksa_val_feeders.Python.Errors.{
  Result, attribute_error, err, key_error, ok, stop_iteration, type_error, unsupported_signal,
  ◌>>=◌,
}
use kuksa_val_feeders.Python.Number.{divided_by, int_of_value, plus, times}
use kuksa_val_feeders.Python.Value.{
  Fields, Items, Value, arr, bool, cons, end, field, get_field, get_item, int, iterate, nil, null,
  obj, real, str,
}

-- What a topic has for one VSS signal.
pub record VssInfo : Type 0 where
  pub vsssignal : String
  pub element : Value
  pub transform : Value

-- dds2vss[topic]
pub record TopicInfo : Type 0 where
  pub vsssignals : List VssInfo
  pub typename : Value

pub record Vss2DdsMapper : Type 0 where
  pub mapping : Fields
  pub dds2vss_dict : Dict String TopicInfo

-- v.get(k, default)
unfoldable pub get_or : Value → String → Value → Result Value
unfolding get_field
get_or (obj fs) k default = elim (get_field k fs) [ none ↦ ok default | some v ↦ ok v ]
get_or _ k default = err attribute_error

-- next(iter(...)), for a text
abbrev first_text : Items → Result String
first_text nil = err stop_iteration
first_text (cons (str s) items) = ok s
first_text (cons _ items) = err unsupported_signal

-- What _createdict reads of one entry of the mapping.
pub record Source : Type 0 where
  pub topic : String
  pub typename : Value
  pub element : Value
  pub transform : Value

unfoldable pub read_source : Value → Result Source
unfolding get_item iterate get_or
read_source entry = do
  source ← get_item entry "source"
  items ← iterate source
  topic ← first_text items
  info ← get_item source topic
  typename ← get_or info "typename" null
  element ← get_or info "element" (str "")
  transform ← get_or info "transform" (str "")
  ok (record { topic = topic; typename = typename; element = element; transform = transform })

abbrev pub info_of : String → Source → VssInfo
info_of name s = record { vsssignal = name; element = s.element; transform = s.transform }

abbrev pub signals_of : Option TopicInfo → List VssInfo
signals_of none = []
signals_of (some t) = t.vsssignals

-- The topic is opened if it is new, gets the typename of the entry, and its signal at the end.
unfoldable pub add_signal : String → Source → Dict String TopicInfo → Dict String TopicInfo
unfolding insert lookup
add_signal name s dds2vss =
    insert s.topic
      (record {
        vsssignals = signals_of (lookup s.topic dds2vss) ++ (info_of name s ∷ []);
        typename = s.typename;
      })
      dds2vss

unfoldable pub createdict : Fields → Dict String TopicInfo → Result (Dict String TopicInfo)
unfolding read_source add_signal
createdict end dds2vss = ok dds2vss
createdict (field name entry mapping) dds2vss =
    read_source entry >>= λ s. createdict mapping (add_signal name s dds2vss)

-- __init__, with what the YAML parser read; an empty list or text, which would give a mapper
-- without signals, is taken for another value that is no dict.
unfoldable pub new_vss2dds_mapper : Value → Result Vss2DdsMapper
unfolding createdict
new_vss2dds_mapper (obj mapping) = do
  dds2vss ← createdict mapping []
  ok (record { mapping = mapping; dds2vss_dict = dds2vss })
new_vss2dds_mapper _ = err type_error

module _ (nearest : ℤ → ℕ → Value) where
  -- value * nominator / denominator + offset
  unfoldable pub formula : Value → Value → Result Value
  unfolding get_or int_of_value times divided_by plus
  formula spec value = do
    given_nominator ← get_or spec "nominator" (int (pos 1))
    nominator ← int_of_value given_nominator
    given_denominator ← get_or spec "denominator" (int (pos 1))
    denominator ← int_of_value given_denominator
    given_offset ← get_or spec "offset" (int (pos 0))
    offset ← int_of_value given_offset
    product ← times nearest value nominator
    ratio ← divided_by nearest product denominator
    plus nearest ratio offset

  -- The transform of one entry.
  unfoldable pub transformed : VssInfo → Value → Result Value
  unfolding get_item formula
  transformed entry value = do spec ← get_item entry.transform "formula"; formula spec value

  unfoldable pub transform_by : List VssInfo → String → Value → Result Value
  unfolding transformed
  transform_by [] vsssignal value = ok value
  transform_by (entry ∷ entries) vsssignal value =
      (if entry.vsssignal == vsssignal then transformed entry value else ok value)
      >>= transform_by entries vsssignal

  unfoldable pub transform : String → String → Value → Vss2DdsMapper → Result Value
  unfolding transform_by lookup
  transform ddstopic vsssignal value m = elim (lookup ddstopic m.dds2vss_dict) [
    | none ↦ err key_error
    | some t ↦ transform_by t.vsssignals vsssignal value
  ]
