-- ===== src/Mapping/Transform.antt =====
-- VSSMapping.transform_value on the transforms that Mapper._extract_verify_transform accepts.
use mathlib.Core.Path.{subst}
use kuksa_val_feeders.Prelude.{
  Bool, sym, Bool-cases, Option-cases, String, arith, false, inl, inr, refl, some, true, ◌≡◌,
  Option, none, ap, ◌∙◌,
}
use kuksa_val_feeders.Python.Value.{
  Fields, Items, Value, cons, contained_in, get_field, has_field, nil, null, obj, py_eq, arr,
  get_item, str, iterate,
}
use kuksa_val_feeders.Mapper.Verify.{check_items, verify_transform}
use kuksa_val_feeders.Mapping.{first_match, apply_transform, evaluated}
use kuksa_val_feeders.Python.Errors.{Result, ok, err, type_error}

-- The items are dicts, as the documentation of a mapping has them.
abbrev pub AllDicts : Items → Type 0
AllDicts nil = Unit
AllDicts (cons (obj fs) rest) = AllDicts rest
AllDicts (cons _ rest) = ⊥

-- `result` is the "to" of the first item whose "from" equals the value, and None if there is none.
pub data FirstMatch (value : Value) : Items → Value → Type 0 where
  no_match : FirstMatch value nil null
  here :
      {fs : Fields} {from result : Value} {rest : Items}
      → get_field "from" fs ≡ some from
      → py_eq from value ≡ true
      → get_field "to" fs ≡ some result
      → FirstMatch value (cons (obj fs) rest) result
  later :
      {fs : Fields} {from result : Value} {rest : Items}
      → get_field "from" fs ≡ some from
      → py_eq from value ≡ false
      → FirstMatch value rest result
      → FirstMatch value (cons (obj fs) rest) result

check_items-cons :
    (fs : Fields) (rest : Items)
    → check_items (cons (obj fs) rest) ≡ ok tt
    → (has_field "from" fs ≡ true) × (has_field "to" fs ≡ true) × (check_items rest ≡ ok tt)
unfolding check_items contained_in
check_items-cons fs rest h = ground arith

has_field-cases :
    (k : String) (fs : Fields) → has_field k fs ≡ true → (v : Value) × (get_field k fs ≡ some v)
has_field-cases k fs h = ground arith

first_match-FirstMatch :
    (items : Items) (value : Value)
    → AllDicts items
    → check_items items ≡ ok tt
    → (result : Value) × (first_match items value ≡ ok result) × FirstMatch value items result
unfolding first_match get_item
first_match-FirstMatch nil value d h = (null, refl, no_match)
first_match-FirstMatch (cons (obj fs) rest) value d h =
    let (has_from, has_to, h') = check_items-cons fs rest h in
    let (from, is_from) = has_field-cases "from" fs has_from in
    let (to, is_to) = has_field-cases "to" fs has_to in
    elim (Bool-cases (py_eq from value)) [
      | inl same ↦ (to, ground arith, here is_from same is_to)
      | inr other ↦
          let (result, found, m) = first_match-FirstMatch rest value d h' in
          (result, ground arith, later is_from other m)
    ]
first_match-FirstMatch (cons _ rest) value d h = absurd d

-- The items of a "mapping" are dicts; there may be no "mapping".
abbrev pub MappingOfDicts : Option Value → Type 0
MappingOfDicts (some (arr xs)) = AllDicts xs
MappingOfDicts _ = Unit

verify_transform_math :
    (t : Fields)
    → get_field "mapping" t ≡ none
    → verify_transform t ≡ ok (some t)
    → (e : String) × (get_field "math" t ≡ some (str e))
unfolding verify_transform
verify_transform_math t n h = ground arith

verify_transform_mapping :
    (t : Fields) (v : Value)
    → get_field "mapping" t ≡ some v
    → verify_transform t ≡ ok (some t)
    → (xs : Items) × (v ≡ arr xs) × (check_items xs ≡ ok tt)
unfolding verify_transform
verify_transform_mapping t (arr xs) n h = (xs, refl, ground arith)
verify_transform_mapping t v n h = ground arith

verify_transform_items :
    (t : Fields) (xs : Items)
    → get_field "mapping" t ≡ some (arr xs)
    → verify_transform t ≡ ok (some t)
    → check_items xs ≡ ok tt
unfolding verify_transform
verify_transform_items t xs there h = ground arith

abbrev pub is_dict : Value → Bool
is_dict (obj fs) = true
is_dict _ = false

-- An item that is no dict is reached: the items before it are dicts and do not match.
pub data Misfit (value : Value) : Items → Type 0 where
  misfit : {item : Value} {rest : Items} → is_dict item ≡ false → Misfit value (cons item rest)
  past :
      {fs : Fields} {from : Value} {rest : Items}
      → get_field "from" fs ≡ some from
      → py_eq from value ≡ false
      → Misfit value rest
      → Misfit value (cons (obj fs) rest)

-- What the search through the items answers.
pub data Answers (value : Value) (xs : Items) : Result Value → Type 0 where
  result_of_match : {result : Value} → FirstMatch value xs result → Answers value xs (ok result)
  raises_type_error : Misfit value xs → Answers value xs (err type_error)

first_match_misfit :
    (item value : Value) (rest : Items)
    → is_dict item ≡ false
    → first_match (cons item rest) value ≡ err type_error
unfolding first_match get_item
first_match_misfit item value rest h = ground (arith, h)

Answers-past :
    {fs : Fields} {from value : Value} {rest : Items}
    → get_field "from" fs ≡ some from
    → py_eq from value ≡ false
    → (r : Result Value) → Answers value rest r
    → Answers value (cons (obj fs) rest) r
Answers-past is_from other _ (result_of_match m) = result_of_match (later is_from other m)
Answers-past is_from other _ (raises_type_error m) = raises_type_error (past is_from other m)

first_match_here :
    (fs : Fields) (from to value : Value) (rest : Items)
    → get_field "from" fs ≡ some from
    → py_eq from value ≡ true
    → get_field "to" fs ≡ some to
    → first_match (cons (obj fs) rest) value ≡ ok to
unfolding first_match get_item
first_match_here fs from to value rest is_from same is_to = ground arith

first_match_later :
    (fs : Fields) (from value : Value) (rest : Items)
    → get_field "from" fs ≡ some from
    → py_eq from value ≡ false
    → first_match (cons (obj fs) rest) value ≡ first_match rest value
unfolding first_match get_item
first_match_later fs from value rest is_from other = ground arith

first_match-Answers :
    (xs : Items) (value : Value) → check_items xs ≡ ok tt → Answers value xs (first_match xs value)
unfolding first_match get_item
first_match-Answers nil value h = result_of_match no_match
first_match-Answers (cons (obj fs) rest) value h =
    let (has_from, has_to, h') = check_items-cons fs rest h in
    let (from, is_from) = has_field-cases "from" fs has_from in
    let (to, is_to) = has_field-cases "to" fs has_to in
    elim (Bool-cases (py_eq from value)) [
      | inl same ↦
          subst (Answers value (cons (obj fs) rest))
            (sym (first_match_here fs from to value rest is_from same is_to))
            (result_of_match (here is_from same is_to))
      | inr other ↦
          subst (Answers value (cons (obj fs) rest))
            (sym (first_match_later fs from value rest is_from other))
            (Answers-past is_from other (first_match rest value)
              (first_match-Answers rest value h'))
    ]
first_match-Answers (cons item rest) value h = raises_type_error (misfit refl)

module _ (evaluate : Value → Value → Option Value) where
  -- What the documentation says of a transform: the first matching item, or the evaluated formula.
  pub data Transformed (t : Fields) (value : Value) : Value → Type 0 where
    by_mapping :
        {xs : Items} {result : Value}
        → get_field "mapping" t ≡ some (arr xs)
        → FirstMatch value xs result
        → Transformed t value result
    by_math :
        {e : String} {result : Value}
        → get_field "mapping" t ≡ none
        → get_field "math" t ≡ some (str e)
        → result ≡ evaluated (evaluate (str e) value)
        → Transformed t value result

  transformed_by_math :
      (t : Fields) (value : Value) (e : String)
      → get_field "mapping" t ≡ none
      → get_field "math" t ≡ some (str e)
      → apply_transform evaluate t value ≡ ok (evaluated (evaluate (str e) value))
  unfolding apply_transform
  transformed_by_math t value e n there = rw (n, apply_transform) (rw there)

  transformed_by_mapping :
      (t : Fields) (value : Value) (xs : Items)
      → get_field "mapping" t ≡ some (arr xs)
      → apply_transform evaluate t value ≡ first_match xs value
  unfolding apply_transform iterate
  transformed_by_mapping t value xs there = rw (there, apply_transform)

  -- A transform that passes verification, with dicts for the items of its mapping, never raises,
  -- and its result is the one that the documentation states.
  pub apply_transform-verify_transform :
      (t : Fields) (value : Value)
      → verify_transform t ≡ ok (some t)
      → MappingOfDicts (get_field "mapping" t)
      → (result : Value) × (apply_transform evaluate t value ≡ ok result)
        × Transformed t value result
  unfolding verify_transform apply_transform
  apply_transform-verify_transform t value h d = elim (Option-cases (get_field "mapping" t)) [
    | inl n ↦
        let (e, there) = verify_transform_math t n h in
        (
          evaluated (evaluate (str e) value),
          transformed_by_math t value e n there,
          by_math n there refl,
        )
    | inr (v, found) ↦
        let (xs, is_list, checked) = verify_transform_mapping t v found h in
        let there = found ∙ ap some is_list in
        let (result, is_result, matches) =
          first_match-FirstMatch xs value (rw there at d) checked in
        (result, transformed_by_mapping t value xs there ∙ is_result, by_mapping there matches)
  ]

  -- A verified mapping, whatever its items are, answers a value with the "to" of the first item
  -- whose "from" equals the value (None if there is none), or raises TypeError; it raises only where
  -- an item that is no dict, which verification accepts if it is a list or a text with "from" and
  -- "to" in it, is reached: all items before it are dicts whose "from" does not equal the value.
  pub apply_transform_of_verified :
      (t : Fields) (xs : Items) (value : Value)
      → verify_transform t ≡ ok (some t)
      → get_field "mapping" t ≡ some (arr xs)
      → Answers value xs (apply_transform evaluate t value)
  apply_transform_of_verified t xs value h there =
      subst (Answers value xs) (sym (transformed_by_mapping t value xs there))
        (first_match-Answers xs value (verify_transform_items t xs there h))
