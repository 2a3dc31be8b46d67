-- ===== src/Examples/Conditions.antt =====
-- Instances for VSSMapping.
use kuksa_val_feeders.Mapping.Change.{Changes, DiffersFrom, sent_values, sent_values_on_change}
use kuksa_val_feeders.Python.Value.{
  Fields, Items, Value, arr, cons, contained_in, end, field, get_field, has_text, int, nil, null,
  obj, py_eq, str, get_item, iterate,
}
use kuksa_val_feeders.Prelude.{List, [], arith, false, refl, some, ℕ, ◌∷◌, ◌≡◌}
use kuksa_val_feeders.Mapping.Time.{Sampled, SpacedFrom, accepted_times, accepted_times_of_new}
use kuksa_val_feeders.Mapping.Transform.{
  Transformed, apply_transform-verify_transform, apply_transform_of_verified, Answers,
}
use kuksa_val_feeders.Mapping.{
  VssMapping, apply_transform, thousand_intervals, first_match, time_condition_fulfilled, too_early,
}
use kuksa_val_feeders.Mapper.Verify.{check_items, check_mapping, check_math, verify_transform}
use kuksa_val_feeders.Python.Errors.{err, ok, type_error}
use kuksa_val_feeders.Examples.{evaluate, speed}
use kuksa_val_feeders.Prelude.Int.{pos}
use kuksa_val_feeders.Python.Float.{round_float, round_to, unit_of}

-- The floats 1700000000.0, 1700000000.1 and 1700000000.2, in ticks.
abbrev start_time : ℕ
start_time = 7130316800000000

abbrev times : List ℕ
times = 7130316800419430 ∷ 7130316800838861 ∷ []

accepted_times_of_new_example :
    (out : List ℕ) × (accepted_times (start_time ∷ times) speed ≡ start_time ∷ out)
    × Sampled (thousand_intervals speed.interval_ms) start_time times out
    × SpacedFrom (thousand_intervals speed.interval_ms) start_time out
accepted_times_of_new_example =
    accepted_times_of_new start_time times speed (omega arith) (omega arith) refl (omega arith)

-- At an interval of 100 ms, the float that is read 0.1 s later comes a little early.
accepted_times_test : accepted_times (start_time ∷ times) speed ≡ start_time ∷ 7130316800838861 ∷ []
unfolding accepted_times time_condition_fulfilled too_early round_float unit_of round_to
accepted_times_test = refl

-- A product that needs 55 bits is rounded to a multiple of 4, and a tie to the even one.
round_float_test :
    (round_float 36028797018963965 ≡ 36028797018963964)
    × (round_float 36028797018963966 ≡ 36028797018963968)
    × (round_float 36028797018963967 ≡ 36028797018963968)
unfolding round_float unit_of round_to
round_float_test = (refl, refl, refl)

abbrev unlimited : VssMapping
unlimited = record speed { interval_ms = pos 0; on_change = false }

abbrev values : List Value
values = int (pos 1) ∷ int (pos 1) ∷ null ∷ int (pos 2) ∷ []

sent_values_on_change_example :
    Changes null values (sent_values values speed) × DiffersFrom null (sent_values values speed)
sent_values_on_change_example = sent_values_on_change values speed refl

abbrev on_item : Value
on_item = obj (field "from" (int (pos 1)) (field "to" (str "ON") end))

abbrev switch : Fields
switch = field "mapping" (arr (cons on_item nil)) end

switch_checked : verify_transform switch ≡ ok (some switch)
unfolding verify_transform check_mapping check_items contained_in get_field check_math
switch_checked = refl

apply_transform-verify_transform_example :
    (result : Value) × (apply_transform evaluate switch (int (pos 1)) ≡ ok result)
    × Transformed evaluate switch (int (pos 1)) result
unfolding get_field
apply_transform-verify_transform_example =
    apply_transform-verify_transform evaluate switch (int (pos 1)) switch_checked tt

abbrev texts : Items
texts = cons (str "from") (cons (str "to") nil)

abbrev dict_item : Fields
dict_item = field "from" (str "closed") (field "to" (str "off") end)

abbrev mixed : Items
mixed = cons (obj dict_item) (cons (arr texts) nil)

abbrev list_item : Fields
list_item = field "mapping" (arr mixed) end

list_item_checked : verify_transform list_item ≡ ok (some list_item)
unfolding verify_transform get_field has_text py_eq check_items contained_in
list_item_checked = refl

apply_transform_of_verified_example :
    Answers (str "open") mixed (apply_transform evaluate list_item (str "open"))
unfolding get_field
apply_transform_of_verified_example =
    apply_transform_of_verified evaluate list_item mixed (str "open") list_item_checked refl

list_item_test :
    (apply_transform evaluate list_item (str "closed") ≡ ok (str "off"))
    × (apply_transform evaluate list_item (str "open") ≡ err type_error)
unfolding apply_transform get_field py_eq first_match get_item iterate
list_item_test = (refl, refl)
