-- ===== src/Python/Value.antt =====
-- Python's dynamic values, as JSON and CAN decoding produce them, and `==`, `in` and `[]` on them.
-- A finite float is exactly m / 10^e for some integers m and e; NaN and infinities are left out.
use text.Mathlib.Text.{find?}
use kuksa_val_feeders.Prelude.{
  ℕ, suc, ◌^◌, ◌≡◌, refl, String, Bool, true, false, ◌&&◌, ◌||◌, Option, none, some, ◌==◌, text_eq,
  nat_beq, if◌then◌else◌,
}
use kuksa_val_feeders.Prelude.Int.{ℤ, pos, beq_ℤ, scale}
use kuksa_val_feeders.Python.Errors.{Result, ok, err, key_error, type_error}

mutual
  pub data Value : Type 0 where
    null : Value
    bool : Bool → Value
    int : ℤ → Value
    real : ℤ → ℕ → Value
    str : String → Value
    obj : (entries : Fields) → Value
    arr : (elements : Items) → Value

  pub data Fields : Type 0 where
    field : (key : String) (value : Value) (others : Fields) → Fields
    end : Fields

  pub data Items : Type 0 where
    cons : (element : Value) (others : Items) → Items
    nil : Items

unfoldable pub get_field : String → Fields → Option Value
get_field k end = none
get_field k (field j v fs) = if j == k then some v else get_field k fs

abbrev pub has_field : String → Fields → Bool
has_field k fs = elim (get_field k fs) [ none ↦ false | some v ↦ true ]

unfoldable pub count_fields : Fields → ℕ
count_fields end = 0
count_fields (field k v fs) = suc (count_fields fs)

-- `bool` is a subclass of `int`
abbrev pub of_bool : Bool → ℤ
of_bool true = pos 1
of_bool false = pos 0

-- m / 10^e == the number w, if w is one
unfoldable pub number_eq : ℤ → ℕ → Value → Bool
number_eq m e (bool b) = beq_ℤ m (scale (of_bool b) (10 ^ e))
number_eq m e (int n) = beq_ℤ m (scale n (10 ^ e))
number_eq m e (real n f) = beq_ℤ (scale m (10 ^ f)) (scale n (10 ^ e))
number_eq m e _ = false

-- v == w
unfoldable mutual
  pub py_eq : Value → Value → Bool
  py_eq null w = elim w [ null ↦ true | _ ↦ false ]
  py_eq (bool b) w = number_eq (of_bool b) 0 w
  py_eq (int n) w = number_eq n 0 w
  py_eq (real m e) w = number_eq m e w
  py_eq (str s) w = elim w [ str t ↦ s == t | _ ↦ false ]
  py_eq (arr xs) w = elim w [ arr ys ↦ eq_items xs ys | _ ↦ false ]
  py_eq (obj fs) w = elim w [
    | obj gs ↦ nat_beq (count_fields fs) (count_fields gs) && eq_fields fs gs
    | _ ↦ false
  ]

  pub eq_items : Items → Items → Bool
  eq_items nil ys = elim ys [ nil ↦ true | cons y ys ↦ false ]
  eq_items (cons x xs) ys = elim ys [ nil ↦ false | cons y ys ↦ py_eq x y && eq_items xs ys ]

  pub eq_fields : Fields → Fields → Bool
  eq_fields end gs = true
  eq_fields (field k v fs) gs = elim (get_field k gs) [
    | none ↦ false
    | some w ↦ py_eq v w && eq_fields fs gs
  ]

-- v is None
abbrev pub is_none : Value → Bool
is_none null = true
is_none _ = false

unfoldable pub has_text : String → Items → Bool
unfolding py_eq
has_text k nil = false
has_text k (cons x xs) = py_eq x (str k) || has_text k xs

abbrev is_some_index : Option ℕ → Bool
is_some_index none = false
is_some_index (some i) = true

-- k in v: a key of a dict, an element of a list, a part of a text
unfoldable pub contained_in : String → Value → Result Bool
unfolding get_field has_text
contained_in k (obj fs) = ok (has_field k fs)
contained_in k (arr xs) = ok (has_text k xs)
contained_in k (str s) = ok (is_some_index (find? s k))
contained_in k _ = err type_error

-- v[k]: a list and a text want an integer there
unfoldable pub get_item : Value → String → Result Value
unfolding get_field
get_item (obj fs) k = elim (get_field k fs) [ none ↦ err key_error | some v ↦ ok v ]
get_item _ k = err type_error

unfoldable pub keys_of : Fields → Items
keys_of end = nil
keys_of (field k v fs) = cons (str k) (keys_of fs)

unfoldable pub chars_of : String → Items
chars_of String.[] = nil
chars_of (String.◌∷◌ c s) = cons (str (String.◌∷◌ c String.[])) (chars_of s)

-- iter(v)
unfoldable pub iterate : Value → Result Items
unfolding keys_of chars_of
iterate (arr xs) = ok xs
iterate (obj fs) = ok (keys_of fs)
iterate (str s) = ok (chars_of s)
iterate _ = err type_error

one_is_true : py_eq (int (pos 1)) (bool true) ≡ true
unfolding py_eq number_eq
one_is_true = refl

float_is_int : py_eq (real (pos 250) 2) (real (pos 25) 1) ≡ true
unfolding py_eq number_eq
float_is_int = refl
