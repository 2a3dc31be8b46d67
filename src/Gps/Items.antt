-- ===== src/Gps/Items.antt =====
-- What Kuksa_Client.setData sets, where the client thread answers.
use mathlib.Core.Path.{subst}
use kuksa_val_feeders.Prelude.{
  Bool, List, Option, String, [], ap, append-nil, append_assoc, arith, false, if◌then◌else◌, none,
  not, refl, some, suc, sym, true, ℕ, ◌++◌, ◌+◌, ◌∙◌, ◌∷◌, ◌≡◌, Bool-cases, inl, inr, if_holds, leb,
  ◌*◌,
}
use kuksa_val_feeders.Gps.{
  KuksaClient, check_response, count_sent, note_value, on_reply, response_of, set_data, set_item,
  unless_failed,
}
use kuksa_val_feeders.Python.Dict.{Dict}
use kuksa_val_feeders.Python.Errors.{Result, ok}
use kuksa_val_feeders.Python.Run.{bind_ok, lift, modify, pure, ◌>>=◌}
use kuksa_val_feeders.Python.Value.{
  Fields, Value, contained_in, get_item, has_field, is_none, obj, get_field,
}

abbrev pub one_if : Bool → ℕ
one_if true = 1
one_if false = 0

-- A response is a success unless it has an error.
abbrev pub is_success : Fields → Bool
is_success fs = not (has_field "error" fs)

-- The run returned, with so many more successes, and these values set.
abbrev pub Sent :
    ℕ → List (String × String) → KuksaClient → Result (Unit {0}) × KuksaClient → Type 0
Sent successes values c (result, c') =
    (result ≡ ok tt)
    × (c'.values_set ≡ c.values_set ++ values)
    × (c'.messages_sent ≡ c.messages_sent + successes)

count_sent-Sent : (c : KuksaClient) → Sent 1 [] c (ok tt, count_sent c)
unfolding count_sent
count_sent-Sent c =
    if_holds (λ c'. Sent 1 [] c (ok tt, c')) (leb (2 * c.last_sent_log_entry) (suc c.messages_sent))
      (λ due. (refl, sym (append-nil c.values_set), omega arith))
      (λ early. (refl, sym (append-nil c.values_set), omega arith))

found_error :
    (o : Option Value) → elim o [ none ↦ false | some v ↦ true ] ≡ true → (v : Value) × (o ≡ some v)
found_error none h = cc
found_error (some v) h = (v, refl)

get_item_there :
    (key : String) (fs : Fields) (v : Value)
    → get_field key fs ≡ some v
    → get_item (obj fs) key ≡ ok v
unfolding get_item
get_item_there key fs v there = rw (there, get_item) refl

unless_failed-Sent :
    (fs : Fields) (failed : Bool) (c : KuksaClient)
    → has_field "error" fs ≡ failed
    → Sent (one_if (not failed)) [] c (unless_failed (obj fs) failed c)
unfolding unless_failed get_item modify lift pure ◌>>=◌
unless_failed-Sent fs false c h = count_sent-Sent c
unless_failed-Sent fs true c h =
    let (v, there) = found_error (get_field "error" fs) h in
    let got = get_item_there "error" fs v there in
    let ends =
      bind_ok (lift {S = KuksaClient} (get_item (obj fs) "error")) (λ e. pure tt) c {t = c}
        (ap (λ r. (r, c)) got) in
    subst (Sent 0 [] c) (sym ends) (refl, sym (append-nil c.values_set), omega arith)

check_response-Sent :
    (fs : Fields) (c : KuksaClient) → Sent (one_if (is_success fs)) [] c (check_response (obj fs) c)
unfolding check_response contained_in lift ◌>>=◌
check_response-Sent fs c = unless_failed-Sent fs (has_field "error" fs) c refl

module _ (py_str : Value → String) (loads : String → Option Value) where
  -- The client thread answers, and not by a JSON text of another kind than an object.
  abbrev pub Answers : Option String → Fields → Type 0
  Answers reply fs =
      (text : String) × (reply ≡ some text) × (response_of py_str loads text ≡ obj fs)

  on_reply-Sent :
      (reply : Option String) (fs : Fields) (c : KuksaClient)
      → Answers reply fs
      → Sent (one_if (is_success fs)) [] c (on_reply py_str loads reply c)
  unfolding on_reply
  on_reply-Sent reply fs c (text, answered, response) =
      rw answered (rw response (check_response-Sent fs c))

  -- The values that are set: those that are not None, as texts.
  abbrev pub present : String → Value → List (String × String)
  present path value = if is_none value then [] else (path, py_str value) ∷ []

  abbrev pub present_of : Dict String Value → List (String × String)
  present_of [] = []
  present_of ((path, value) ∷ items) = present path value ++ present_of items

  -- How many of them are answered by a success.
  abbrev pub successes : (String → Fields) → List (String × String) → ℕ
  successes response [] = 0
  successes response ((path, text) ∷ values) =
      one_if (is_success (response path)) + successes response values

  set_item-Sent :
      (reply : String → Option String) (response : String → Fields) (path : String) (value : Value)
      (c : KuksaClient)
      → ((path : String) → Answers (reply path) (response path))
      → Sent
          (successes response (present path value))
          (present path value)
          c
          (set_item py_str loads reply path value c)
  unfolding set_item modify pure ◌>>=◌
  set_item-Sent reply response path value c answers = elim (Bool-cases (is_none value)) [
    | inl absent ↦ rw absent (refl, sym (append-nil c.values_set), omega arith)
    | inr there ↦
        let sent =
          on_reply-Sent (reply path) (response path) (note_value path (py_str value) c)
            (answers path) in
        rw there (
          sent.0,
          sent.1 ∙ append-nil (c.values_set ++ ((path, py_str value) ∷ [])),
          omega (arith, sent.2),
        )
  ]

  successes-append :
      (response : String → Fields) (xs ys : List (String × String))
      → successes response (xs ++ ys) ≡ successes response xs + successes response ys
  successes-append response [] ys = omega arith
  successes-append response ((path, text) ∷ xs) ys = omega (arith, successes-append response xs ys)

  pub set_data-Sent :
      (reply : String → Option String) (response : String → Fields) (items : Dict String Value)
      (c : KuksaClient)
      → ((path : String) → Answers (reply path) (response path))
      → Sent
          (successes response (present_of items))
          (present_of items)
          c
          (set_data py_str loads reply items c)
  unfolding set_data pure
  set_data-Sent reply response [] c answers = (refl, sym (append-nil c.values_set), omega arith)
  set_data-Sent reply response ((path, value) ∷ items) c answers =
      let first = set_item-Sent reply response path value c answers in
      let c' = (set_item py_str loads reply path value c).1 in
      let others = set_data-Sent reply response items c' answers in
      let runs =
        bind_ok (set_item py_str loads reply path value) (λ u. set_data py_str loads reply items) c
          {t = c'} (ap (λ r. (r, c')) first.0) in
      rw (runs, successes-append response (present path value) (present_of items))
        (
          others.0,
          others.1
              ∙ (ap (λ l. l ++ present_of items) first.1
                  ∙ append_assoc c.values_set (present path value) (present_of items)),
          omega (arith, others.2, first.2),
        )
