-- ===== src/Mapper/Update.antt =====
-- handle_update writes through the references of `_vss2dbc_mapping`, and get_value_dict reads the
-- same objects through those of `_vss2dbc_can_id_mapping`.
use kuksa_val_feeders.Prelude.{
  List, Option, String, get_elem?, some, ◌==◌, ◌≡◌, text_eq, nat_eq, Option-cases, ap, arith, false,
  get_elem?-set, inl, inr, none, refl, set, ◌∙◌, Bool-cases, [], contains, if◌then◌else◌, sym, ◌∷◌,
  Bool, nat_beq_iff, true, ◌||◌,
}
use kuksa_val_feeders.Mapper.{Mapper, Ref, store_dbc_value, update, store_dbc_values}
use kuksa_val_feeders.Python.Errors.{Result, err, ok, Error, Result-cases}
use kuksa_val_feeders.Python.Value.{Value, null}
use kuksa_val_feeders.Mapping.{VssMapping, transform_value}
use kuksa_val_feeders.Python.Dict.{add}
use kuksa_val_feeders.Python.Run.{pure, ◌>>=◌}

abbrev pub with_dbc_value : VssMapping → Value → VssMapping
with_dbc_value o v = record o { last_dbc_value = v }

abbrev pub value_or_none : Result Value → Value
value_or_none (ok v) = v
value_or_none (err e) = null

module _ (evaluate : Value → Value → Option Value) where
  -- The value that an update leaves in a mapping.
  abbrev pub dbc_value_of : VssMapping → Value → Value
  dbc_value_of o value = value_or_none (transform_value evaluate o value)

  transform_value-with_dbc_value :
      (o : VssMapping) (x value : Value)
      → transform_value evaluate (with_dbc_value o x) value ≡ transform_value evaluate o value
  unfolding transform_value
  transform_value-with_dbc_value o x value = refl

  -- One round, by what is behind the reference and what the transform answers.
  pub store_dbc_value_ok :
      (r : Ref) (value : Value) (ids : List String) (m : Mapper) (o : VssMapping) (w : Value)
      → get_elem? m.objects r ≡ some o
      → transform_value evaluate o value ≡ ok w
      → store_dbc_value evaluate r value ids m
        ≡ (ok (add o.dbc_name ids), record m { objects = set m.objects r (with_dbc_value o w) })
  unfolding store_dbc_value
  store_dbc_value_ok r value ids m o w found result =
      rw (found, store_dbc_value) (rw result (rw (found, update)))

  pub store_dbc_value_err :
      (r : Ref) (value : Value) (ids : List String) (m : Mapper) (o : VssMapping) (e : Error)
      → get_elem? m.objects r ≡ some o
      → transform_value evaluate o value ≡ err e
      → store_dbc_value evaluate r value ids m ≡ (err e, m)
  unfolding store_dbc_value
  store_dbc_value_err r value ids m o e found result = rw (found, store_dbc_value) (rw result)

  pub store_dbc_value_dangling :
      (r : Ref) (value : Value) (ids : List String) (m : Mapper)
      → get_elem? m.objects r ≡ none
      → store_dbc_value evaluate r value ids m ≡ (ok ids, m)
  unfolding store_dbc_value
  store_dbc_value_dangling r value ids m absent = rw (absent, store_dbc_value)

  module _ (q : Ref) (o : VssMapping) (value : Value) where
    -- The object behind `q` once its value is stored.
    store_dbc_value_self :
        (r : Ref) (x : Value) (ids : List String) (m : Mapper) {ids' : List String}
        → (r == q) ≡ true
        → get_elem? m.objects q ≡ some (with_dbc_value o x)
        → (store_dbc_value evaluate r value ids m).0 ≡ ok ids'
        → get_elem? (store_dbc_value evaluate r value ids m).1.objects q
          ≡ some (with_dbc_value o (dbc_value_of o value))
    store_dbc_value_self r x ids m same found finished =
        let found_r = ap (get_elem? m.objects) ((nat_beq_iff r q).0 same) ∙ found in
        elim (Result-cases (transform_value evaluate o value)) [
          | inl (w, result) ↦
              let step =
                store_dbc_value_ok r value ids m (with_dbc_value o x) w found_r
                  (transform_value-with_dbc_value o x value ∙ result) in
              rw step (
                rw result
                  (ground (arith, get_elem?-set m.objects r q (with_dbc_value o w) found_r)))
          | inr (e, result) ↦
              let step =
                store_dbc_value_err r value ids m (with_dbc_value o x) e found_r
                  (transform_value-with_dbc_value o x value ∙ result) in
              cc (ap (λ (s : Result (List String) × Mapper). s.0) step, finished)
        ]

    -- Another reference leaves it alone.
    store_dbc_value_other :
        (r : Ref) (ids : List String) (m : Mapper)
        → (r == q) ≡ false
        → get_elem? (store_dbc_value evaluate r value ids m).1.objects q ≡ get_elem? m.objects q
    store_dbc_value_other r ids m other = elim (Option-cases (get_elem? m.objects r)) [
      | inl absent ↦ rw (store_dbc_value_dangling r value ids m absent)
      | inr (p, found) ↦ elim (Result-cases (transform_value evaluate p value)) [
        | inl (w, result) ↦
            rw (store_dbc_value_ok r value ids m p w found result)
              (ground (arith, get_elem?-set m.objects r q (with_dbc_value p w) found))
        | inr (e, result) ↦ rw (store_dbc_value_err r value ids m p e found result)
      ]
    ]

    pub store_dbc_value-at :
        (r : Ref) (x : Value) (ids : List String) (m : Mapper) {ids' : List String}
        → get_elem? m.objects q ≡ some (with_dbc_value o x)
        → (store_dbc_value evaluate r value ids m).0 ≡ ok ids'
        → get_elem? (store_dbc_value evaluate r value ids m).1.objects q
          ≡ some (with_dbc_value o (if r == q then dbc_value_of o value else x))
    store_dbc_value-at r x ids m found finished = elim (Bool-cases (r == q)) [
      | inl same ↦ rw same (store_dbc_value_self r x ids m same found finished)
      | inr other ↦ rw other (store_dbc_value_other r ids m other ∙ found)
    ]

  either :
      (a b : Bool) (v x : Value) → (if b then v else if a then v else x) ≡ (if a || b then v else x)
  either a b v x = ground arith

  -- The loop, by the answer of its first round.
  pub store_dbc_values-cons :
      (r : Ref) (refs : List Ref) (value : Value) (ids : List String) (m : Mapper)
      (ids' : List String)
      → (store_dbc_value evaluate r value ids m).0 ≡ ok ids'
      → store_dbc_values evaluate (r ∷ refs) value ids m
        ≡ store_dbc_values evaluate refs value ids' (store_dbc_value evaluate r value ids m).1
  unfolding store_dbc_values ◌>>=◌
  store_dbc_values-cons r refs value ids m ids' h = rw (h, store_dbc_values, ◌>>=◌)

  pub store_dbc_values-cons_err :
      (r : Ref) (refs : List Ref) (value : Value) (ids : List String) (m : Mapper) (e : Error)
      → (store_dbc_value evaluate r value ids m).0 ≡ err e
      → store_dbc_values evaluate (r ∷ refs) value ids m
        ≡ (err e, (store_dbc_value evaluate r value ids m).1)
  unfolding store_dbc_values ◌>>=◌
  store_dbc_values-cons_err r refs value ids m e h = rw (h, store_dbc_values, ◌>>=◌)

  -- A loop that returns has gone through its first round.
  pub store_dbc_values-first :
      (r : Ref) (refs : List Ref) (value : Value) (ids : List String) (m : Mapper)
      {out : List String}
      → (store_dbc_values evaluate (r ∷ refs) value ids m).0 ≡ ok out
      → (ids' : List String) × ((store_dbc_value evaluate r value ids m).0 ≡ ok ids')
  store_dbc_values-first r refs value ids m finished =
      elim (Result-cases (store_dbc_value evaluate r value ids m).0) [
        | inl result ↦ result
        | inr (e, failed) ↦ cc (
          ap (λ (s : Result (List String) × Mapper). s.0)
              (store_dbc_values-cons_err r refs value ids m e failed),
          finished,
        )
      ]

  module _ (q : Ref) (o : VssMapping) (value : Value) where
    -- After the loop the object behind `q` has the new value if `q` was visited, and its old one if not.
    pub store_dbc_values-at :
        (refs : List Ref) (x : Value) (ids : List String) (m : Mapper) {out : List String}
        → get_elem? m.objects q ≡ some (with_dbc_value o x)
        → (store_dbc_values evaluate refs value ids m).0 ≡ ok out
        → get_elem? (store_dbc_values evaluate refs value ids m).1.objects q
          ≡ some (with_dbc_value o (if contains refs q then dbc_value_of o value else x))
    store_dbc_values-at [] x ids m found finished = unfold store_dbc_values pure in found
    store_dbc_values-at (r ∷ refs) x ids m found finished =
        let (ids', first) = store_dbc_values-first r refs value ids m finished in
        let step = store_dbc_values-cons r refs value ids m ids' first in
        let finished' = ap (λ (s : Result (List String) × Mapper). s.0) (sym step) ∙ finished in
        let visited = dbc_value_of o value in
        rw step (
          store_dbc_values-at refs (if r == q then visited else x) ids' _
            (store_dbc_value-at q o value r x ids m found first) finished'
          ∙ ap (λ v. some (with_dbc_value o v)) (either (r == q) (contains refs q) visited x))

  module _ (q : Ref) (o : VssMapping) (value : Value) where
    store_dbc_value-absent :
        (r : Ref) (ids : List String) (m : Mapper)
        → get_elem? m.objects q ≡ none
        → get_elem? (store_dbc_value evaluate r value ids m).1.objects q ≡ none
    store_dbc_value-absent r ids m absent = elim (Bool-cases (r == q)) [
      | inl same ↦
          let absent_r = ap (get_elem? m.objects) ((nat_beq_iff r q).0 same) ∙ absent in
          rw (store_dbc_value_dangling r value ids m absent_r) absent
      | inr other ↦ store_dbc_value_other q o value r ids m other ∙ absent
    ]

    -- No object comes up where there was none.
    pub store_dbc_values-absent :
        (refs : List Ref) (ids : List String) (m : Mapper) {out : List String}
        → get_elem? m.objects q ≡ none
        → (store_dbc_values evaluate refs value ids m).0 ≡ ok out
        → get_elem? (store_dbc_values evaluate refs value ids m).1.objects q ≡ none
    store_dbc_values-absent [] ids m absent finished = unfold store_dbc_values pure in absent
    store_dbc_values-absent (r ∷ refs) ids m absent finished =
        let (ids', first) = store_dbc_values-first r refs value ids m finished in
        let step = store_dbc_values-cons r refs value ids m ids' first in
        let finished' = ap (λ (s : Result (List String) × Mapper). s.0) (sym step) ∙ finished in
        rw step
          (store_dbc_values-absent refs ids' _ (store_dbc_value-absent r ids m absent) finished')
