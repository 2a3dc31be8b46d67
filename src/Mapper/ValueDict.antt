-- ===== src/Mapper/ValueDict.antt =====
-- The values that get_value_dict takes for a frame, signal by signal.
use kuksa_val_feeders.Prelude.{
  All, List, Option, String, [], ap, arith, contains, false, get_elem?, if◌then◌else◌, none, refl,
  some, true, ◌==◌, ◌∙◌, ◌∷◌, ◌≡◌, text_eq, nat_eq, Bool-cases, Option-cases, eq_iff, inl, inr, sym,
  nat_beq_iff, ℕ, All-weaken,
}
use kuksa_val_feeders.Python.Dict.{Dict, insert, lookup, lookup-insert, beq_refl}
use kuksa_val_feeders.Mapper.{
  Ref, overlay, Mapper, store_dbc_value, store_dbc_values, get_default_values, get_value_dict,
  handle_update,
}
use kuksa_val_feeders.Python.Value.{Value, is_none}
use kuksa_val_feeders.Mapping.{VssMapping}
use kuksa_val_feeders.Mapping.Change.{present}
use kuksa_val_feeders.Python.Errors.{Result-cases, ok, Result}
use kuksa_val_feeders.Python.Run.{pure}
use kuksa_val_feeders.Mapper.Update.{
  store_dbc_values-cons_err, dbc_value_of, store_dbc_values-cons, with_dbc_value,
  store_dbc_values-at, store_dbc_values-absent,
}

-- One mapping: its stored value, if it is of the signal `s` and has one.
unfoldable pub latest_step : String → Option VssMapping → Option Value → Option Value
latest_step s none old = old
latest_step s (some o) old =
    if is_none o.last_dbc_value then old else if o.dbc_name == s then some o.last_dbc_value else old

-- The value of the signal `s` after the mappings behind `refs`, from its value before them.
unfoldable pub latest : List VssMapping → String → List Ref → Option Value → Option Value
unfolding latest_step
latest objects s [] old = old
latest objects s (r ∷ refs) old = latest objects s refs (latest_step s (get_elem? objects r) old)

-- After the stored values are laid over the defaults, a signal has the stored value of the last of
-- the given mappings that is of the signal and has a value that is not None, and else its default.
pub lookup-overlay :
    (objects : List VssMapping) (refs : List Ref) (res : Dict String Value) (s : String)
    → lookup s (overlay objects refs res) ≡ latest objects s refs (lookup s res)
unfolding overlay latest
lookup-overlay objects [] res s = refl
lookup-overlay objects (r ∷ refs) res s =
    lookup-overlay objects refs _ s ∙ ap (latest objects s refs) (one (get_elem? objects r))
  where
    one :
        (p : Option VssMapping)
        → lookup s (elim p [
          | none ↦ res
          | some o ↦
              if is_none o.last_dbc_value then res else insert o.dbc_name o.last_dbc_value res
        ])
          ≡ latest_step s p (lookup s res)
    one none = refl
    one (some o) = ground (arith, lookup-insert o.dbc_name s o.last_dbc_value res)

-- Of the references, only `q` may lead to a mapping of the signal `s`.
abbrev pub OnlyRef : List VssMapping → String → Ref → List Ref → Type 0
OnlyRef objects s q refs =
    All (λ r. (o : VssMapping) → get_elem? objects r ≡ some o → o.dbc_name ≡ s → r ≡ q) refs

module _ (objects : List VssMapping) (q : Ref) (o : VssMapping)
    (found : get_elem? objects q ≡ some o) where
  step_self :
      (old : Option Value)
      → is_none o.last_dbc_value ≡ false
      → latest_step o.dbc_name (get_elem? objects q) old ≡ some o.last_dbc_value
  unfolding latest_step
  step_self old present = rw found (rw present (rw (beq_refl o.dbc_name)))

  step_keeps :
      (r : Ref)
      → ((p : VssMapping) → get_elem? objects r ≡ some p → p.dbc_name ≡ o.dbc_name → r ≡ q)
      → latest_step o.dbc_name (get_elem? objects r) (some o.last_dbc_value) ≡ some o.last_dbc_value
  unfolding latest_step
  step_keeps r only = elim (Option-cases (get_elem? objects r)) [
    | inl absent ↦ rw absent
    | inr (p, at_r) ↦ elim (Bool-cases (p.dbc_name == o.dbc_name)) [
      | inl same ↦
          let is_q = only p at_r ((eq_iff p.dbc_name o.dbc_name).0 same) in
          let same_object : some p ≡ some o = sym at_r ∙ (ap (get_elem? objects) is_q ∙ found) in
          rw at_r (ground (arith, same_object))
      | inr other ↦ rw at_r (ground (arith, other))
    ]
  ]

  latest-keeps :
      (refs : List Ref)
      → OnlyRef objects o.dbc_name q refs
      → latest objects o.dbc_name refs (some o.last_dbc_value) ≡ some o.last_dbc_value
  unfolding latest
  latest-keeps [] only = refl
  latest-keeps (r ∷ refs) only = rw (step_keeps r only.0, latest) (latest-keeps refs only.1)

  pub latest-OnlyRef :
      (refs : List Ref) (old : Option Value)
      → OnlyRef objects o.dbc_name q refs
      → contains refs q ≡ true
      → is_none o.last_dbc_value ≡ false
      → latest objects o.dbc_name refs old ≡ some o.last_dbc_value
  unfolding latest
  latest-OnlyRef [] old only there present = cc
  latest-OnlyRef (r ∷ refs) old only there present = elim (Bool-cases (r == q)) [
    | inl same ↦
        let stored =
          ap (λ k. latest_step o.dbc_name (get_elem? objects k) old) ((nat_beq_iff r q).0 same)
          ∙ step_self old present in
        ap (latest objects o.dbc_name refs) stored ∙ latest-keeps refs only.1
    | inr other ↦
        latest-OnlyRef refs (latest_step o.dbc_name (get_elem? objects r) old) only.1
          (ground (arith, there)) present
  ]

module _ (evaluate : Value → Value → Option Value) where
  -- An update changes objects only.
  store_dbc_value-frame :
      (r : Ref) (value : Value) (ids : List String) (m : Mapper)
      → let m' = (store_dbc_value evaluate r value ids m).1 in
        m' ≡ record m { objects = m'.objects }
  unfolding store_dbc_value
  store_dbc_value-frame r value ids m = ground arith

  store_dbc_values-frame :
      (refs : List Ref) (value : Value) (ids : List String) (m : Mapper)
      → let m' = (store_dbc_values evaluate refs value ids m).1 in
        m' ≡ record m { objects = m'.objects }
  store_dbc_values-frame [] value ids m = unfold store_dbc_values pure in refl
  store_dbc_values-frame (r ∷ refs) value ids m =
      elim (Result-cases (store_dbc_value evaluate r value ids m).0) [
        | inl (ids', first) ↦
            let m1 = (store_dbc_value evaluate r value ids m).1 in
            let out = (store_dbc_values evaluate refs value ids' m1).1.objects in
            rw (store_dbc_values-cons evaluate r refs value ids m ids' first) (
              store_dbc_values-frame refs value ids' m1
              ∙ ap (λ (n : Mapper). record n { objects = out })
                  (store_dbc_value-frame r value ids m))
        | inr (e, failed) ↦
            rw (store_dbc_values-cons_err evaluate r refs value ids m e failed)
              (store_dbc_value-frame r value ids m)
      ]

  pub get_value_dict-of_refs :
      (c : ℕ) (refs : List Ref) (m : Mapper)
      → lookup c m.vss2dbc_can_id_mapping ≡ some refs
      → (get_value_dict c m).0 ≡ ok (overlay m.objects refs (get_default_values c m).0)
  unfolding get_value_dict
  get_value_dict-of_refs c refs m found = rw (found, get_value_dict)

  module _ (m : Mapper) (vss_name : String) (value : Value) (refs : List Ref)
      (listed : lookup vss_name m.vss2dbc_mapping ≡ some refs) where
    handle_update-of_refs :
        handle_update evaluate vss_name value m ≡ store_dbc_values evaluate refs value [] m
    unfolding handle_update
    handle_update-of_refs = rw (listed, handle_update)

    module _ {ids : List String}
        (returned : (handle_update evaluate vss_name value m).0 ≡ ok ids) where
      values_returned : (store_dbc_values evaluate refs value [] m).0 ≡ ok ids
      values_returned =
          ap (λ (s : Result (List String) × Mapper). s.0) (sym handle_update-of_refs) ∙ returned

      pub stored_at :
          (q : Ref) (o : VssMapping)
          → contains refs q ≡ true
          → get_elem? m.objects q ≡ some o
          → get_elem? (handle_update evaluate vss_name value m).1.objects q
            ≡ some (with_dbc_value o (dbc_value_of evaluate o value))
      stored_at q o visited found = rw handle_update-of_refs (
          store_dbc_values-at evaluate q o value refs o.last_dbc_value [] m found values_returned
          ∙ rw visited)

      pub frame_kept :
          (handle_update evaluate vss_name value m).1.vss2dbc_can_id_mapping
          ≡ m.vss2dbc_can_id_mapping
      frame_kept =
          rw handle_update-of_refs
            (ap (λ (n : Mapper). n.vss2dbc_can_id_mapping) (store_dbc_values-frame refs value [] m))

      -- The names of the objects are not touched.
      name_kept :
          (r : Ref) (p : VssMapping)
          → get_elem? (handle_update evaluate vss_name value m).1.objects r ≡ some p
          → (p0 : VssMapping) × (get_elem? m.objects r ≡ some p0) × (p0.dbc_name ≡ p.dbc_name)
      name_kept r p at_r = elim (Option-cases (get_elem? m.objects r)) [
        | inl absent ↦
            cc (store_dbc_values-absent evaluate r p value refs [] m absent values_returned, at_r')
        | inr (p0, found) ↦
            let after =
              store_dbc_values-at evaluate r p0 value refs p0.last_dbc_value [] m found
                values_returned in
            (p0, found, ap name_or_empty (sym after ∙ at_r'))
      ]
        where
          at_r' : get_elem? (store_dbc_values evaluate refs value [] m).1.objects r ≡ some p
          at_r' = rw handle_update-of_refs at at_r

          name_or_empty : Option VssMapping → String
          name_or_empty none = ""
          name_or_empty (some x) = x.dbc_name

      pub only_kept :
          (s : String) (q : Ref) (can_refs : List Ref)
          → OnlyRef m.objects s q can_refs
          → OnlyRef (handle_update evaluate vss_name value m).1.objects s q can_refs
      only_kept s q can_refs = All-weaken _ _ can_refs (λ r only p at_r named.
          let (p0, found, same) = name_kept r p at_r in only p0 found (same ∙ named))

      -- What `handle_update` stores for a VSS name is what `get_value_dict` then takes for the CAN
      -- signal: if the update returns, `q` is one of the mappings of the name and the only one of
      -- its CAN signal in the frame `c`, and its transform gives a value, then the dictionary of
      -- the frame has that value for the signal.
      pub get_value_dict-handle_update :
          (c : ℕ) (can_refs : List Ref) (q : Ref) (o : VssMapping)
          → contains refs q ≡ true
          → get_elem? m.objects q ≡ some o
          → is_none (dbc_value_of evaluate o value) ≡ false
          → lookup c m.vss2dbc_can_id_mapping ≡ some can_refs
          → contains can_refs q ≡ true
          → OnlyRef m.objects o.dbc_name q can_refs
          → (d : Dict String Value) × ((get_value_dict c
                (handle_update evaluate vss_name value m).1).0
              ≡ ok d)
            × (lookup o.dbc_name d ≡ some (dbc_value_of evaluate o value))
      get_value_dict-handle_update c can_refs q o visited found present in_frame listed_there only =
          let m' = (handle_update evaluate vss_name value m).1 in
          let o' = with_dbc_value o (dbc_value_of evaluate o value) in
          let defaults = (get_default_values c m').0 in
          (
            overlay m'.objects can_refs defaults,
            get_value_dict-of_refs c can_refs m' (ap (lookup c) frame_kept ∙ in_frame),
            lookup-overlay m'.objects can_refs defaults o.dbc_name
                ∙ latest-OnlyRef m'.objects q o' (stored_at q o visited found) can_refs _
                    (only_kept o.dbc_name q can_refs only) listed_there present,
          )
