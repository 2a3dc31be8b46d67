-- ===== src/Reader/Resolve.antt =====
-- Writing to a mapping object leaves its names alone, so get_dbc2vss_mapping answers as before.
use kuksa_val_feeders.Prelude.{
  Bool-cases, List, String, [], ap, contains, get_elem?, get_elem?-set, inl, inr, nat_beq_iff, refl,
  set, some, sym, true, ◌==◌, ◌∙◌, ◌∷◌, ◌≡◌, text_eq, nat_eq, Option-cases, arith, Option,
}
use kuksa_val_feeders.Mapper.{
  Ref, find_by_vss_name, Mapper, get_dbc2vss_mapping, refs_of, update, match_or,
}
use kuksa_val_feeders.Mapping.{VssMapping}
use kuksa_val_feeders.Python.Dict.{beq_refl, lookup}

module _ (r : Ref) (o o' : VssMapping) (objects : List VssMapping) (v : String)
    (found : get_elem? objects r ≡ some o) (same_name : o'.vss_name ≡ o.vss_name) where
  match_or-set :
      (q : Ref) (rest : Option Ref)
      → match_or v q (get_elem? (set objects r o') q) rest ≡ match_or v q (get_elem? objects q) rest
  unfolding match_or
  match_or-set q rest = elim (Bool-cases (r == q)) [
    | inl same ↦
        let found_q : get_elem? objects q ≡ some o =
          ap (get_elem? objects) (sym ((nat_beq_iff r q).0 same)) ∙ found in
        rw (get_elem?-set objects r q o' found, same, found_q, same_name)
    | inr other ↦ rw (get_elem?-set objects r q o' found, other)
  ]

  find_by_vss_name-set :
      (refs : List Ref)
      → find_by_vss_name v (set objects r o') refs ≡ find_by_vss_name v objects refs
  unfolding find_by_vss_name
  find_by_vss_name-set [] = refl
  find_by_vss_name-set (q ∷ refs) = rw (match_or-set q _, find_by_vss_name-set refs)

-- A mapping that is listed is found, or another of the same VSS name before it.
pub find_by_vss_name-finds :
    (objects : List VssMapping) (r : Ref) (o : VssMapping) (refs : List Ref)
    → get_elem? objects r ≡ some o
    → contains refs r ≡ true
    → (q : Ref) × (find_by_vss_name o.vss_name objects refs ≡ some q)
unfolding find_by_vss_name
find_by_vss_name-finds objects r o [] found listed = cc
find_by_vss_name-finds objects r o (q ∷ refs) found listed = elim (Bool-cases (q == r)) [
  | inl same ↦
      let found_q : get_elem? objects q ≡ some o =
        ap (get_elem? objects) ((nat_beq_iff q r).0 same) ∙ found in
      (q, rw found_q (rw (beq_refl o.vss_name)))
  | inr other ↦
      let (p, found_later) =
        find_by_vss_name-finds objects r o refs found (ground (arith, listed)) in
      elim (Option-cases (get_elem? objects q)) [
        | inl absent ↦ (p, rw absent found_later)
        | inr (x, at_q) ↦ elim (Bool-cases (x.vss_name == o.vss_name)) [
          | inl match ↦ (q, rw at_q (rw match))
          | inr differ ↦ (p, rw at_q (rw differ found_later))
        ]
      ]
]

-- The same for a mapper.
pub get_dbc2vss_mapping-update :
    (dbc_name vss_name : String) (r : Ref) (o o' : VssMapping) (m : Mapper)
    → get_elem? m.objects r ≡ some o
    → o'.vss_name ≡ o.vss_name
    → get_dbc2vss_mapping dbc_name vss_name (update r (λ _. o') m)
      ≡ get_dbc2vss_mapping dbc_name vss_name m
unfolding get_dbc2vss_mapping update
get_dbc2vss_mapping-update dbc_name vss_name r o o' m found same_name =
    rw (found, update)
      (find_by_vss_name-set r o o' m.objects vss_name found same_name
        (refs_of (lookup dbc_name m.dbc2vss_mapping)))
