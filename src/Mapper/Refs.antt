-- ===== src/Mapper/Refs.antt =====
-- References into the store of mapping objects, and dictionaries of them.
use kuksa_val_feeders.Prelude.{
  All, All-append, All-weaken, Bool-cases, Eq, List, Option-cases, [], get_elem?, inl, inr, length,
  refl, some, suc, zero, ℕ, ◌++◌, ◌∷◌, ◌≡◌, arith, ◌==◌, text_eq, nat_eq,
}
use kuksa_val_feeders.Python.Dict.{Dict, has_key, insert, lookup, lookup-insert}
use kuksa_val_feeders.Mapper.{Ref, refs_of}
use kuksa_val_feeders.Mapper.Build.{append_ref, open_entry}
use mathlib.Core.Path.{subst₂}

module _ {ℓ} {A : Type ℓ} where
  pub get_elem?-append_left :
      (xs ys : List A) (i : ℕ) {a : A} → get_elem? xs i ≡ some a → get_elem? (xs ++ ys) i ≡ some a
  get_elem?-append_left [] ys i h = cc
  get_elem?-append_left (x ∷ xs) ys zero h = h
  get_elem?-append_left (x ∷ xs) ys (suc i) h = get_elem?-append_left xs ys i h

  pub get_elem?-append_last :
      (xs : List A) (a : A) → get_elem? (xs ++ (a ∷ [])) (length xs) ≡ some a
  get_elem?-append_last [] a = refl
  get_elem?-append_last (x ∷ xs) a = get_elem?-append_last xs a

-- Every reference in the dictionary satisfies `P` with its key.
pub record AllRefs {K : Type 0} ⦃e : Eq K⦄ (P : K → Ref → Type 0) (d : Dict K (List Ref))
    : Type 0 where
  pub at : (k : K) (refs : List Ref) → lookup k d ≡ some refs → All (P k) refs

module _ {K : Type 0} ⦃e : Eq K⦄ {P : K → Ref → Type 0} where
  pub AllRefs-nil : AllRefs P []
  unfolding lookup
  AllRefs-nil = record { at = λ k refs h. cc }

  pub AllRefs-weaken :
      {Q : K → Ref → Type 0} {d : Dict K (List Ref)}
      → AllRefs P d
      → ((k : K) (r : Ref) → P k r → Q k r)
      → AllRefs Q d
  AllRefs-weaken {Q} h f = record {
    at = λ k refs found. All-weaken (P k) (Q k) refs (f k) (h.at k refs found);
  }

  pub AllRefs-insert :
      (k : K) (refs : List Ref) {d : Dict K (List Ref)}
      → All (P k) refs
      → AllRefs P d
      → AllRefs P (insert k refs d)
  AllRefs-insert k refs {d} h hd = record {
    at = λ j js found. elim (Bool-cases (k == j)) [
      | inl same ↦
          subst₂ (λ a b. All (P a) b) ((e.same_iff k j).0 same)
            (ground (arith, found, lookup-insert k j refs d)) h
      | inr other ↦ hd.at j js (ground (arith, found, lookup-insert k j refs d))
    ];
  }

  pub AllRefs-refs_of :
      (k : K) {d : Dict K (List Ref)} → AllRefs P d → All (P k) (refs_of (lookup k d))
  AllRefs-refs_of k {d} h = elim (Option-cases (lookup k d)) [
    | inl absent ↦ rw absent tt
    | inr (refs, found) ↦ rw found (h.at k refs found)
  ]

  pub AllRefs-open_entry :
      (k : K) {d : Dict K (List Ref)} → AllRefs P d → AllRefs P (open_entry k d)
  unfolding open_entry
  AllRefs-open_entry k {d} h = elim (Bool-cases (has_key k d)) [
    | inl there ↦ rw (there, open_entry) h
    | inr absent ↦ rw (absent, open_entry) (AllRefs-insert k [] tt h)
  ]

  pub AllRefs-append_ref :
      (k : K) (r : Ref) {d : Dict K (List Ref)} → P k r → AllRefs P d → AllRefs P (append_ref k r d)
  unfolding append_ref
  AllRefs-append_ref k r {d} hr h =
      AllRefs-insert k _ (All-append (P k) _ (r ∷ []) (AllRefs-refs_of k h) (hr, tt)) h
