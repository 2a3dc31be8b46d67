-- ===== src/Python/Dict.antt =====
-- Python's dictionaries, in insertion order, and its sets of distinct elements.
use kuksa_val_feeders.Prelude.{
  ◌≡◌, refl, Bool, true, false, ◌||◌, Option, none, some, List, [], ◌∷◌, ◌++◌, arith, Eq, ◌==◌,
  if◌then◌else◌, contains, Bool-cases, inl, inr, All, All-weaken, text_eq, nat_eq,
}

abbrev pub Dict {ℓ κ} : Type ℓ → Type κ → Type (ℓ ⊔ κ)
Dict K V = List (K × V)

module _ {ℓ κ} {K : Type ℓ} {V : Type κ} where
  -- d.keys()
  unfoldable pub keys : Dict K V → List K
  keys [] = []
  keys ((j, v) ∷ d) = j ∷ keys d

  -- d.values()
  unfoldable pub values : Dict K V → List V
  values [] = []
  values ((j, v) ∷ d) = v ∷ values d

module _ {ℓ κ} {K : Type ℓ} {V : Type κ} ⦃e : Eq K⦄ where
  -- d.get(k)
  unfoldable pub lookup : K → Dict K V → Option V
  lookup k [] = none
  lookup k ((j, v) ∷ d) = if j == k then some v else lookup k d

  -- d[k] = v
  unfoldable pub insert : K → V → Dict K V → Dict K V
  insert k v [] = (k, v) ∷ []
  insert k v ((j, w) ∷ d) = if j == k then (j, v) ∷ d else (j, w) ∷ insert k v d

  -- k in d
  unfoldable pub has_key : K → Dict K V → Bool
  has_key k [] = false
  has_key k ((j, v) ∷ d) = j == k || has_key k d

  pub lookup-insert :
      (k j : K) (v : V) (d : Dict K V)
      → lookup j (insert k v d) ≡ (if k == j then some v else lookup j d)
  unfolding lookup insert
  lookup-insert k j v [] = refl
  lookup-insert k j v ((i, w) ∷ d) =
      ground (arith, e.same_iff k j, e.same_iff i k, e.same_iff i j, lookup-insert k j v d)

  pub has_key-lookup : (k : K) (d : Dict K V) → has_key k d ≡ false → lookup k d ≡ none
  unfolding lookup has_key
  has_key-lookup k [] h = refl
  has_key-lookup k ((j, v) ∷ d) h = ground (arith, has_key-lookup k d)

  pub lookup-has_key : (k : K) (d : Dict K V) → has_key k d ≡ true → (v : V) × (lookup k d ≡ some v)
  unfolding lookup has_key
  lookup-has_key k [] h = ground arith
  lookup-has_key k ((j, v) ∷ d) h = elim (Bool-cases (j == k)) [
    | inl same ↦ (v, ground arith)
    | inr other ↦ let (w, found) = lookup-has_key k d (ground arith) in (w, ground arith)
  ]

  pub contains-keys : (k : K) (d : Dict K V) → contains (keys d) k ≡ has_key k d
  unfolding keys has_key
  contains-keys k [] = refl
  contains-keys k ((j, v) ∷ d) = ground (arith, contains-keys k d)

pub beq_refl {ℓ} : {K : Type ℓ} ⦃e : Eq K⦄ (k : K) → (k == k) ≡ true
beq_refl ⦃e⦄ k = (e.same_iff k k).1 refl

-- Sets: lists of distinct elements. The order in which Python visits a set is not specified, and
-- the model takes the order of insertion.
module _ {ℓ} {A : Type ℓ} ⦃e : Eq A⦄ where
  -- s.add(a)
  unfoldable pub add : A → List A → List A
  add a s = if contains s a then s else s ++ (a ∷ [])

  -- s.update(t)
  unfoldable pub add_all : List A → List A → List A
  unfolding add
  add_all [] s = s
  add_all (a ∷ t) s = add_all t (add a s)

  pub contains-append :
      (a : A) (s t : List A) → contains (s ++ t) a ≡ (contains s a || contains t a)
  contains-append a [] t = refl
  contains-append a (b ∷ s) t = ground (arith, contains-append a s t)

  pub contains-add : (a b : A) (s : List A) → contains (add a s) b ≡ (a == b || contains s b)
  unfolding add
  contains-add a b s = ground (arith, contains-append b s (a ∷ []), e.same_iff a b)

  pub contains-add_all :
      (b : A) (t s : List A) → contains (add_all t s) b ≡ (contains t b || contains s b)
  unfolding add_all
  contains-add_all b [] s = refl
  contains-add_all b (a ∷ t) s = ground (arith, contains-add_all b t (add a s), contains-add a b s)

-- Every element of a list is in it.
pub All-contains {ℓ} : {A : Type ℓ} ⦃e : Eq A⦄ (xs : List A) → All (λ x. contains xs x ≡ true) xs
All-contains ⦃e⦄ [] = tt
All-contains ⦃e⦄ (x ∷ xs) =
    (rw (beq_refl x), All-weaken _ _ xs (λ y h. ground (arith, h)) (All-contains xs))
