-- ===== src/Mapping/Change.antt =====
-- The change condition over a sequence of values: VSSMapping.change_condition_fulfilled.
use kuksa_val_feeders.Prelude.{
  Bool-cases, List, [], false, if◌then◌else◌, inl, inr, not, true, ◌||◌, ◌∷◌, ◌≡◌, Bool, ap, arith,
  refl, ◌∙◌,
}
use kuksa_val_feeders.Python.Value.{Value, is_none, py_eq}
use kuksa_val_feeders.Mapping.{VssMapping, change_condition_fulfilled, is_change}

-- One mapping is asked about the given values; the result lists those that are to be sent.
unfoldable pub sent_values : List Value → VssMapping → List Value
unfolding change_condition_fulfilled
sent_values [] m = []
sent_values (v ∷ vs) m =
    let (fulfilled, m') = change_condition_fulfilled v m in
    let rest = sent_values vs m' in if fulfilled then v ∷ rest else rest

-- No value is None, and each differs from the one before it; nothing stands before None.
abbrev pub DiffersFrom : Value → List Value → Type 0
DiffersFrom last [] = Unit
DiffersFrom last (v ∷ vs) =
    (is_none v ≡ false) × ((is_none last || not (py_eq last v)) ≡ true) × DiffersFrom v vs

-- Exactly the changes: a value is dropped only if it is None or equal to the last that was sent.
pub data Changes : Value → List Value → List Value → Type 0 where
  done : {last : Value} → Changes last [] []
  pass :
      {last v : Value} {vs out : List Value}
      → is_none v ≡ false
      → (is_none last || not (py_eq last v)) ≡ true
      → Changes v vs out
      → Changes last (v ∷ vs) (v ∷ out)
  ignore :
      {last v : Value} {vs out : List Value}
      → is_none v ≡ true
      → Changes last vs out
      → Changes last (v ∷ vs) out
  repeat :
      {last v : Value} {vs out : List Value}
      → is_none last ≡ false
      → py_eq last v ≡ true
      → Changes last vs out
      → Changes last (v ∷ vs) out

Changes-DiffersFrom :
    {last : Value} {vs out : List Value} → Changes last vs out → DiffersFrom last out
Changes-DiffersFrom done = tt
Changes-DiffersFrom (pass n d r) = (n, d, Changes-DiffersFrom r)
Changes-DiffersFrom (ignore n r) = Changes-DiffersFrom r
Changes-DiffersFrom (repeat n e r) = Changes-DiffersFrom r

-- One value, by the answer of the test.
sent_values_pass :
    (v : Value) (vs : List Value) (m : VssMapping)
    → is_change v m ≡ true
    → sent_values (v ∷ vs) m ≡ v ∷ sent_values vs (record m { last_vss_value = v })
unfolding sent_values
sent_values_pass v vs m h = rw (h, sent_values)

sent_values_hold :
    (v : Value) (vs : List Value) (m : VssMapping)
    → is_change v m ≡ false
    → sent_values (v ∷ vs) m ≡ sent_values vs m
unfolding sent_values
sent_values_hold v vs m h = rw (h, sent_values)

module _ (v : Value) (m : VssMapping) where
  is_change_of_none : is_none v ≡ true → is_change v m ≡ false
  unfolding is_change
  is_change_of_none n = ground arith

  is_change_on_change :
      m.on_change ≡ true
      → is_none v ≡ false
      → is_change v m ≡ (is_none m.last_vss_value || not (py_eq m.last_vss_value v))
  unfolding is_change
  is_change_on_change o s = ground arith

  is_change_always : m.on_change ≡ false → is_change v m ≡ not (is_none v)
  unfolding is_change
  is_change_always o = ground arith

nothing_new : (a b : Bool) → (a || not b) ≡ false → (a ≡ false) × (b ≡ true)
nothing_new a b h = ground arith

sent_values-Changes :
    (vs : List Value) (m : VssMapping)
    → m.on_change ≡ true
    → Changes m.last_vss_value vs (sent_values vs m)
unfolding sent_values
sent_values-Changes [] m o = done
sent_values-Changes (v ∷ vs) m o = elim (Bool-cases (is_none v)) [
  | inl n ↦
      rw (sent_values_hold v vs m (is_change_of_none v m n)) (ignore n (sent_values-Changes vs m o))
  | inr s ↦ elim (Bool-cases (is_none m.last_vss_value || not (py_eq m.last_vss_value v))) [
    | inl d ↦
        rw (sent_values_pass v vs m (is_change_on_change v m o s ∙ d))
          (pass s d (sent_values-Changes vs (record m { last_vss_value = v }) o))
    | inr e ↦
        let (first, same) = nothing_new _ _ e in
        rw (sent_values_hold v vs m (is_change_on_change v m o s ∙ e))
          (repeat first same (sent_values-Changes vs m o))
  ]
]

-- With `on_change` the sent values are the changes: no value is sent twice in a row, none is None,
-- and only what is None or equal to the last sent value is held back.
pub sent_values_on_change :
    (vs : List Value) (m : VssMapping)
    → m.on_change ≡ true
    → Changes m.last_vss_value vs (sent_values vs m)
      × DiffersFrom m.last_vss_value (sent_values vs m)
sent_values_on_change vs m o = let c = sent_values-Changes vs m o in (c, Changes-DiffersFrom c)

-- the values that are not None
unfoldable pub present : List Value → List Value
present [] = []
present (v ∷ vs) = if is_none v then present vs else v ∷ present vs

-- Without `on_change` every value that is not None is sent.
pub sent_values_always :
    (vs : List Value) (m : VssMapping) → m.on_change ≡ false → sent_values vs m ≡ present vs
unfolding sent_values present
sent_values_always [] m o = refl
sent_values_always (v ∷ vs) m o = elim (Bool-cases (is_none v)) [
  | inl n ↦ rw (sent_values_hold v vs m (is_change_of_none v m n), n) (sent_values_always vs m o)
  | inr s ↦
      rw (sent_values_pass v vs m (is_change_always v m o ∙ ap not s), s)
        (ap (λ l. v ∷ l) (sent_values_always vs (record m { last_vss_value = v }) o))
]
