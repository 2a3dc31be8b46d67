-- ===== src/Mapper/Alike.antt =====
-- A mapper in which the conditions of the mappings have run: the objects have the names and the
-- transforms that they had.
use kuksa_val_feeders.Prelude.{
  String, ◌⊎◌, get_elem?, get_elem?-set, refl, some, ◌∙◌, ◌≡◌, arith, inl, inr, text_eq, nat_eq,
  sym, ap, set,
}
use mathlib.Core.Path.{subst}
use kuksa_val_feeders.Mapper.{Mapper, Ref, get_dbc2vss_mapping, update}
use kuksa_val_feeders.Mapping.{VssMapping}
use kuksa_val_feeders.Reader.Resolve.{get_dbc2vss_mapping-update}

-- The same name and transform.
pub record AlikeObjects (o0 o : VssMapping) : Type 0 where
  pub vss_name : o.vss_name ≡ o0.vss_name
  pub transform : o.transform ≡ o0.transform

abbrev pub HasAlike : Mapper → Ref → VssMapping → Type 0
HasAlike m0 r o = (o0 : VssMapping) × (get_elem? m0.objects r ≡ some o0) × AlikeObjects o0 o

pub record Alike (m0 m : Mapper) : Type 0 where
  pub parser : m.parser ≡ m0.parser
  pub finds :
      (dbc_name vss_name : String)
      → get_dbc2vss_mapping dbc_name vss_name m ≡ get_dbc2vss_mapping dbc_name vss_name m0
  pub objects : (r : Ref) (o : VssMapping) → get_elem? m.objects r ≡ some o → HasAlike m0 r o

pub Alike-self : (m : Mapper) → Alike m m
Alike-self m = record {
  parser = refl;
  finds = λ s v. refl;
  objects = λ r o found. (o, found, record { vss_name = refl; transform = refl });
}

update-objects :
    (r : Ref) (o o' : VssMapping) (m : Mapper)
    → get_elem? m.objects r ≡ some o
    → (update r (λ _. o') m).objects ≡ set m.objects r o'
unfolding update
update-objects r o o' m found = rw (found, update)

update-parser : (r : Ref) (o' : VssMapping) (m : Mapper) → (update r (λ _. o') m).parser ≡ m.parser
unfolding update
update-parser r o' m = ground arith

-- What is behind a reference after an object was changed.
update-at :
    (r q : Ref) (o o' p : VssMapping) (m : Mapper)
    → get_elem? m.objects r ≡ some o
    → get_elem? (update r (λ _. o') m).objects q ≡ some p
    → ((r ≡ q) × (o' ≡ p)) ⊎ (get_elem? m.objects q ≡ some p)
update-at r q o o' p m found at_q =
    let now =
      sym (get_elem?-set m.objects r q o' found)
      ∙ (ap (λ l. get_elem? l q) (sym (update-objects r o o' m found)) ∙ at_q) in
    ground (arith, now)

pub Alike-update :
    (r : Ref) (o o' : VssMapping) (m0 m : Mapper)
    → get_elem? m.objects r ≡ some o
    → AlikeObjects o o'
    → Alike m0 m
    → Alike m0 (update r (λ _. o') m)
Alike-update r o o' m0 m found same h = record {
  parser = update-parser r o' m ∙ h.parser;
  finds = λ s v. get_dbc2vss_mapping-update s v r o o' m found same.vss_name ∙ h.finds s v;
  objects = λ q p at_q. elim (update-at r q o o' p m found at_q) [
    | inl (is_q, is_p) ↦
        subst (λ x. HasAlike m0 q x) is_p
          (subst (λ x. HasAlike m0 x o') is_q (changed (h.objects r o found)))
    | inr unchanged ↦ h.objects q p unchanged
  ];
}
  where
    changed : HasAlike m0 r o → HasAlike m0 r o'
    changed (o0, at_r, alike) = (
      o0,
      at_r,
      record {
        vss_name = same.vss_name ∙ alike.vss_name;
        transform = same.transform ∙ alike.transform;
      },
    )
