-- ===== src/Dds/Mapper/Transform.antt =====
-- The transform of a signal among the signals of its topic.
use kuksa_val_feeders.Prelude.{
  All, List, String, [], ap, false, refl, some, ◌++◌, ◌==◌, ◌∙◌, ◌∷◌, ◌≡◌, text_eq, nat_eq, ℕ,
}
use kuksa_val_feeders.Prelude.Int.{ℤ}
use kuksa_val_feeders.Dds.Mapper.{
  TopicInfo, Vss2DdsMapper, VssInfo, transform, transform_by, transformed,
}
use kuksa_val_feeders.Python.Dict.{beq_refl, lookup}
use kuksa_val_feeders.Python.Errors.{Result, err, ok, type_error, ◌>>=◌}
use kuksa_val_feeders.Python.Value.{Value, get_item, str}

-- An entry without a transform, which _createdict gives the empty text.
abbrev pub IsUntransformed : VssInfo → Type 0
IsUntransformed info = info.transform ≡ str ""

abbrev pub Differs : String → VssInfo → Type 0
Differs name other = (other.vsssignal == name) ≡ false

module _ (nearest : ℤ → ℕ → Value) where
  pub transform_by-others :
      (before rest : List VssInfo) (name : String) (v : Value)
      → All (Differs name) before
      → transform_by nearest (before ++ rest) name v ≡ transform_by nearest rest name v
  unfolding transform_by
  transform_by-others [] rest name v h = refl
  transform_by-others (other ∷ before) rest name v (differs, h) =
      rw (differs, transform_by) (transform_by-others before rest name v h)

  transform_by-first :
      (info : VssInfo) (after : List VssInfo) (v : Value)
      → transform_by nearest (info ∷ after) info.vsssignal v
        ≡ transformed nearest info v >>= transform_by nearest after info.vsssignal
  unfolding transform_by
  transform_by-first info after v = rw (beq_refl info.vsssignal) refl

  transformed_untransformed :
      (info : VssInfo) (v : Value)
      → IsUntransformed info
      → transformed nearest info v ≡ err type_error
  unfolding transformed get_item
  transformed_untransformed info v h = rw (h, transformed) refl

  pub transform_by-untransformed :
      (info : VssInfo) (after : List VssInfo) (v : Value)
      → IsUntransformed info
      → transform_by nearest (info ∷ after) info.vsssignal v ≡ err type_error
  transform_by-untransformed info after v h =
      transform_by-first info after v
      ∙ ap (λ r. r >>= transform_by nearest after info.vsssignal)
          (transformed_untransformed info v h)

  transform_by-own :
      (info : VssInfo) (after : List VssInfo) (r : Result Value)
      → All (Differs info.vsssignal) after
      → (r >>= transform_by nearest after info.vsssignal) ≡ r
  unfolding transform_by
  transform_by-own info after (err e) h = refl
  transform_by-own info [] (ok v) h = refl
  transform_by-own info (other ∷ after) (ok v) (differs, h) =
      rw (differs, transform_by) (transform_by-own info after (ok v) h)

  -- The transform of a signal that its topic has once is the formula of its own entry.
  pub transform-transformed :
      (topic : String) (m : Vss2DdsMapper) (t : TopicInfo) (before : List VssInfo) (info : VssInfo)
      (after : List VssInfo) (v : Value)
      → lookup topic m.dds2vss_dict ≡ some t
      → t.vsssignals ≡ before ++ (info ∷ after)
      → All (Differs info.vsssignal) before
      → All (Differs info.vsssignal) after
      → transform nearest topic info.vsssignal v m ≡ transformed nearest info v
  unfolding transform
  transform-transformed topic m t before info after v listed signals differs later =
      rw (listed, transform)
        (ap (λ l. transform_by nearest l info.vsssignal v) signals
          ∙ (transform_by-others before (info ∷ after) info.vsssignal v differs
              ∙ (transform_by-first info after v
                  ∙ transform_by-own info after (transformed nearest info v) later)))
