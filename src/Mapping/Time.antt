-- ===== src/Mapping/Time.antt =====
-- The time condition over a sequence of frames: VSSMapping.time_condition_fulfilled.
use kuksa_val_feeders.Prelude.{
  ltb, ◌-◌, ◌*◌, Bool-cases, List, [], if◌then◌else◌, inl, inr, ℕ, ◌+◌, ◌<◌, ◌∷◌, ◌≤◌, arith, false,
  refl, true, ◌≡◌,
}
use kuksa_val_feeders.Mapping.{VssMapping, thousand_intervals, time_condition_fulfilled, too_early}
use kuksa_val_feeders.Python.Float.{ltb-round_float, precision, round_float}
use kuksa_val_feeders.Prelude.Int.{pos_part}

-- One mapping sees frames at the given times; the result lists the times that pass.
unfoldable pub accepted_times : List ℕ → VssMapping → List ℕ
unfolding time_condition_fulfilled
accepted_times [] m = []
accepted_times (t ∷ ts) m =
    let (fulfilled, m') = time_condition_fulfilled t m in
    let rest = accepted_times ts m' in if fulfilled then t ∷ rest else rest

-- Each time comes, by a thousand times the difference, at least `gap` after the one before it, the
-- first after `last`.
abbrev pub SpacedFrom : ℕ → ℕ → List ℕ → Type 0
SpacedFrom gap last [] = Unit
SpacedFrom gap last (t ∷ ts) = (last * 1000 + gap ≤ t * 1000) × SpacedFrom gap t ts

abbrev pub AllPositive : List ℕ → Type 0
AllPositive [] = Unit
AllPositive (t ∷ ts) = (0 < t) × AllPositive ts

-- A time passes when the interval has gone by, to the exact difference, since the last that passed,
-- and is dropped when it has not. `gap` is a thousand intervals.
pub data Sampled (gap : ℕ) : ℕ → List ℕ → List ℕ → Type 0 where
  done : {last : ℕ} → Sampled gap last [] []
  pass :
      {last t : ℕ} {ts out : List ℕ}
      → last * 1000 + gap ≤ t * 1000
      → Sampled gap t ts out
      → Sampled gap last (t ∷ ts) (t ∷ out)
  drop :
      {last t : ℕ} {ts out : List ℕ}
      → t * 1000 < last * 1000 + gap
      → Sampled gap last ts out
      → Sampled gap last (t ∷ ts) out

pub Sampled-SpacedFrom :
    {gap last : ℕ} {ts out : List ℕ} → Sampled gap last ts out → SpacedFrom gap last out
Sampled-SpacedFrom done = tt
Sampled-SpacedFrom (pass h r) = (h, Sampled-SpacedFrom r)
Sampled-SpacedFrom {gap} {last} (drop {t = t} h r) = Sampled-SpacedFrom r

-- A thousand intervals are a number that floats have exactly: up to 2 ^ 31 ms, about 24 days.
abbrev pub IsShort : VssMapping → Type 0
IsShort m = thousand_intervals m.interval_ms ≤ precision

module _ (t : ℕ) (m : VssMapping) (i : 0 < pos_part m.interval_ms) (short : IsShort m)
    (l : 0 < m.last_time) where
  exact_test :
      ltb (round_float ((t - m.last_time) * 1000)) (thousand_intervals m.interval_ms)
      ≡ ltb ((t - m.last_time) * 1000) (thousand_intervals m.interval_ms)
  exact_test = ltb-round_float ((t - m.last_time) * 1000) (thousand_intervals m.interval_ms) short

  too_early_bound :
      too_early t m ≡ true → t * 1000 < m.last_time * 1000 + thousand_intervals m.interval_ms
  unfolding too_early
  too_early_bound h = ground (arith, exact_test, h)

  not_too_early_bound :
      too_early t m ≡ false → m.last_time * 1000 + thousand_intervals m.interval_ms ≤ t * 1000
  unfolding too_early
  not_too_early_bound h = ground (arith, exact_test, h)

pub accepted_times-Sampled :
    (ts : List ℕ) (m : VssMapping)
    → 0 < pos_part m.interval_ms
    → IsShort m
    → AllPositive ts
    → 0 < m.last_time
    → Sampled (thousand_intervals m.interval_ms) m.last_time ts (accepted_times ts m)
unfolding accepted_times
accepted_times-Sampled [] m i short a l = done
accepted_times-Sampled (t ∷ ts) m i short a l = elim (Bool-cases (too_early t m)) [
  | inl early ↦
      rw (early, accepted_times)
        (drop (too_early_bound t m i short l early) (accepted_times-Sampled ts m i short a.1 l))
  | inr due ↦
      rw (due, accepted_times)
        (pass (not_too_early_bound t m i short l due)
          (accepted_times-Sampled ts (record m { last_time = t }) i short a.1 a.0))
]

-- For a positive interval of at most 2 ^ 31 ms and times that are not 0, the first frame of a new
-- mapping passes, and each later frame exactly if its time is at least the interval after that of the
-- last frame that passed: with the times as floats, the rounding of the product by 1000.0 decides no
-- comparison the other way.
pub accepted_times_of_new :
    (t : ℕ) (ts : List ℕ) (m : VssMapping)
    → 0 < pos_part m.interval_ms
    → IsShort m
    → m.last_time ≡ 0
    → AllPositive (t ∷ ts)
    → (out : List ℕ) × (accepted_times (t ∷ ts) m ≡ t ∷ out)
      × Sampled (thousand_intervals m.interval_ms) t ts out
      × SpacedFrom (thousand_intervals m.interval_ms) t out
unfolding accepted_times
accepted_times_of_new t ts m i short fresh a =
    let m' = record m { last_time = t } in
    let sampled = accepted_times-Sampled ts m' i short a.1 a.0 in
    (accepted_times ts m', rw (first_passes, accepted_times), sampled, Sampled-SpacedFrom sampled)
  where
    first_passes : too_early t m ≡ false
    first_passes = ground arith

-- Without a positive interval every frame passes.
pub accepted_times_of_no_interval :
    (ts : List ℕ) (m : VssMapping) → pos_part m.interval_ms ≡ 0 → accepted_times ts m ≡ ts
unfolding accepted_times
accepted_times_of_no_interval [] m i = refl
accepted_times_of_no_interval (t ∷ ts) m i =
    ground (arith, accepted_times_of_no_interval ts (record m { last_time = t }))
