-- ===== src/Python/Float.antt =====
-- Products of Python's floats, which have 53 significant bits: the exact product is rounded to the
-- nearest float, and to the even one of two that are equally near.
use mathlib.Core.Path.{subst}
use native.Mathlib.Nat.{le-div_iff_mul-le, mul-le-mul_right, mul_assoc}
use kuksa_val_feeders.Prelude.{
  Bool-cases, ap, sym, ◌∙◌, arith, false, if◌then◌else◌, inl, inr, ltb, nat_eq, refl, suc, true,
  zero, ℕ, ◌&&◌, ◌*◌, ◌+◌, ◌/◌, ◌%◌, ◌<◌, ◌==◌, ◌||◌, ◌≡◌, ◌≤◌, ◌^◌,
}

-- 2 ^ 53
abbrev pub precision : ℕ
precision = 9007199254740992

-- The distance of floats about n: `unit` is doubled until n has at most 53 bits in it, at most so
-- many times.
unfoldable pub unit_of : ℕ → ℕ → ℕ → ℕ
unit_of zero unit n = unit
unit_of (suc doublings) unit n = elim (ltb n (unit * precision)) [
  | true ↦ unit
  | false ↦ unit_of doublings (unit * 2) n
]

-- The multiple of `unit` that is nearest to n.
unfoldable pub round_to : ℕ → ℕ → ℕ
round_to unit n =
    let lower = n / unit * unit in
    let left = n % unit in
    if ltb (2 * left) unit || (2 * left == unit && n / unit % 2 == 0) then lower else lower + unit

-- With 64 doublings for numbers below 2 ^ 117.
unfoldable pub round_float : ℕ → ℕ
unfolding unit_of round_to
round_float n = round_to (unit_of 64 1 n) n

doubled : (unit k : ℕ) → unit * 2 ^ suc k ≡ unit * 2 * 2 ^ k
doubled unit k =
    let power : 2 ^ suc k ≡ 2 * 2 ^ k = omega arith in
    ap (λ p. unit * p) power ∙ sym (mul_assoc unit 2 (2 ^ k))

-- So many doublings are enough.
pub unit_of-fits :
    (doublings unit n : ℕ)
    → n < unit * 2 ^ doublings * precision
    → n < unit_of doublings unit n * precision
unfolding unit_of
unit_of-fits zero unit n h = ground (arith, h)
unit_of-fits (suc k) unit n h = elim (Bool-cases (ltb n (unit * precision))) [
  | inl fits ↦ rw (fits, unit_of) (ground (arith, fits))
  | inr larger ↦
      rw (larger, unit_of)
        (unit_of-fits k (unit * 2) n (subst (λ u. n < u * precision) (doubled unit k) h))
]

-- The unit is 1, or n has 53 bits in it.
unit_of-filled :
    (doublings unit n : ℕ)
    → 2 ≤ unit
    → unit * 4503599627370496 ≤ n
    → (2 ≤ unit_of doublings unit n) × (unit_of doublings unit n * 4503599627370496 ≤ n)
unfolding unit_of
unit_of-filled zero unit n two h = (two, h)
unit_of-filled (suc k) unit n two h = elim (Bool-cases (ltb n (unit * precision))) [
  | inl fits ↦ rw (fits, unit_of) (two, h)
  | inr larger ↦
      rw (larger, unit_of)
        (unit_of-filled k (unit * 2) n (omega (arith, two)) (ground (arith, larger)))
]

round_to-one : (n : ℕ) → round_to 1 n ≡ n
unfolding round_to
round_to-one n = ground arith

round_to-lower : (unit n : ℕ) → n / unit * unit ≤ round_to unit n
unfolding round_to
round_to-lower unit n = ground arith

unit_of-small : (k unit n : ℕ) → n < unit * precision → unit_of (suc k) unit n ≡ unit
unfolding unit_of
unit_of-small k unit n h =
    let fits : ltb n (unit * precision) ≡ true = ground (arith, h) in rw (fits, unit_of) refl

unit_of-large :
    (k unit n : ℕ) → unit * precision ≤ n → unit_of (suc k) unit n ≡ unit_of k (unit * 2) n
unfolding unit_of
unit_of-large k unit n h =
    let larger : ltb n (unit * precision) ≡ false = ground (arith, h) in rw (larger, unit_of) refl

round_float-small : (n : ℕ) → n < precision → round_float n ≡ n
unfolding round_float
round_float-small n h = rw (unit_of-small 63 1 n (omega (arith, h))) (round_to-one n)

round_float-large : (n : ℕ) → precision ≤ n → precision ≤ round_float n
unfolding round_float
round_float-large n h =
    let u = unit_of 63 2 n in
    let (two, filled) = unit_of-filled 63 2 n (omega arith) (omega (arith, h)) in
    let quotient : 4503599627370496 ≤ n / u =
      (le-div_iff_mul-le (omega (arith, two))).1 (omega (arith, filled)) in
    rw (unit_of-large 63 1 n (omega (arith, h)))
      (omega (arith, two, mul-le-mul_right u quotient, round_to-lower u n))

-- A number that floats have exactly is compared with a product as if it were not rounded.
pub ltb-round_float : (n bound : ℕ) → bound ≤ precision → ltb (round_float n) bound ≡ ltb n bound
ltb-round_float n bound h = elim (Bool-cases (ltb n precision)) [
  | inl small ↦ rw (round_float-small n (ground (arith, small))) refl
  | inr large ↦
      let far = round_float-large n (ground (arith, large)) in ground (arith, far, large, h)
]
