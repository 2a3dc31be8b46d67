-- ===== src/Prelude/Digits.antt =====
-- Bit operations by their lowest digit, and below a power of two.
use Prim.Native.Nat.{
  ℕ, zero, suc, ◌+◌, ◌*◌, ◌/◌, ◌%◌, ◌^◌, ◌≤◌, ◌<◌, bit_or, bit_and, bit_or-bitwise, bit_and-bitwise,
  digits, max, min,
}
use mathlib.Core.Path.{◌≡◌, refl, ap, ◌∙◌}
use native.Mathlib.Omega.{arith}

module _ (z : ℕ → ℕ) (f : ℕ → ℕ → ℕ) where
  -- Once there are as many rounds as the first number, more make no difference.
  digits_enough : (n m a b : ℕ) → a ≤ n → a ≤ m → digits z f n a b ≡ digits z f m a b
  digits_enough zero zero a b h k = refl
  digits_enough zero (suc m) zero b h k = refl
  digits_enough zero (suc m) (suc a) b h k = omega (arith, h)
  digits_enough (suc n) zero zero b h k = refl
  digits_enough (suc n) zero (suc a) b h k = omega (arith, k)
  digits_enough (suc n) (suc m) zero b h k = refl
  digits_enough (suc n) (suc m) (suc a) b h k =
      ap (λ d. d * 2 + f (suc a % 2) (b % 2))
        (digits_enough n m (suc a / 2) (b / 2) (omega (arith, h)) (omega (arith, k)))

  digits_step :
      (a b : ℕ)
      → digits z f (suc a) (suc a) b
        ≡ digits z f (suc a / 2) (suc a / 2) (b / 2) * 2 + f (suc a % 2) (b % 2)
  digits_step a b =
      ap (λ d. d * 2 + f (suc a % 2) (b % 2))
        (digits_enough a (suc a / 2) (suc a / 2) (b / 2) (omega arith) (omega arith))

bit_or_step : (a b : ℕ) → bit_or a b ≡ bit_or (a / 2) (b / 2) * 2 + max (a % 2) (b % 2)
bit_or_step zero b = rw (bit_or-bitwise zero b, bit_or-bitwise zero (b / 2)) (omega arith)
bit_or_step (suc a) b =
    rw (bit_or-bitwise (suc a) b, bit_or-bitwise (suc a / 2) (b / 2)) (digits_step (λ b. b) max a b)

bit_and_step : (a b : ℕ) → bit_and a b ≡ bit_and (a / 2) (b / 2) * 2 + min (a % 2) (b % 2)
bit_and_step zero b = rw (bit_and-bitwise zero b, bit_and-bitwise zero (b / 2)) (omega arith)
bit_and_step (suc a) b =
    rw (bit_and-bitwise (suc a) b, bit_and-bitwise (suc a / 2) (b / 2))
      (digits_step (λ b. zero) min a b)

bit_or_zero : (n a : ℕ) → a ≤ n → bit_or a 0 ≡ a
bit_or_zero zero zero h = refl
bit_or_zero zero (suc a) h = omega (arith, h)
bit_or_zero (suc n) zero h = refl
bit_or_zero (suc n) (suc a) h =
    let halved = bit_or_zero n (suc a / 2) (omega (arith, h)) in
    bit_or_step (suc a) 0 ∙ (ap (λ d. d * 2 + max (suc a % 2) 0) halved ∙ omega arith)

shift_suc : (a k : ℕ) → a * 2 ^ suc k ≡ a * 2 ^ k * 2
shift_suc a k = grind arith

halve : (n : ℕ) → n * 2 / 2 ≡ n
halve n = omega arith

even : (n : ℕ) → n * 2 % 2 ≡ 0
even n = omega arith

halve_add : (n s : ℕ) → (n * 2 + s) / 2 ≡ n + s / 2
halve_add n s = omega arith

below_half : (k s : ℕ) → s < 2 ^ suc k → s / 2 < 2 ^ k
below_half k s below = grind (arith, below)

-- What lies below the lowest digit of the other number is put beside it.
pub bit_or-shifted : (k a s : ℕ) → s < 2 ^ k → bit_or (a * 2 ^ k) s ≡ a * 2 ^ k + s
bit_or-shifted zero a s below =
    let nothing : s ≡ 0 = omega (arith, below) in
    rw nothing (bit_or_zero (a * 1) (a * 1) (omega arith) ∙ omega arith)
bit_or-shifted (suc k) a s below =
    let halved = bit_or-shifted k a (s / 2) (below_half k s below) in
    rw (shift_suc a k) (
      bit_or_step (a * 2 ^ k * 2) s
      ∙ rw (halve (a * 2 ^ k), even (a * 2 ^ k), halved) (omega arith))

-- A mask whose digits are all above takes no notice of what lies below.
pub bit_and-shifted :
    (k a b s : ℕ) → s < 2 ^ k → bit_and (a * 2 ^ k + s) (b * 2 ^ k) ≡ bit_and a b * 2 ^ k
bit_and-shifted zero a b s below =
    let nothing : s ≡ 0 = omega (arith, below) in
    let whole : a * 2 ^ 0 + 0 ≡ a = omega arith in
    let whole_b : b * 2 ^ 0 ≡ b = omega arith in rw nothing (rw (whole, whole_b) (omega arith))
bit_and-shifted (suc k) a b s below =
    let halved = bit_and-shifted k a b (s / 2) (below_half k s below) in
    rw (shift_suc a k, shift_suc b k, shift_suc (bit_and a b) k)
      (bit_and_step (a * 2 ^ k * 2 + s) (b * 2 ^ k * 2)
        ∙ rw (halve_add (a * 2 ^ k) s, halve (b * 2 ^ k), even (b * 2 ^ k), halved) (omega arith))
