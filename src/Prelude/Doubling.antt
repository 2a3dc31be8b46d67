-- ===== src/Prelude/Doubling.antt =====
-- A number that is noted whenever it has doubled: the status messages of dbc2val/dbcfeeder.py and
-- gps2val/gpsd_feeder.py.
use Prim.Native.Nat.{ℕ, suc, ◌*◌, ◌<◌, ◌^◌, ◌≤◌}
use mathlib.Core.Bool.{false, true}
use mathlib.Core.Logic.{inl, inr, ◌⊎◌}
use mathlib.Core.Path.{◌≡◌}
use native.Mathlib.Omega.{arith}
use kuksa_val_feeders.Prelude.Tests.{leb}

-- `last` is the largest power of two up to `sent`, or nothing was sent.
abbrev pub CountedTo : ℕ → ℕ → Type 0
CountedTo sent last =
    ((sent ≡ 0) × (last ≡ 0)) ⊎ ((k : ℕ) × (last ≡ 2 ^ k) × (last ≤ sent) × (sent < 2 * last))

abbrev pub IsPowerOfTwo : ℕ → Type 0
IsPowerOfTwo n = (k : ℕ) × (n ≡ 2 ^ k)

pub due_report :
    (sent last : ℕ)
    → CountedTo sent last
    → leb (2 * last) (suc sent) ≡ true
    → IsPowerOfTwo (suc sent)
due_report sent last (inl (nothing, none_yet)) due = (0, ground (arith, nothing))
due_report sent last (inr (k, power, from, below)) due = (suc k, ground (arith, due, below, power))

pub early_report :
    (sent last : ℕ)
    → CountedTo sent last
    → leb (2 * last) (suc sent) ≡ false
    → CountedTo (suc sent) last
early_report sent last (inl (nothing, none_yet)) early = ground (arith, nothing, none_yet, early)
early_report sent last (inr (k, power, from, below)) early =
    inr (k, power, omega (arith, from), ground (arith, early))

pub power_counted : (n k : ℕ) → suc n ≡ 2 ^ k → CountedTo (suc n) (suc n)
power_counted n k power = inr (k, power, omega arith, omega arith)
