-- ===== src/Common/Powers.antt =====
-- Powers of two, in the form that `omega` uses.
use Prim.Native.Nat.{ℕ, zero, suc, ◌*◌, ◌^◌, ◌≤◌, ◌<◌}
use mathlib.Core.Path.{◌≡◌}
use native.Mathlib.Nat.{pow-suc, pow-le-pow_right}
use native.Mathlib.Omega.{arith}

pub two_pow_suc : (j : ℕ) → 2 ^ suc j ≡ 2 * 2 ^ j
two_pow_suc j = omega (arith, pow-suc 2 j)

pub two_pow_pos : (j : ℕ) → 1 ≤ 2 ^ j
two_pow_pos zero = omega arith
two_pow_pos (suc j) = omega (arith, two_pow_suc j, two_pow_pos j)

pub two_pow_mono : (i j : ℕ) → i ≤ j → 2 ^ i ≤ 2 ^ j
two_pow_mono i j h = pow-le-pow_right {n = 2} (omega arith) h

pub lt-two_pow : (j : ℕ) → j < 2 ^ j
lt-two_pow zero = omega arith
lt-two_pow (suc j) = omega (arith, two_pow_suc j, lt-two_pow j, two_pow_pos j)
