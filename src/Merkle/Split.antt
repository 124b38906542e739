-- ===== src/Merkle/Split.antt =====
-- Where the tree splits: the loop of `splitPoint` reaches the largest power of two below n.
use sigillo.Common.{
  ℕ, zero, suc, ◌+◌, ◌*◌, ◌^◌, ◌≤◌, ◌<◌, ◌≡◌, ap, arith, lt→ltb, le→ltb, two_pow_suc, two_pow_mono,
  lt-two_pow,
}
use sigillo.Merkle.{split_loop, split_point}

-- From `2 ^ i`, with `d` doublings left to `2 ^ j`.
split_loop-pow :
    (d i j n fuel : ℕ)
    → i + d ≡ j
    → d ≤ fuel
    → 2 ^ j < n
    → n ≤ 2 ^ suc j
    → split_loop fuel (2 ^ i) n ≡ 2 ^ j
unfolding split_loop
split_loop-pow zero i j n zero e f lo hi = ap (λ k. 2 ^ k) (omega arith)
split_loop-pow zero i j n (suc fuel) e f lo hi =
    let arrived : 2 ^ i ≡ 2 ^ j = ap (λ k. 2 ^ k) (omega arith) in
    rw (split_loop, le→ltb (2 ^ i * 2) n (omega (arith, two_pow_suc j))) arrived
split_loop-pow (suc d) i j n zero e f lo hi = absurd (omega arith)
split_loop-pow (suc d) i j n (suc fuel) e f lo hi =
    let doubled : 2 ^ i * 2 ≡ 2 ^ suc i = omega (arith, two_pow_suc i) in
    rw (split_loop, lt→ltb (2 ^ i * 2) n (omega (arith, two_pow_suc i, two_pow_mono (suc i) j)))
      (rw doubled (split_loop-pow d (suc i) j n fuel (omega arith) (omega arith) lo hi))

-- Between two powers of two the split point is the lower one.
pub split_point-eq-pow : (j n : ℕ) → 2 ^ j < n → n ≤ 2 ^ suc j → split_point n ≡ 2 ^ j
unfolding split_point
split_point-eq-pow j n lo hi =
    split_loop-pow j 0 j n n (omega arith) (omega (arith, lt-two_pow j)) lo hi
