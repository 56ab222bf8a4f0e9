-- ===== src/Compensation/Cycles.antt =====
-- The seconds of each cycle (src/traffic_compensation.c, `get_cycle_compensation_time`).
use vips_adaptive_traffi.Common.{
  ℕ, zero, suc, ◌-◌, ◌/◌, ◌≤◌, ◌<◌, ◌≡◌, refl, ap, arith, ℤ, pos, negsuc, pos_part, neg_part, ◌+ℤ◌,
  ◌-ℤ◌, +ℤ_parts, -ℤ_parts, eq_of_parts, to_i16, to_i16-exact, sum_ℤ, div_trunc, neg,
}
use vips_adaptive_traffi.Compensation.Share.{cycle_loop, get_cycle_compensation_time}

-- A 16-bit integer whose opposite is one too.
pub record IsSmall (z : ℤ) : Type 0 where
  pub pos_small : pos_part z < 32768
  pub neg_small : neg_part z < 32768

neg-parts : (n : ℕ) → (pos_part (neg n) ≡ 0) × (neg_part (neg n) ≡ n)
neg-parts zero = (refl, refl)
neg-parts (suc n) = (refl, refl)

div_le : (n d : ℕ) → n / d ≤ n
div_le n d = omega arith

-- The quotient has the sign of the dividend and is not larger.
div_trunc-bounds :
    (z : ℤ) (d : ℕ)
    → (pos_part (div_trunc z d) ≤ pos_part z) × (neg_part (div_trunc z d) ≤ neg_part z)
div_trunc-bounds (pos n) d = (div_le n d, omega arith)
div_trunc-bounds (negsuc n) d = omega (arith, neg-parts (suc n / d), div_le (suc n) d)

-ℤ_small :
    (z c : ℤ)
    → pos_part c ≤ pos_part z
    → neg_part c ≤ neg_part z
    → (pos_part (z -ℤ c) ≤ pos_part z) × (neg_part (z -ℤ c) ≤ neg_part z)
unfolding ◌-ℤ◌
-ℤ_small z c h k = ground arith

-- A number taken off and added again.
add_first : (z c r s : ℤ) → r +ℤ s ≡ z -ℤ c → r +ℤ (c +ℤ s) ≡ z
add_first z c r s h = eq_of_parts _ _ (
    omega (
      arith,
      +ℤ_parts r (c +ℤ s),
      +ℤ_parts c s,
      +ℤ_parts r s,
      -ℤ_parts z c,
      ap pos_part h,
      ap neg_part h,
    ))

-- The seconds of the later cycles and the rest add up to what is shared out.
cycle_loop-sum :
    (k n : ℕ) (z : ℤ) → IsSmall z → (cycle_loop k n z).1 +ℤ sum_ℤ (cycle_loop k n z).0 ≡ z
unfolding cycle_loop
cycle_loop-sum zero n z small = eq_of_parts _ _ (omega (arith, +ℤ_parts z (pos 0)))
cycle_loop-sum (suc k) n z small =
    let b = div_trunc-bounds z n in
    let c = div_trunc z n in
    let c-exact : to_i16 c ≡ c =
      to_i16-exact c (omega (arith, b, small)) (omega (arith, b, small)) in
    let m = -ℤ_small z c b.0 b.1 in
    let d-exact : to_i16 (z -ℤ c) ≡ z -ℤ c =
      to_i16-exact (z -ℤ c) (omega (arith, m, small)) (omega (arith, m, small)) in
    let rest =
      cycle_loop-sum k n (z -ℤ c)
        record { pos_small = omega (arith, m, small); neg_small = omega (arith, m, small) } in
    rw (c-exact, d-exact) (add_first z c (cycle_loop k n (z -ℤ c)).1 _ rest)

-- However many cycles are configured, the seconds of the cycles add up to the total compensation:
-- none are lost or given twice by the division, for a total of 16 bits that is not -32768.
pub cycle_compensation-sum :
    (n : ℕ) (total : ℤ) → IsSmall total → sum_ℤ (get_cycle_compensation_time n total) ≡ total
unfolding get_cycle_compensation_time
cycle_compensation-sum n total small = cycle_loop-sum (n - 1) n total small
