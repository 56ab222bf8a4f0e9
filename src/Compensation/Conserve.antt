-- ===== src/Compensation/Conserve.antt =====
-- No second of the compensation is lost (src/traffic_compensation.c,
-- `allocate_compensation_by_weight` and `allocate_remaining_time`).
use vips_adaptive_traffi.Common.{
  ℕ, suc, ◌+◌, ◌≤◌, ◌<◌, ◌≡◌, refl, ◌∙◌, ap, List, [], ◌∷◌, arith, ℤ, pos, negsuc, pos_part,
  neg_part, ◌+ℤ◌, ◌-ℤ◌, +ℤ_parts, -ℤ_parts, eq_of_parts, to_i16, to_i16-exact, sum_ℤ, All, length,
  is_zero, Bool-cases, inl, inr,
}
use vips_adaptive_traffi.Signal.{StaticPlan}
use vips_adaptive_traffi.Compensation.Share.{
  limit_share, clamp_green, allocate_round, allocate_loop, allocate_compensation_by_weight,
}

-- The limits of a subphase are in order, and they and the planned green fit 15 bits.
pub record IsPlan (p : StaticPlan) : Type 0 where
  pub limits_ordered : p.min_green ≤ p.max_green
  pub limit_fits : p.max_green < 32768
  pub green_fits : p.pre_green < 32768

pub clamp_green-in :
    (p : StaticPlan) (t : ℤ)
    → p.min_green ≤ p.max_green
    → (neg_part (clamp_green p t) ≡ 0)
      × (p.min_green ≤ pos_part (clamp_green p t))
      × (pos_part (clamp_green p t) ≤ p.max_green)
unfolding clamp_green
clamp_green-in p (pos n) h = ground arith
clamp_green-in p (negsuc n) h = ground arith

-- What is taken from the rest goes to the subphase.
regroup : (e pre given : ℤ) → given +ℤ (e -ℤ pre -ℤ given) ≡ e -ℤ pre
regroup e pre given =
    eq_of_parts _ _ (omega (arith, +ℤ_parts given (e -ℤ pre -ℤ given), -ℤ_parts (e -ℤ pre) given))

diff_small :
    (e : ℤ) (m n : ℕ)
    → neg_part e ≡ 0
    → pos_part e < m
    → n < m
    → (pos_part (e -ℤ pos n) < m) × (neg_part (e -ℤ pos n) < m)
unfolding ◌-ℤ◌
diff_small (pos k) m n h l l' = ground arith
diff_small (negsuc k) m n h l l' = absurd (omega arith)

-- After a round the planned green and the seconds given make up a green time in the limits, and
-- the seconds given and those that remain add up to what they did.
pub allocate_round_lem :
    (p : StaticPlan) (c share given remaining : ℤ)
    → IsPlan p
    → (e : ℤ) × ((allocate_round p c share given remaining).0 ≡ e -ℤ pos p.pre_green)
      × (neg_part e ≡ 0)
      × (p.min_green ≤ pos_part e)
      × (pos_part e ≤ p.max_green)
      × ((allocate_round p c share given remaining).1
          ≡ remaining -ℤ (e -ℤ pos p.pre_green -ℤ given))
unfolding allocate_round
allocate_round_lem p c share given remaining plan =
    let e = clamp_green p (pos p.pre_green +ℤ given +ℤ limit_share c share remaining) in
    let b = clamp_green-in p _ plan.limits_ordered in
    let d =
      diff_small e 32768 p.pre_green b.0 (omega (arith, b, plan.limit_fits)) plan.green_fits in
    (
      e,
      ap to_i16 (regroup e (pos p.pre_green) given) ∙ to_i16-exact (e -ℤ pos p.pre_green) d.0 d.1,
      b.0,
      b.1,
      b.2,
      refl,
    )

pub allocate_round-sum :
    (p : StaticPlan) (c share given remaining : ℤ)
    → IsPlan p
    → let r = allocate_round p c share given remaining in
      pos_part r.0 + pos_part r.1 + neg_part given + neg_part remaining
      ≡ neg_part r.0 + neg_part r.1 + pos_part given + pos_part remaining
allocate_round-sum p c share given remaining plan =
    let (e, stored, nonneg, low, high, left) = allocate_round_lem p c share given remaining plan in
    let d = e -ℤ pos p.pre_green in
    omega (
      arith,
      ap pos_part stored,
      ap neg_part stored,
      ap pos_part left,
      ap neg_part left,
      -ℤ_parts remaining (d -ℤ given),
      -ℤ_parts d given,
    )

-- The sum of the parts, before the integers are put together.
abbrev InBalance : List ℤ × ℤ → List ℤ → ℤ → Type 0
InBalance r given remaining =
    pos_part (sum_ℤ r.0) + pos_part r.1 + neg_part (sum_ℤ given) + neg_part remaining
    ≡ neg_part (sum_ℤ r.0) + neg_part r.1 + pos_part (sum_ℤ given) + pos_part remaining

allocate_loop-InBalance :
    (share : ℕ → ℤ) (c : ℤ) (i : ℕ) (ps : List StaticPlan) (gs : List ℤ) (remaining : ℤ)
    → All IsPlan ps
    → length ps ≤ length gs
    → InBalance (allocate_loop share c i ps gs remaining) gs remaining
unfolding allocate_loop
allocate_loop-InBalance share c i [] gs remaining plans le = omega arith
allocate_loop-InBalance share c i (p ∷ ps) [] remaining plans le = absurd (omega arith)
allocate_loop-InBalance share c i (p ∷ ps) (g ∷ gs) remaining plans le =
    let round = allocate_round p c (share i) g remaining in
    let rest = allocate_loop-InBalance share c (suc i) ps gs round.1 plans.1 (omega (arith, le)) in
    elim (Bool-cases (is_zero remaining)) [
      | inl e ↦ rw e (omega arith)
      | inr e ↦ rw e (
          omega (
            arith,
            rest,
            allocate_round-sum p c (share i) g remaining plans.0,
            +ℤ_parts g (sum_ℤ gs),
            +ℤ_parts round.0 (sum_ℤ (allocate_loop share c (suc i) ps gs round.1).0),
          ))
    ]

module _ {Weights : Type 0} (share : Weights → ℤ → ℕ → ℤ) where
  -- No second is lost when a compensation is shared out by weight, whatever the weights and their
  -- rounding: the seconds given to the subphases and the seconds that remain add up to the seconds
  -- given before and the compensation. The limits of the subphases are in order and, with the
  -- planned green, below 2 ^ 15.
  pub allocate_compensation_by_weight-sum :
      (plans : List StaticPlan) (weights : Weights) (c : ℤ) (given : List ℤ)
      → All IsPlan plans
      → length plans ≤ length given
      → let r = allocate_compensation_by_weight share plans weights c given in
        sum_ℤ r.0 +ℤ r.1 ≡ sum_ℤ given +ℤ c
  unfolding allocate_compensation_by_weight
  allocate_compensation_by_weight-sum plans weights c given ok le =
      let r = allocate_compensation_by_weight share plans weights c given in
      eq_of_parts _ _ (
        omega (
          arith,
          allocate_loop-InBalance (share weights c) c 0 plans given c ok le,
          +ℤ_parts (sum_ℤ r.0) r.1,
          +ℤ_parts (sum_ℤ given) c,
        ))
