-- ===== src/Compensation/Limits.antt =====
-- The compensation keeps every green time in its limits (src/traffic_compensation.c).
use vips_adaptive_traffi.Common.{
  ℕ, zero, suc, ◌+◌, ◌≤◌, List, [], ◌∷◌, arith, ℤ, pos, pos_part, neg_part, -ℤ_parts, replicate,
  to_i16, All, is_zero, Bool-cases, inl, inr, length,
}
use vips_adaptive_traffi.Signal.{StaticPlan}
use vips_adaptive_traffi.CommandBuffer.State.{subphaseid_num}
use vips_adaptive_traffi.Compensation.Share.{
  allocate_round, allocate_loop, allocate_compensation_by_weight, remaining_loop,
  allocate_remaining_time, subphase_compensation_time,
}
use vips_adaptive_traffi.Compensation.Conserve.{IsPlan, allocate_round_lem}

-- The planned green with the seconds given is a green time between the minimum and the maximum.
abbrev pub InLimits : StaticPlan → ℤ → Type 0
InLimits p g =
    (p.min_green + neg_part g ≤ p.pre_green + pos_part g)
    × (p.pre_green + pos_part g ≤ p.max_green + neg_part g)

-- It is so for every subphase.
abbrev pub AllInLimits : List StaticPlan → List ℤ → Type 0
AllInLimits [] gs = Unit
AllInLimits (p ∷ ps) [] = ⊥
AllInLimits (p ∷ ps) (g ∷ gs) = InLimits p g × AllInLimits ps gs

allocate_round-InLimits :
    (p : StaticPlan) (c share given remaining : ℤ)
    → IsPlan p
    → InLimits p (allocate_round p c share given remaining).0
allocate_round-InLimits p c share given remaining plan =
    let (e, stored, nonneg, low, high, left) = allocate_round_lem p c share given remaining plan in
    rw stored (omega (arith, -ℤ_parts e (pos p.pre_green), nonneg, low, high))

allocate_loop-InLimits :
    (share : ℕ → ℤ) (c : ℤ) (i : ℕ) (ps : List StaticPlan) (gs : List ℤ) (remaining : ℤ)
    → All IsPlan ps
    → AllInLimits ps gs
    → AllInLimits ps (allocate_loop share c i ps gs remaining).0
unfolding allocate_loop
allocate_loop-InLimits share c i [] gs remaining plans h = h
allocate_loop-InLimits share c i (p ∷ ps) [] remaining plans h = h
allocate_loop-InLimits share c i (p ∷ ps) (g ∷ gs) remaining plans h =
    let round = allocate_round p c (share i) g remaining in
    let rest = allocate_loop-InLimits share c (suc i) ps gs round.1 plans.1 h.1 in
    elim (Bool-cases (is_zero remaining)) [
      | inl e ↦ rw e h
      | inr e ↦ rw e (allocate_round-InLimits p c (share i) g remaining plans.0, rest)
    ]

-- A subphase whose planned green is in its limits is so with no seconds given.
planned-InLimits :
    (ps : List StaticPlan) (n : ℕ)
    → All (λ p. (p.min_green ≤ p.pre_green) × (p.pre_green ≤ p.max_green)) ps
    → length ps ≤ n
    → AllInLimits ps (replicate n (pos 0))
planned-InLimits [] n h le = tt
planned-InLimits (p ∷ ps) zero h le = absurd (omega arith)
planned-InLimits (p ∷ ps) (suc n) h le =
    (omega (arith, h.0), planned-InLimits ps n h.1 (omega (arith, le)))

module _ {Weights : Type 0} (share : Weights → ℤ → ℕ → ℤ) (only : ℕ → Weights) where
  remaining_loop-InLimits :
      (plans : List StaticPlan) (order : List ℕ) (given : List ℤ) (remaining : ℤ)
      → All IsPlan plans
      → AllInLimits plans given
      → AllInLimits plans (remaining_loop share only plans order given remaining).0
  unfolding remaining_loop allocate_compensation_by_weight
  remaining_loop-InLimits plans [] given remaining ok h = h
  remaining_loop-InLimits plans (i ∷ order) given remaining ok h =
      let r = allocate_compensation_by_weight share plans (only i) remaining given in
      let rest = remaining_loop-InLimits plans order r.0 r.1 ok (
        allocate_loop-InLimits (share (only i) remaining) remaining 0 plans given remaining ok h) in
      elim (Bool-cases (is_zero remaining)) [ inl e ↦ rw e h | inr e ↦ rw e rest ]

  -- The seconds that a cycle's compensation gives to the subphases never take a green time out of
  -- its limits, whatever the compensation, the weights and their rounding: for at most eight
  -- subphases whose limits are in order and below 2 ^ 15, with the planned green between them.
  pub subphase_compensation_time-InLimits :
      (plans : List StaticPlan) (weights : Weights) (c : ℤ)
      → All IsPlan plans
      → All (λ p. (p.min_green ≤ p.pre_green) × (p.pre_green ≤ p.max_green)) plans
      → length plans ≤ subphaseid_num
      → AllInLimits plans (subphase_compensation_time share only plans weights c)
  unfolding subphase_compensation_time allocate_remaining_time allocate_compensation_by_weight
  subphase_compensation_time-InLimits plans weights c ok planned le =
      let r =
        allocate_compensation_by_weight share plans weights c (replicate subphaseid_num (pos 0)) in
      remaining_loop-InLimits plans _ r.0 (to_i16 r.1) ok (
        allocate_loop-InLimits (share weights c) c 0 plans _ c ok
          (planned-InLimits plans subphaseid_num planned le))
