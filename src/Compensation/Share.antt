-- ===== src/Compensation/Share.antt =====
-- The sharing of the compensation among the cycles and subphases (src/traffic_compensation.c). The
-- `int` computations stay far below 2 ^ 31; the conversions to `int16_t` are written out.
use vips_adaptive_traffi.Common.{
  ℕ, zero, suc, ◌-◌, List, [], ◌∷◌, length, get_or, replicate, ltb, if◌then◌else◌, ℤ, pos, ◌+ℤ◌,
  ◌-ℤ◌, ltb_ℤ, to_i16, is_zero, div_trunc,
}
use vips_adaptive_traffi.Signal.{StaticPlan, zero_plan}
use vips_adaptive_traffi.CommandBuffer.State.{subphaseid_num}

-- The loop of `get_cycle_compensation_time` from a cycle on: the cycles' seconds, and what is left.
unfoldable pub cycle_loop : ℕ → ℕ → ℤ → List ℤ × ℤ
cycle_loop zero comp_cyclenum tmp_comp = ([], tmp_comp)
cycle_loop (suc k) comp_cyclenum tmp_comp =
    let c = to_i16 (div_trunc tmp_comp comp_cyclenum) in
    let r = cycle_loop k comp_cyclenum (to_i16 (tmp_comp -ℤ c)) in (c ∷ r.0, r.1)

-- `get_cycle_compensation_time` from the total on: the seconds of each cycle, the first of which
-- takes what is left.
unfoldable pub get_cycle_compensation_time : ℕ → ℤ → List ℤ
get_cycle_compensation_time comp_cyclenum total =
    let r = cycle_loop (comp_cyclenum - 1) comp_cyclenum total in r.1 ∷ r.0

-- A share is not more than what remains.
abbrev pub limit_share : ℤ → ℤ → ℤ → ℤ
limit_share compensation_time share remaining =
    if ltb_ℤ (pos 0) compensation_time
    then if ltb_ℤ remaining share then remaining else share
    else if ltb_ℤ share remaining
    then remaining
    else share

unfoldable pub clamp_green : StaticPlan → ℤ → ℤ
clamp_green p t =
    if ltb_ℤ t (pos p.min_green)
    then pos p.min_green
    else if ltb_ℤ (pos p.max_green) t
    then pos p.max_green
    else t

-- One round of `allocate_compensation_by_weight`: what the subphase has been given after it, and
-- what remains.
unfoldable pub allocate_round : StaticPlan → ℤ → ℤ → ℤ → ℤ → ℤ × ℤ
allocate_round p compensation_time share given remaining =
    let comp_time = limit_share compensation_time share remaining in
    let effect_time = clamp_green p (pos p.pre_green +ℤ given +ℤ comp_time) in
    let comp_time' = effect_time -ℤ pos p.pre_green -ℤ given in
    (to_i16 (given +ℤ comp_time'), remaining -ℤ comp_time')

-- Its loop over the plans of the subphases, from a subphase on. `share i` is the rounded product
-- of the compensation and the weight of subphase i: `ceil(compensation_time * weights[i])`, or
-- `-ceil(-compensation_time * weights[i])`.
unfoldable pub allocate_loop : (ℕ → ℤ) → ℤ → ℕ → List StaticPlan → List ℤ → ℤ → List ℤ × ℤ
allocate_loop share compensation_time i [] given remaining = (given, remaining)
allocate_loop share compensation_time i (p ∷ ps) [] remaining = ([], remaining)
allocate_loop share compensation_time i (p ∷ ps) (g ∷ gs) remaining =
    let round = allocate_round p compensation_time (share i) g remaining in
    let rest = allocate_loop share compensation_time (suc i) ps gs round.1 in
    if is_zero remaining then (g ∷ gs, remaining) else (round.0 ∷ rest.0, rest.1)

-- The subphases' indices with the longest green time first: the bubble sort of
-- `allocate_remaining_time`. A pass makes at most n comparisons.
unfoldable pub bubble_pass : (ℕ → ℕ) → ℕ → List ℕ → List ℕ
bubble_pass key zero xs = xs
bubble_pass key (suc n) [] = []
bubble_pass key (suc n) (x ∷ []) = x ∷ []
bubble_pass key (suc n) (x ∷ y ∷ xs) =
    let swapped = bubble_pass key n (x ∷ xs) in
    let kept = bubble_pass key n (y ∷ xs) in if ltb (key x) (key y) then y ∷ swapped else x ∷ kept

unfoldable pub bubble_sort : (ℕ → ℕ) → ℕ → List ℕ → List ℕ
bubble_sort key zero xs = xs
bubble_sort key (suc n) xs = bubble_sort key n (bubble_pass key (suc n) xs)

abbrev pub indices_from : ℕ → ℕ → List ℕ
indices_from zero i = []
indices_from (suc n) i = i ∷ indices_from n (suc i)

-- The weights of the phases are floats: `share w c i` is the share of subphase i under the weights
-- w of a compensation c, rounded as the code does, and `only i` gives subphase i the weight 100.
module _ {Weights : Type 0} (share : Weights → ℤ → ℕ → ℤ) where
  unfoldable pub allocate_compensation_by_weight :
      List StaticPlan → Weights → ℤ → List ℤ → List ℤ × ℤ
  allocate_compensation_by_weight plans weights compensation_time given =
      allocate_loop (share weights compensation_time) compensation_time 0 plans given
        compensation_time

  -- The last loop of `allocate_remaining_time`.
  unfoldable pub remaining_loop : (ℕ → Weights) → List StaticPlan → List ℕ → List ℤ → ℤ → List ℤ × ℤ
  remaining_loop only plans [] given remaining = (given, remaining)
  remaining_loop only plans (i ∷ is) given remaining =
      let r = allocate_compensation_by_weight plans (only i) remaining given in
      let rest = remaining_loop only plans is r.0 r.1 in
      if is_zero remaining then (given, remaining) else rest

  unfoldable pub allocate_remaining_time : (ℕ → Weights) → List StaticPlan → ℤ → List ℤ → List ℤ
  allocate_remaining_time only plans remaining given =
      let n = length plans in
      let sorted =
        bubble_sort (λ i. (get_or plans i zero_plan).pre_green) (n - 1) (indices_from n 0) in
      (remaining_loop only plans sorted given remaining).0

  -- The seconds that one cycle of `implement_compensation_by_weight` gives the subphases. `plans`
  -- holds the plans of the first `SubPhaseCount` subphases.
  unfoldable pub subphase_compensation_time : (ℕ → Weights) → List StaticPlan → Weights → ℤ → List ℤ
  subphase_compensation_time only plans weights cycle_compensation =
      let r =
        allocate_compensation_by_weight plans weights cycle_compensation
          (replicate subphaseid_num (pos 0)) in
      allocate_remaining_time only plans (to_i16 r.1) r.0
