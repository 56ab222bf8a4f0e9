-- ===== src/Compensation/Tests.antt =====
-- Two subphases that share out a compensation, the whole of which is asked of the first.
use vips_adaptive_traffi.Common.{
  ℕ, zero, suc, inr, ◌≡◌, refl, some, List, [], ◌∷◌, arith, ℤ, pos, ◌+ℤ◌, sum_ℤ, All,
}
use vips_adaptive_traffi.Signal.{StaticPlan}
use vips_adaptive_traffi.Compensation.Share.{
  allocate_compensation_by_weight, subphase_compensation_time,
}
use vips_adaptive_traffi.CommandBuffer.State.{State}
use vips_adaptive_traffi.CommandBuffer.Polling.{command_buf_polling}
use vips_adaptive_traffi.CommandBuffer.Served.{Served, begins}
use vips_adaptive_traffi.CommandBuffer.Sample.{sample_status, idle_state, sample_config}
use vips_adaptive_traffi.Compensation.Start.{
  WeightRules, CompensationConfig, Day, zero_hour, get_alignment_compensation_time,
  start_compensation,
}
use vips_adaptive_traffi.Compensation.Align.{Aligns, get_alignment_compensation_time-Aligns}
use vips_adaptive_traffi.Compensation.Compose.{CanCompensate, command_buf_polling-Served}
use vips_adaptive_traffi.Compensation.Conserve.{IsPlan, allocate_compensation_by_weight-sum}
use vips_adaptive_traffi.Compensation.Limits.{AllInLimits, subphase_compensation_time-InLimits}
use vips_adaptive_traffi.Compensation.Share.{bubble_sort}
use vips_adaptive_traffi.Compensation.Order.{IsDescending, count, bubble_sort-sorts}

abbrev main_road : StaticPlan
main_road = record {
  ped_green_flash = 5;
  ped_red = 3;
  yellow = 3;
  all_red = 2;
  pre_green = 40;
  pre_time_compensated = 40;
  green = 45;
  max_green = 60;
  min_green = 20;
}

abbrev side_road : StaticPlan
side_road = record main_road { pre_green = 20; max_green = 30; min_green = 10 }

abbrev two_plans : List StaticPlan
two_plans = main_road ∷ side_road ∷ []

-- The weights are the one subphase that has all of it.
abbrev share_all : ℕ → ℤ → ℕ → ℤ
share_all zero c zero = c
share_all zero c (suc i) = pos 0
share_all (suc n) c zero = pos 0
share_all (suc n) c (suc i) = share_all n c i

two_plans-IsPlan : All IsPlan two_plans
two_plans-IsPlan = omega arith

subphase_compensation_time-InLimits_example :
    AllInLimits two_plans (subphase_compensation_time share_all (λ n. n) two_plans 0 (pos 25))
subphase_compensation_time-InLimits_example =
    subphase_compensation_time-InLimits share_all (λ n. n) two_plans 0 (pos 25) two_plans-IsPlan
      (omega arith) (omega arith)

abbrev none_given : List ℤ
none_given = pos 0 ∷ pos 0 ∷ []

allocate_compensation_by_weight-sum_example :
    let r = allocate_compensation_by_weight share_all two_plans 0 (pos 25) none_given in
    sum_ℤ r.0 +ℤ r.1 ≡ sum_ℤ none_given +ℤ pos 25
allocate_compensation_by_weight-sum_example =
    allocate_compensation_by_weight-sum share_all two_plans 0 (pos 25) none_given two_plans-IsPlan
      (omega arith)

abbrev green_of : ℕ → ℕ
green_of zero = 20
green_of (suc zero) = 40
green_of (suc (suc n)) = 30

bubble_sort-sorts_example :
    IsDescending green_of (bubble_sort green_of 2 (0 ∷ 1 ∷ 2 ∷ []))
    × ((v : ℕ) → count v (bubble_sort green_of 2 (0 ∷ 1 ∷ 2 ∷ [])) ≡ count v (0 ∷ 1 ∷ 2 ∷ []))
bubble_sort-sorts_example = bubble_sort-sorts green_of (0 ∷ 1 ∷ 2 ∷ [])

-- The compensation of the sample crossing at eight in the morning.
abbrev sample_rules : WeightRules ℕ
sample_rules = record { share = share_all; only = λ n. n; equal = λ buffer. 0; no_weights = 8 }

abbrev morning : Day
morning = record {
  tm_hour = 8;
  tm_min = 0;
  tm_sec = 30;
  tc_time_offset = pos 0;
  allday_plan = zero_hour ∷ [];
}

abbrev two_cycles : CompensationConfig ℕ
two_cycles = record {
  traffic_compensation_method = 3;
  traffic_compensation_baseline = 1;
  traffic_compensation_cycle_number = 2;
  phase_weight = 0;
}

get_alignment_compensation_time-Aligns_example :
    Aligns (pos 29164) 344 (get_alignment_compensation_time sample_status morning zero_hour)
unfolding ◌+ℤ◌
get_alignment_compensation_time-Aligns_example =
    get_alignment_compensation_time-Aligns sample_status morning zero_hour 29164 (omega arith)
      (omega arith) refl (omega arith) (omega arith)

idle_state-Served : Served (sample_config 0) idle_state
idle_state-Served = begins refl refl refl (omega arith) (omega arith)

idle_state-CanCompensate : CanCompensate two_cycles morning idle_state
idle_state-CanCompensate = record {
  cycles_last = omega arith;
  some_phase = omega arith;
  few = omega arith;
  plans_there = refl;
  running_some = omega arith;
  running_in = omega arith;
  in_step = omega arith;
  some_segment = omega arith;
  few_segments = omega arith;
  few_cycles = omega arith;
  branch_there = inr (omega arith);
}

command_buf_polling-Served_example :
    (s' : State) × (command_buf_polling
        (start_compensation sample_rules (sample_config 0) two_cycles morning)
        256
        (sample_config 0)
        idle_state
      ≡ some s')
    × Served (sample_config 0) s'
command_buf_polling-Served_example =
    command_buf_polling-Served sample_rules (sample_config 0) two_cycles morning idle_state
      idle_state-Served idle_state-CanCompensate (omega arith)
