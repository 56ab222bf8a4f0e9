-- ===== src/Compensation/Start.antt =====
-- The start of a compensation (src/traffic_compensation.c): the seconds to compensate in all, and the
-- commands that share them out. The subphase of the status is at least 1 and its step is at least 1;
-- for a subphase or a step 0 the code reads in front of its arrays. A remainder by 0, in `rem_trunc`,
-- `later_share`, `insert_loop` and `first_ptr`, is the one of the native numbers, where the code fails:
-- the theorems on them ask for a cycle time and a number of subphases above 0.
use vips_adaptive_traffi.Common.{
  ℕ, zero, suc, ◌+◌, ◌-◌, ◌*◌, ◌/◌, ◌%◌, Bool, false, not, ◌&&◌, ◌||◌, List, [], ◌∷◌, length,
  get_or, take, drop, map, Option, none, some, ltb, leb, ◌==◌, if◌then◌else◌, ℤ, pos, negsuc, neg,
  ◌+ℤ◌, ◌-ℤ◌, ltb_ℤ, to_i16, is_zero,
}
use vips_adaptive_traffi.Signal.{
  StaticPlan, zero_plan, SignalStatus, TscCommand, zero_command, Config, cheng_long,
}
use vips_adaptive_traffi.CommandBuffer.State.{
  State, cycle_num, compensation_id, compensation_name, compensation_buffer_clear,
}
use vips_adaptive_traffi.CommandBuffer.Insert.{command_buf_insert_effect_time}
use vips_adaptive_traffi.Compensation.Share.{
  get_cycle_compensation_time, subphase_compensation_time,
}

-- `AllDay_plan_t`: when a segment of the day starts.
pub record AllDayPlan : Type 0 where
  pub hour : ℕ
  pub minute : ℕ

-- The local time, and the fields of the status that only this component reads.
pub record Day : Type 0 where
  pub tm_hour : ℕ
  pub tm_min : ℕ
  pub tm_sec : ℕ
  pub tc_time_offset : ℤ
  pub allday_plan : List AllDayPlan

abbrev pub zero_hour : AllDayPlan
zero_hour = record { hour = 0; minute = 0 }

-- The seconds of a subphase, and of the steps behind a step.
abbrev pub plan_seconds : StaticPlan → ℕ
plan_seconds p = p.pre_green + p.ped_green_flash + p.ped_red + p.yellow + p.all_red

abbrev pub sum : List ℕ → ℕ
sum [] = 0
sum (n ∷ ns) = n + sum ns

abbrev pub steps_behind : ℕ → StaticPlan → ℕ
steps_behind step_id p =
    sum (drop (step_id - 1) (p.ped_green_flash ∷ p.ped_red ∷ p.yellow ∷ p.all_red ∷ []))

-- The plans of the subphases that the status counts.
abbrev pub plans_of : SignalStatus → List StaticPlan
plans_of s = take s.sub_phase_count s.plan

-- `secInDay`: the second, counted from the base point, at which the running cycle ends.
unfoldable pub sec_in_day : SignalStatus → Day → AllDayPlan → ℤ
sec_in_day s d align =
    pos ((d.tm_hour * 60 + d.tm_min) * 60 + d.tm_sec)
    -ℤ pos ((align.hour * 60 + align.minute) * 60 + s.offset)
    +ℤ d.tc_time_offset
    +ℤ pos (
        sum (map plan_seconds (drop s.sub_phase_id (plans_of s)))
        + steps_behind s.step_id (get_or s.plan (s.sub_phase_id - 1) zero_plan)
        + s.step_sec)

-- The remainder of C, with the sign of the dividend.
abbrev pub rem_trunc : ℤ → ℕ → ℤ
rem_trunc (pos n) d = pos (n % d)
rem_trunc (negsuc n) d = neg (suc n % d)

-- The seconds to the next base point of a cycle, forwards or backwards, before they become an
-- `int16_t`.
unfoldable pub alignment : ℤ → ℕ → ℤ
alignment second cycle_time =
    let comp_time = rem_trunc second cycle_time in
    if ltb_ℤ comp_time (pos (cycle_time / 2))
    then pos 0 -ℤ comp_time
    else pos cycle_time -ℤ comp_time

unfoldable pub get_alignment_compensation_time : SignalStatus → Day → AllDayPlan → ℤ
get_alignment_compensation_time s d align = to_i16 (alignment (sec_in_day s d align) s.cycle_time)

-- The loop of `get_nearly_segment` from the segment behind `last` on; at its end the last one.
unfoldable pub segment_loop : ℕ → AllDayPlan → List AllDayPlan → AllDayPlan
segment_loop min_in_day last [] = last
segment_loop min_in_day last (p ∷ ps) =
    let rest = segment_loop min_in_day p ps in
    if ltb min_in_day (p.hour * 60 + p.minute) then last else rest

-- Without a segment the code reads in front of the array.
unfoldable pub get_nearly_segment : Day → List AllDayPlan → AllDayPlan
get_nearly_segment d [] = zero_hour
get_nearly_segment d (p ∷ ps) = segment_loop (d.tm_hour * 60 + d.tm_min) p ps

abbrev pub zero_hour_zero_min_baseline : ℕ
zero_hour_zero_min_baseline = 1

abbrev pub daily_segment_baseline : ℕ
daily_segment_baseline = 2

-- `get_total_compensation_second_with_status`.
unfoldable pub get_total_compensation_second : Config → ℕ → SignalStatus → Day → ℤ
get_total_compensation_second config baseline s d =
    let from_zero = get_alignment_compensation_time s d zero_hour in
    let from_segment = get_alignment_compensation_time s d (get_nearly_segment d d.allday_plan) in
    if baseline == zero_hour_zero_min_baseline
    then from_zero
    else if baseline == daily_segment_baseline
    then from_segment
    else if config.signal_controller_manufacturer == cheng_long
    then from_segment
    else from_zero

-- The share of a subphase by its index.
abbrev pub share_at : List ℤ → ℕ → ℤ
share_at given i = get_or given i (pos 0)

-- Whether a subphase of the next `n` behind `ptr` has a share.
unfoldable pub later_share : ℕ → ℕ → List ℤ → ℕ → Bool
later_share zero count given ptr = false
later_share (suc n) count given ptr =
    let next = (ptr + 1) % count in
    not (is_zero (share_at given next)) || later_share n count given next

-- The command of a cycle for a subphase by its index.
abbrev pub compensation_command : List StaticPlan → List ℤ → ℕ → ℕ → TscCommand
compensation_command plans given cycle ptr = record zero_command {
  app_id = compensation_id;
  app_priority = 99;
  target_phase = ptr + 1;
  cycle = cycle;
  phase = ptr + 1;
  effect_time = to_i16 (pos (get_or plans ptr zero_plan).pre_green +ℤ share_at given ptr);
  host_obu_name = compensation_name;
}

-- Whether a subphase with `n` more behind it has no command: in the last cycle, if neither it nor any
-- of those has a share.
unfoldable pub is_skipped : ℕ → Bool → List StaticPlan → List ℤ → ℕ → Bool
is_skipped n last plans given ptr =
    last && (is_zero (share_at given ptr) && not (later_share n (length plans) given ptr))

-- The loop of `insert_compensation_command` for the last `n` subphases. `last` is true in the last
-- cycle.
unfoldable pub insert_loop : ℕ → Bool → List StaticPlan → List ℤ → ℕ → ℕ → State → State
insert_loop zero last plans given cycle_ptr ptr s = s
insert_loop (suc n) last plans given cycle_ptr ptr s =
    let count = length plans in
    let s' =
      if is_skipped n last plans given ptr
      then s
      else (command_buf_insert_effect_time (compensation_command plans given cycle_ptr ptr) s).1 in
    let wrapped = leb count (ptr + 1) in
    insert_loop n last plans given (if wrapped then (cycle_ptr + 1) % cycle_num else cycle_ptr)
      (if wrapped then (ptr + 1) % count else ptr + 1) s'

-- The index that the loop starts with: the running subphase, or the next one if this one cannot take
-- its share any more.
unfoldable pub first_ptr : SignalStatus → List StaticPlan → List ℤ → ℕ
first_ptr status plans given =
    let ptr = status.sub_phase_id - 1 in
    let p = get_or status.plan ptr zero_plan in
    let t = pos status.step_sec -ℤ share_at given ptr in
    if not (status.step_id == 1) || (ltb_ℤ t (pos p.min_green) || ltb_ℤ (pos p.max_green) t)
    then (ptr + 1) % length plans
    else ptr

unfoldable pub insert_compensation_command : SignalStatus → ℕ → ℕ → List ℤ → State → State
insert_compensation_command status comp_cyclenum cycle_index given s =
    let plans = plans_of status in
    insert_loop (length plans) (leb (comp_cyclenum - 1) cycle_index) plans given
      (cycle_index % cycle_num) (first_ptr status plans given) s

-- The arterial and the branch of method 3 behind the first `i` subphases, from those before; 255 is
-- no branch.
unfoldable pub choose_loop : List StaticPlan → ℕ → ℕ → List StaticPlan → ℕ × ℕ → ℕ × ℕ
choose_loop plans i zero ps chosen = chosen
choose_loop plans i (suc n) [] chosen = chosen
choose_loop plans i (suc n) (p ∷ ps) (arterial, branch) = choose_loop plans (suc i) n ps (
    if ltb (get_or plans arterial zero_plan).pre_green p.pre_green
    then (i, arterial)
    else if (branch == 255) || ltb (get_or plans branch zero_plan).pre_green p.pre_green
    then (arterial, i)
    else (arterial, branch))

unfoldable pub choose_phases : List StaticPlan → ℕ × ℕ
choose_phases plans = choose_loop plans 1 (length plans) (drop 1 plans) (0, 255)

-- The weights of the phases are floats, as in the sharing. `equal` gives the phases that the buffer
-- marks the same weight, which add up to 100; `no_weights` are all 0.
pub record WeightRules (Weights : Type 0) : Type 0 where
  pub share : Weights → ℤ → ℕ → ℤ
  pub only : ℕ → Weights
  pub equal : List ℕ → Weights
  pub no_weights : Weights

-- The configuration of the compensation.
pub record CompensationConfig (Weights : Type 0) : Type 0 where
  pub traffic_compensation_method : ℕ
  pub traffic_compensation_baseline : ℕ
  pub traffic_compensation_cycle_number : ℕ
  pub phase_weight : Weights

module _ {Weights : Type 0} (rules : WeightRules Weights) where
  -- The loop of `implement_compensation_by_weight` over the cycles' seconds.
  unfoldable pub implement_loop : SignalStatus → ℕ → Weights → ℕ → List ℤ → State → State
  implement_loop status comp_cyclenum weights i [] s = s
  implement_loop status comp_cyclenum weights i (c ∷ cs) s =
      implement_loop status comp_cyclenum weights (suc i) cs (
        insert_compensation_command status comp_cyclenum i
          (subphase_compensation_time rules.share rules.only (plans_of status) weights c) s)

  unfoldable pub implement_compensation_by_weight : SignalStatus → ℕ → ℤ → Weights → State → State
  implement_compensation_by_weight status comp_cyclenum total weights s =
      implement_loop status comp_cyclenum weights 0
        (take comp_cyclenum (get_cycle_compensation_time comp_cyclenum total)) s

  -- The weights of method 3.
  unfoldable pub road_weights : ℤ → List StaticPlan → Weights
  road_weights total plans =
      let chosen = choose_phases plans in
      if ltb_ℤ total (pos 0)
      then rules.only chosen.1
      else if ltb_ℤ (pos 0) total
      then rules.only chosen.0
      else rules.no_weights

  -- The weights that each method takes; method 0 leaves the compensation to the controller.
  unfoldable pub method_weights : CompensationConfig Weights → ℤ → State → Option Weights
  unfolding road_weights
  method_weights c total s =
      if c.traffic_compensation_method == 1
      then some (rules.equal s.compensation_buffer)
      else if c.traffic_compensation_method == 2
      then some c.phase_weight
      else if c.traffic_compensation_method == 3
      then some (road_weights total (plans_of s.signal_status))
      else none

  unfoldable pub start_compensation : Config → CompensationConfig Weights → Day → State → State
  start_compensation config c d s =
      let total =
        get_total_compensation_second config c.traffic_compensation_baseline s.signal_status d in
      compensation_buffer_clear (elim (method_weights c total s) [
        | none ↦ s
        | some weights ↦
            implement_compensation_by_weight s.signal_status c.traffic_compensation_cycle_number
              total weights s
      ])
