-- ===== src/Compensation/Compose.antt =====
-- The compensation of src/traffic_compensation.c as the one that the poll of
-- src/traffic_signal_command_buffer.c starts.
use vips_adaptive_traffi.Common.{
  ℕ, zero, suc, ◌+◌, ◌-◌, ◌%◌, ◌<◌, ◌≤◌, ◌≢◌, ◌⊎◌, arith, ◌≡◌, refl, sym, ap, ◌∙◌, Bool, some, none,
  List, [], ◌∷◌, ◌++◌, length, take, leb, if◌then◌else◌, ℤ, Bool-cases, Option-cases, inl, inr,
}
use vips_adaptive_traffi.Signal.{StaticPlan, SignalStatus, TscCommand, Config, plan_at}
use vips_adaptive_traffi.CommandBuffer.State.{State, cycle_num, compensation_buffer_clear}
use vips_adaptive_traffi.CommandBuffer.Insert.{command_buf_insert_effect_time}
use vips_adaptive_traffi.CommandBuffer.Polling.{command_buf_polling}
use vips_adaptive_traffi.CommandBuffer.Reach.{insert_all, compensate, step_poll}
use vips_adaptive_traffi.CommandBuffer.Served.{Served, Served-Reachable, poll-Phases, goes_on}
use vips_adaptive_traffi.CommandBuffer.Total.{Reachable-poll_ends}
use vips_adaptive_traffi.Compensation.Share.{
  get_cycle_compensation_time, subphase_compensation_time,
}
use vips_adaptive_traffi.Compensation.Start.{
  Day, is_skipped, compensation_command, insert_loop, first_ptr, plans_of,
  insert_compensation_command, WeightRules, CompensationConfig, implement_loop,
  implement_compensation_by_weight, method_weights, get_total_compensation_second,
  start_compensation,
}

-- The domain of a compensation. Outside it the code divides by a cycle time or a number of subphases of
-- 0, reads or writes outside an array (of 8 subphases, 3 cycles, 48 segments, or in front of one), or,
-- by method 3 with one subphase, writes the weight of the branch 255 that it did not find.
pub record CanCompensate {Weights : Type 0} (c : CompensationConfig Weights) (d : Day) (s : State)
    : Type 0 where
  pub cycles_last : 0 < s.signal_status.cycle_time
  pub some_phase : 0 < s.signal_status.sub_phase_count
  pub few : s.signal_status.sub_phase_count ≤ 8
  pub plans_there : length s.signal_status.plan ≡ 8
  pub running_some : 0 < s.signal_status.sub_phase_id
  pub running_in : s.signal_status.sub_phase_id ≤ s.signal_status.sub_phase_count
  pub in_step : 0 < s.signal_status.step_id
  pub some_segment : 0 < length d.allday_plan
  pub few_segments : length d.allday_plan ≤ 48
  pub few_cycles : c.traffic_compensation_cycle_number ≤ cycle_num
  pub branch_there : (c.traffic_compensation_method ≢ 3) ⊎ (2 ≤ s.signal_status.sub_phase_count)

insert_all-append :
    (xs ys : List TscCommand) (s : State)
    → insert_all (xs ++ ys) s ≡ insert_all ys (insert_all xs s)
insert_all-append [] ys s = refl
insert_all-append (x ∷ xs) ys s = insert_all-append xs ys (command_buf_insert_effect_time x s).1

-- The commands of `insert_loop`, in their order.
loop_commands : ℕ → Bool → List StaticPlan → List ℤ → ℕ → ℕ → List TscCommand
loop_commands zero last plans given cycle_ptr ptr = []
loop_commands (suc n) last plans given cycle_ptr ptr =
    let count = length plans in
    let wrapped = leb count (ptr + 1) in
    let rest =
      loop_commands n last plans given (if wrapped then (cycle_ptr + 1) % cycle_num else cycle_ptr)
        (if wrapped then (ptr + 1) % count else ptr + 1) in
    if is_skipped n last plans given ptr
    then rest
    else compensation_command plans given cycle_ptr ptr ∷ rest

insert_loop-insert_all :
    (n : ℕ) (last : Bool) (plans : List StaticPlan) (given : List ℤ) (cycle_ptr ptr : ℕ) (s : State)
    → insert_loop n last plans given cycle_ptr ptr s
      ≡ insert_all (loop_commands n last plans given cycle_ptr ptr) s
unfolding insert_loop loop_commands
insert_loop-insert_all zero last plans given cycle_ptr ptr s = refl
insert_loop-insert_all (suc n) last plans given cycle_ptr ptr s =
    elim (Bool-cases (is_skipped n last plans given ptr)) [
      | inl e ↦ rw (insert_loop, loop_commands, e) (insert_loop-insert_all n last plans given _ _ s)
      | inr e ↦ rw (insert_loop, loop_commands, e) (insert_loop-insert_all n last plans given _ _ _)
    ]

module _ {Weights : Type 0} (rules : WeightRules Weights) where
  implement_commands : SignalStatus → ℕ → Weights → ℕ → List ℤ → List TscCommand
  implement_commands status comp_cyclenum weights i [] = []
  implement_commands status comp_cyclenum weights i (c ∷ cs) =
      let plans = plans_of status in
      let given = subphase_compensation_time rules.share rules.only plans weights c in
      loop_commands (length plans) (leb (comp_cyclenum - 1) i) plans given (i % cycle_num)
        (first_ptr status plans given)
      ++ implement_commands status comp_cyclenum weights (suc i) cs

  implement_loop-insert_all :
      (status : SignalStatus) (comp_cyclenum : ℕ) (weights : Weights) (i : ℕ) (cs : List ℤ)
      (s : State)
      → implement_loop rules status comp_cyclenum weights i cs s
        ≡ insert_all (implement_commands status comp_cyclenum weights i cs) s
  unfolding implement_loop implement_commands insert_compensation_command
  implement_loop-insert_all status n weights i [] s = refl
  implement_loop-insert_all status n weights i (c ∷ cs) s =
      let plans = plans_of status in
      let given = subphase_compensation_time rules.share rules.only plans weights c in
      let first =
        loop_commands (length plans) (leb (n - 1) i) plans given (i % cycle_num)
          (first_ptr status plans given) in
      implement_loop-insert_all status n weights (suc i) cs _
      ∙ ap (insert_all (implement_commands status n weights (suc i) cs)) (
          insert_loop-insert_all (length plans) (leb (n - 1) i) plans given (i % cycle_num)
            (first_ptr status plans given) s)
      ∙ sym (insert_all-append first (implement_commands status n weights (suc i) cs) s)

  module _ (config : Config) (c : CompensationConfig Weights) (d : Day) where
    -- The commands that a compensation inserts.
    pub compensation_commands : State → List TscCommand
    compensation_commands s =
        let total =
          get_total_compensation_second config c.traffic_compensation_baseline s.signal_status d in
        let n = c.traffic_compensation_cycle_number in
        elim (method_weights rules c total s) [
          | none ↦ []
          | some weights ↦
              implement_commands s.signal_status n weights 0
                (take n (get_cycle_compensation_time n total))
        ]

    start_compensation-compensate :
        (s : State) → start_compensation rules config c d s ≡ compensate compensation_commands s
    unfolding start_compensation compensation_commands implement_compensation_by_weight
    start_compensation-compensate s =
        let total =
          get_total_compensation_second config c.traffic_compensation_baseline s.signal_status d in
        elim (Option-cases (method_weights rules c total s)) [
          | inl e ↦ rw (start_compensation, compensation_commands, e) refl
          | inr (w, e) ↦
              rw (start_compensation, compensation_commands, e)
                (ap compensation_buffer_clear (
                  implement_loop-insert_all s.signal_status c.traffic_compensation_cycle_number w 0
                    _ s))
        ]

    start_is : start_compensation rules config c d ≡ compensate compensation_commands
    start_is = λ i s. start_compensation-compensate s i

    -- The poll with the compensation that it starts: in every state that the program comes to while the
    -- subphases are at most 8, and in which a compensation divides by no 0 and stays inside its arrays,
    -- for every method, all weights and their rounding, and every time of the day, the poll comes to an
    -- end, and in such a state again, if the planned green of the running subphase is above 4 seconds.
    pub command_buf_polling-Served :
        (s : State)
        → Served config s
        → CanCompensate c d s
        → 4 < (plan_at s.signal_status s.signal_status.sub_phase_id).pre_green
        → (s' : State) × (command_buf_polling (start_compensation rules config c d) 256 config s
            ≡ some s')
          × Served config s'
    command_buf_polling-Served s r can long =
        rw start_is
          (elim (Option-cases
            (command_buf_polling (compensate compensation_commands) 256 config s)) [
              | inl e ↦ absurd (
                  Reachable-poll_ends config compensation_commands s (Served-Reachable config r)
                    long e)
              | inr (s', e) ↦
                  let phase = (poll-Phases config compensation_commands 256 s s' e).0 in
                  (
                    s',
                    e,
                    goes_on r (step_poll compensation_commands 256 e)
                        (omega (arith, phase, can.running_in, can.few)),
                  )
            ])
