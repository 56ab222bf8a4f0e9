-- ===== src/Status/Readers.antt =====
-- The readers of the signal status (src/traffic_signal_status_updating.c).
use vips_adaptive_traffi.Common.{ℕ, zero, suc, ◌+◌, ◌≤◌, ◌<◌, ◌≡◌, ◌==◌, if◌then◌else◌, ◌-ℤ◌, arith}
use vips_adaptive_traffi.Signal.{SignalStatus, plan_at}
use vips_adaptive_traffi.Compensation.Start.{steps_behind}
use vips_adaptive_traffi.Status.Clock.{
  get_remaining_time, get_next_sub_phase_id, get_prev_sub_phase_id,
}

-- The subphase before the next one is the running one, which is one of the subphases 1 to the last.
get_prev_sub_phase_id-get_next_sub_phase_id :
    (s : SignalStatus)
    → 1 ≤ s.sub_phase_id
    → s.sub_phase_id ≤ s.sub_phase_count
    → s.sub_phase_count < 256
    → get_prev_sub_phase_id (record s { sub_phase_id = get_next_sub_phase_id s }) ≡ s.sub_phase_id
unfolding get_prev_sub_phase_id get_next_sub_phase_id ◌-ℤ◌
get_prev_sub_phase_id-get_next_sub_phase_id s low high small = ground arith

-- The remaining time is that of the steps behind, but for the step of the pedestrians' red, where it
-- counts this red again in place of the yellow. The sum is one of 16 bits, the step one of 1 to 5.
get_remaining_time-steps_behind :
    (s : SignalStatus) (phase step second : ℕ)
    → let p = plan_at s phase in
      1 ≤ step
      → step ≤ 5
      → second + steps_behind 1 p < 65536
      → get_remaining_time s phase step second + (if step == 3 then p.yellow else 0)
        ≡ second + steps_behind step p + (if step == 3 then p.ped_red else 0)
unfolding get_remaining_time
get_remaining_time-steps_behind s phase zero second low high small = absurd (omega arith)
get_remaining_time-steps_behind s phase (suc zero) second low high small = omega (arith, small)
get_remaining_time-steps_behind s phase (suc (suc zero)) second low high small =
    omega (arith, small)
get_remaining_time-steps_behind s phase (suc (suc (suc zero))) second low high small =
    omega (arith, small)
get_remaining_time-steps_behind s phase (suc (suc (suc (suc zero)))) second low high small =
    omega (arith, small)
get_remaining_time-steps_behind s phase (suc (suc (suc (suc (suc zero))))) second low high small =
    omega (arith, small)
get_remaining_time-steps_behind s phase (suc (suc (suc (suc (suc (suc n)))))) second low high
      small =
    absurd (omega arith)
