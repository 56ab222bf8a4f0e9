-- ===== src/CommandBuffer/Tests.antt =====
-- The properties of an insertion at the sample crossing.
use vips_adaptive_traffi.Common.{◌+◌, ◌≤◌, ◌≡◌, ◌≢◌, ◌↔◌, refl, arith, bytes_eq}
use vips_adaptive_traffi.Signal.{plan_at, TscCommand}
use vips_adaptive_traffi.CommandBuffer.State.{object_at, cycle_of}
use vips_adaptive_traffi.CommandBuffer.Slots.{empty_buf-IsShaped}
use vips_adaptive_traffi.CommandBuffer.Insert.{
  insert_accept, validate, clamp_command, command_buf_insert_effect_time, insert_valid, decide,
  command_buf_resume_control,
}
use vips_adaptive_traffi.CommandBuffer.Outcome.{Inserted, insert_accepted}
use vips_adaptive_traffi.CommandBuffer.Accept.{
  IsValidCommand, NoEffect, MayReplace, insert_accept_iff, insert_refused_unchanged,
}
use vips_adaptive_traffi.CommandBuffer.Green.{IsBytePlan, inserted_green_bounds}
use vips_adaptive_traffi.CommandBuffer.Resume.{IsAppCommand, resume_keeps_app_command}
use vips_adaptive_traffi.CommandBuffer.Sample.{
  sample_plan, sample_status, idle_state, bus_command, bus_object, ready_state, sample_config,
}

insert_accept_iff_example :
    ((command_buf_insert_effect_time bus_command idle_state).0 ≡ insert_accept) ↔ (
      IsValidCommand bus_command
      × MayReplace
          (object_at idle_state.command_buf (cycle_of idle_state bus_command.cycle) 1)
          (clamp_command bus_command idle_state)
          (plan_at sample_status 1).pre_time_compensated)
insert_accept_iff_example = insert_accept_iff bus_command idle_state

bus_accepted : (command_buf_insert_effect_time bus_command idle_state).0 ≡ insert_accept
unfolding command_buf_insert_effect_time validate insert_valid decide clamp_command
bus_accepted = refl

insert_accepted_example :
    Inserted bus_command idle_state (command_buf_insert_effect_time bus_command idle_state).1
insert_accepted_example = insert_accepted bus_command idle_state empty_buf-IsShaped bus_accepted

abbrev late_command : TscCommand
late_command = record bus_command { cycle = 3 }

late_refused : (command_buf_insert_effect_time late_command idle_state).0 ≢ insert_accept
unfolding command_buf_insert_effect_time validate
late_refused h = cc

insert_refused_unchanged_example : NoEffect late_command idle_state
insert_refused_unchanged_example = insert_refused_unchanged late_command idle_state late_refused

sample_plan-IsBytePlan : IsBytePlan sample_plan
sample_plan-IsBytePlan = omega arith

inserted_green_bounds_example :
    let s' = (command_buf_insert_effect_time bus_command idle_state).1 in
    let t = (object_at s'.command_buf 0 1).effect_time in (10 ≤ t + 8) × (t + 8 ≤ 60)
inserted_green_bounds_example =
    inserted_green_bounds bus_command idle_state empty_buf-IsShaped sample_plan-IsBytePlan
      bus_accepted

bus_object-IsAppCommand : IsAppCommand bus_object
unfolding bytes_eq
bus_object-IsAppCommand = record { in_use = omega arith; not_99 = omega arith; not_resume = refl }

resume_keeps_app_command_example :
    ((command_buf_resume_control (sample_config 1) 2 ready_state).0 ≢ insert_accept)
    × ((command_buf_resume_control (sample_config 1) 2 ready_state).1 ≡ ready_state)
resume_keeps_app_command_example =
    resume_keeps_app_command (sample_config 1) 2 ready_state bus_object-IsAppCommand
