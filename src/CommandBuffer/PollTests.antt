-- ===== src/CommandBuffer/PollTests.antt =====
-- The properties of a send and of a poll at the sample crossing.
use vips_adaptive_traffi.Common.{
  ap, List, ◌≡◌, ◌≢◌, refl, true, false, some, none, [], arith, negsuc, strncmp_eq, bytes_eq,
}
use vips_adaptive_traffi.Signal.{TscCommand, zero_object, cheng_long, shan_zhu}
use vips_adaptive_traffi.CommandBuffer.State.{State, object_at, resume_id}
use vips_adaptive_traffi.CommandBuffer.Insert.{command_buf_insert_effect_time, is_in_compensation}
use vips_adaptive_traffi.CommandBuffer.Send.{command_buf_send, is_held_back, extend_loop}
use vips_adaptive_traffi.Serial.Tx.{tsc_extend}
use vips_adaptive_traffi.CommandBuffer.Loop.{extend_loop-never}
use vips_adaptive_traffi.CommandBuffer.Polling.{
  current_object, command_buf_polling, is_ready, pretime_step, send_step,
}
use vips_adaptive_traffi.CommandBuffer.Poll.{IsSteady, poll_sends_once}
use vips_adaptive_traffi.CommandBuffer.Crossing.{poll_crossing}
use vips_adaptive_traffi.CommandBuffer.Total.{insert-SameStatus}
use vips_adaptive_traffi.CommandBuffer.Served.{Served, begins, goes_on, IsSafe, Served-IsSafe}
use vips_adaptive_traffi.CommandBuffer.Reach.{compensate, Reachable, start, next, step_insert}
use vips_adaptive_traffi.CommandBuffer.Total.{Reachable-poll_ends}
use vips_adaptive_traffi.CommandBuffer.Sample.{
  sample_status, idle_state, bus_command, bus_object, ready_state, sample_config,
  ready_buf-IsShaped,
}

extend_loop-never_example :
    (extend_loop 1001 1 4 (negsuc 6) idle_state.tx
      ≡ extend_loop 1000 1 4 (negsuc 6) (tsc_extend 1 1 1 idle_state.tx).1)
    × (extend_loop 1000 1 4 (negsuc 6) idle_state.tx ≡ none)
extend_loop-never_example = extend_loop-never 1000 1 6 idle_state.tx (omega arith)

ready_state-IsSteady : IsSteady ready_state
ready_state-IsSteady = record {
  shaped = ready_buf-IsShaped;
  range = omega arith;
  phase_kept = refl;
}

ready_state-ready : is_ready ready_state ≡ true
unfolding is_ready
ready_state-ready = refl

-- The state that a poll with the controller of SHAN_ZHU ends with.
abbrev polled_state : State
polled_state = elim (command_buf_polling (λ s. s) 256 (sample_config shan_zhu) ready_state) [
  | none ↦ idle_state
  | some s ↦ s
]

poll_ends :
    command_buf_polling (λ s. s) 256 (sample_config shan_zhu) ready_state ≡ some polled_state
unfolding command_buf_polling send_step is_ready pretime_step command_buf_send is_held_back
    is_in_compensation
poll_ends = refl

poll_sends_once_example :
    (s'' : State) × (command_buf_polling (λ s. s) 0 (sample_config shan_zhu) polled_state
      ≡ some s'')
    × (s''.tx ≡ polled_state.tx)
    × (s''.calls ≡ polled_state.calls)
    × (s''.command_buf ≡ polled_state.command_buf)
poll_sends_once_example =
    poll_sends_once (λ s. s) 256 0 (sample_config shan_zhu) ready_state polled_state
      ready_state-IsSteady ready_state-ready poll_ends

-- The second subphase has begun.
abbrev next_state : State
next_state = record ready_state {
  signal_status = record sample_status { sub_phase_id = 2; step_sec = 30 };
}

no_resume : strncmp_eq bus_object.host_obu_name resume_id 6 ≡ false
unfolding bytes_eq
no_resume = refl

poll_crossing_example :
    (s' : State) × (command_buf_polling (λ s. s) 0 (sample_config shan_zhu) next_state ≡ some s')
    × (object_at s'.command_buf 0 1 ≡ zero_object)
    × (current_object s' ≡ record zero_object { adjusted_time = 30 })
    × (s'.signal_status.control_status ≡ 0)
    × (s'.calls ≡ [])
    × (next_state.signal_status.step_id ≢ 4 → s'.tx ≡ next_state.tx)
    × (s'.prior_sub_phase_id ≡ 2)
    × (s'.prior_cycle_index ≡ 0)
poll_crossing_example =
    poll_crossing (λ s. s) 0 (sample_config shan_zhu) next_state ready_buf-IsShaped (omega arith)
      (omega arith) (omega arith) no_resume

abbrev no_commands : State → List TscCommand
no_commands s = []

-- The program has started, and the bus has asked for a longer green.
abbrev bus_state : State
bus_state = (command_buf_insert_effect_time bus_command idle_state).1

bus_state-Reachable : Reachable (sample_config cheng_long) bus_state
bus_state-Reachable = next (start {s = idle_state} refl refl refl) (step_insert bus_command)

bus_state-Served : Served (sample_config cheng_long) bus_state
bus_state-Served =
    goes_on (begins {s = idle_state} refl refl refl (omega arith) (omega arith))
      (step_insert bus_command)
      (omega
        (arith, ap (λ t. t.sub_phase_id) (insert-SameStatus bus_command idle_state).status_kept))

Served-IsSafe_example : IsSafe bus_state
Served-IsSafe_example = Served-IsSafe (sample_config cheng_long) bus_state-Served

idle_state-Reachable : Reachable (sample_config cheng_long) idle_state
idle_state-Reachable = start refl refl refl

Reachable-poll_ends_example :
    command_buf_polling (compensate no_commands) 256 (sample_config cheng_long) idle_state ≢ none
Reachable-poll_ends_example =
    Reachable-poll_ends (sample_config cheng_long) no_commands idle_state idle_state-Reachable
      (omega arith)
