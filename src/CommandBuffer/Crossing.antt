-- ===== src/CommandBuffer/Crossing.antt =====
-- What a poll does at a change of subphase (src/traffic_signal_command_buffer.c,
-- `command_buf_polling`).
use vips_adaptive_traffi.Common.{
  ℕ, ◌<◌, ◌≡◌, ◌≢◌, refl, sym, ap, ◌∙◌, false, some, arith, inr, List, u8, strncmp_eq,
}
use vips_adaptive_traffi.Signal.{CommandObject, Config, zero_object}
use vips_adaptive_traffi.CommandBuffer.State.{
  State, object_at, set_object, set_control_status, resume_id,
}
use vips_adaptive_traffi.CommandBuffer.Slots.{
  IsShaped, InRange, set_object-IsShaped, object_at-set_object_self, object_at-set_object_ne,
}
use vips_adaptive_traffi.CommandBuffer.Polling.{
  current_object, remember, cross_phase, pretime_step, is_ready, command_buf_polling,
}
use vips_adaptive_traffi.CommandBuffer.Once.{pretime_step-SameBuffer}
use vips_adaptive_traffi.CommandBuffer.Poll.{is_ready-same, send_step-idle}

-- The buffer when the subphase has changed.
abbrev crossed_buf : State → List (List CommandObject)
crossed_buf s =
    let b = set_object s.command_buf s.prior_cycle_index s.prior_sub_phase_id zero_object in
    let o = object_at b s.cycle_index s.signal_status.sub_phase_id in
    set_object b s.cycle_index s.signal_status.sub_phase_id
      (record o { adjusted_time = u8 s.signal_status.step_sec })

abbrev crossed : State → State
crossed s = record s {
  command_buf = crossed_buf s;
  signal_status = record (s.signal_status) { control_status = 0 };
}

cross_phase-crossed :
    (comp : State → State) (s : State)
    → strncmp_eq
        (object_at s.command_buf s.prior_cycle_index s.prior_sub_phase_id).host_obu_name
        resume_id
        6
      ≡ false
    → cross_phase comp s ≡ crossed s
unfolding cross_phase set_control_status
cross_phase-crossed comp s e = rw e refl

crossed-not_ready :
    (s : State) → s.prior_sub_phase_id ≢ s.signal_status.sub_phase_id → is_ready (crossed s) ≡ false
unfolding is_ready
crossed-not_ready s h = ground arith

-- A poll after a change of subphase.
poll_crossed :
    (comp : State → State) (fuel : ℕ) (config : Config) (s : State)
    → 0 < s.signal_status.sub_phase_id
    → 0 < s.prior_sub_phase_id
    → s.prior_sub_phase_id ≢ s.signal_status.sub_phase_id
    → cross_phase comp s ≡ crossed s
    → command_buf_polling comp fuel config s
      ≡ some (
          remember (record (pretime_step (crossed s)) {
            prior_cycle_index = (pretime_step (crossed s)).cycle_index;
          }))
unfolding command_buf_polling
poll_crossed comp fuel config s h k ne e =
    let same = pretime_step-SameBuffer (crossed s) in
    let idle =
      send_step-idle fuel config (pretime_step (crossed s))
        (is_ready-same same ∙ crossed-not_ready s ne) in
    ground (arith, e, idle)

pretime_step-calls : (s : State) → (pretime_step s).calls ≡ s.calls
unfolding pretime_step
pretime_step-calls s = ground arith

pretime_step-tx : (s : State) → s.signal_status.step_id ≢ 4 → (pretime_step s).tx ≡ s.tx
unfolding pretime_step
pretime_step-tx s h = ground arith

-- The subphase has changed and the last one held no resume, in an array of the right shape with
-- both subphases in range: the poll ends, for every fuel; the object of the last subphase is
-- cleared, that of the new one keeps its command and has the running second as its adjusted time,
-- no application is in control, and nothing is sent: no application is called, and outside step 4
-- there is no request. The subphase and the cycle index are remembered.
pub poll_crossing :
    (comp : State → State) (fuel : ℕ) (config : Config) (s : State)
    → IsShaped s.command_buf
    → InRange s.cycle_index s.signal_status.sub_phase_id
    → InRange s.prior_cycle_index s.prior_sub_phase_id
    → s.prior_sub_phase_id ≢ s.signal_status.sub_phase_id
    → strncmp_eq
        (object_at s.command_buf s.prior_cycle_index s.prior_sub_phase_id).host_obu_name
        resume_id
        6
      ≡ false
    → (s' : State) × (command_buf_polling comp fuel config s ≡ some s')
      × (object_at s'.command_buf s.prior_cycle_index s.prior_sub_phase_id ≡ zero_object)
      × (current_object s'
          ≡ record (current_object s) { adjusted_time = u8 s.signal_status.step_sec })
      × (s'.signal_status.control_status ≡ 0)
      × (s'.calls ≡ s.calls)
      × (s.signal_status.step_id ≢ 4 → s'.tx ≡ s.tx)
      × (s'.prior_sub_phase_id ≡ s.signal_status.sub_phase_id)
      × (s'.prior_cycle_index ≡ s.cycle_index)
unfolding remember
poll_crossing comp fuel config s shaped range prior ne no_resume =
    let polled =
      poll_crossed comp fuel config s range.phase_pos prior.phase_pos ne
        (cross_phase-crossed comp s no_resume) in
    let same = pretime_step-SameBuffer (crossed s) in
    let shaped1 = set_object-IsShaped s.prior_cycle_index s.prior_sub_phase_id zero_object shaped in
    let kept =
      object_at-set_object_ne s.prior_cycle_index s.prior_sub_phase_id zero_object s.cycle_index
        s.signal_status.sub_phase_id shaped prior (inr ne) in
    let read1 =
      object_at-set_object_self s.prior_cycle_index s.prior_sub_phase_id zero_object shaped prior in
    let read2 =
      object_at-set_object_self s.cycle_index s.signal_status.sub_phase_id o shaped1 range in
    let other =
      object_at-set_object_ne s.cycle_index s.signal_status.sub_phase_id o s.prior_cycle_index
        s.prior_sub_phase_id shaped1 range (inr (λ e. ne (sym e))) in
    (
      _,
      polled,
      ap (λ b. object_at b s.prior_cycle_index s.prior_sub_phase_id) same.buf_kept ∙ other ∙ read1,
      rw (same.buf_kept, same.index_kept, same.status_kept)
          (read2
            ∙ ap (λ (q : CommandObject). record q { adjusted_time = u8 s.signal_status.step_sec })
                kept),
      ap (λ t. t.control_status) same.status_kept,
      pretime_step-calls (crossed s),
      pretime_step-tx (crossed s),
      ap (λ t. t.sub_phase_id) same.status_kept,
      same.index_kept,
    )
  where
    o : CommandObject
    o =
        record (object_at
          (set_object s.command_buf s.prior_cycle_index s.prior_sub_phase_id zero_object)
          s.cycle_index s.signal_status.sub_phase_id) {
            adjusted_time = u8 s.signal_status.step_sec;
          }
