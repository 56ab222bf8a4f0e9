-- ===== src/CommandBuffer/Once.antt =====
-- How often a poll sends (src/traffic_signal_command_buffer.c, `command_buf_polling`).
use vips_adaptive_traffi.Common.{
  ℕ, zero, suc, ◌≡◌, ◌≢◌, refl, ◌∙◌, true, some, arith, Option-cases, inl, inr, ◌⊎◌,
}
use vips_adaptive_traffi.Signal.{CommandObject, Config}
use vips_adaptive_traffi.Serial.Tx.{tsc_5F4C, tsc_dynamic}
use vips_adaptive_traffi.CommandBuffer.State.{
  State, object_at, set_control_status, set_compensation_buffer,
}
use vips_adaptive_traffi.CommandBuffer.Slots.{
  IsShaped, InRange, object_at-set_object_self, object_at-set_object_ne,
}
use vips_adaptive_traffi.CommandBuffer.Send.{
  request_tc, command_buf_send, after_send, send_cheng_long, send_shan_zhu, countdown_off,
}
use vips_adaptive_traffi.CommandBuffer.Polling.{current_object, remember, pretime_step, mark_sent}

-- What a request to the controller cannot change.
pub record SameBuffer (s s' : State) : Type 0 where
  pub buf_kept : s'.command_buf ≡ s.command_buf
  pub index_kept : s'.cycle_index ≡ s.cycle_index
  pub status_kept : s'.signal_status ≡ s.signal_status
  pub prior_phase_kept : s'.prior_sub_phase_id ≡ s.prior_sub_phase_id
  pub prior_index_kept : s'.prior_cycle_index ≡ s.prior_cycle_index

countdown_off-SameBuffer : (config : Config) (s : State) → SameBuffer s (countdown_off config s)
unfolding countdown_off
countdown_off-SameBuffer config s = ground arith

set_compensation_buffer-SameBuffer :
    (phase : ℕ) (s : State) → SameBuffer s (set_compensation_buffer phase s)
unfolding set_compensation_buffer
set_compensation_buffer-SameBuffer zero s = ground arith
set_compensation_buffer-SameBuffer (suc i) s = ground arith

pub SameBuffer-trans : {r s t : State} → SameBuffer r s → SameBuffer s t → SameBuffer r t
SameBuffer-trans a b = record {
  buf_kept = b.buf_kept ∙ a.buf_kept;
  index_kept = b.index_kept ∙ a.index_kept;
  status_kept = b.status_kept ∙ a.status_kept;
  prior_phase_kept = b.prior_phase_kept ∙ a.prior_phase_kept;
  prior_index_kept = b.prior_index_kept ∙ a.prior_index_kept;
}

after_send-SameBuffer :
    (config : Config) (o : CommandObject) (phase : ℕ) (s : State)
    → SameBuffer s (after_send config o phase s)
unfolding after_send
after_send-SameBuffer config o phase s =
    ground (arith, set_compensation_buffer-SameBuffer phase (request_tc tsc_5F4C s))

pub pretime_step-SameBuffer : (s : State) → SameBuffer s (pretime_step s)
unfolding pretime_step
pretime_step-SameBuffer s = ground arith

send_shan_zhu-SameBuffer :
    (config : Config) (o : CommandObject) (phase : ℕ) (s : State)
    → SameBuffer s (send_shan_zhu config o phase s)
unfolding send_shan_zhu
send_shan_zhu-SameBuffer config o phase s =
    ground (arith, countdown_off-SameBuffer config (request_tc tsc_dynamic s))

send_cheng_long-SameBuffer :
    (fuel : ℕ) (config : Config) (o : CommandObject) (phase : ℕ) (s s' : State)
    → send_cheng_long fuel config o phase s ≡ some s'
    → SameBuffer s s'
unfolding send_cheng_long
send_cheng_long-SameBuffer fuel config o phase s s' h =
    ground (arith, countdown_off-SameBuffer config (request_tc tsc_dynamic s))

-- A send changes neither the buffer nor the signal status.
pub command_buf_send-SameBuffer :
    (fuel : ℕ) (config : Config) (o : CommandObject) (phase : ℕ) (s s' : State)
    → command_buf_send fuel config o phase s ≡ some s'
    → SameBuffer s s'
unfolding command_buf_send
command_buf_send-SameBuffer fuel config o phase s s' h =
    elim (Option-cases (send_cheng_long fuel config o phase s)) [
      | inl e ↦ ground (
        arith,
        e,
        send_shan_zhu-SameBuffer config o phase s,
        after_send-SameBuffer config o phase (send_shan_zhu config o phase s),
      )
      | inr (s1, e) ↦ ground (
        arith,
        e,
        send_cheng_long-SameBuffer fuel config o phase s s1 e,
        after_send-SameBuffer config o phase s1,
        send_shan_zhu-SameBuffer config o phase s,
        after_send-SameBuffer config o phase (send_shan_zhu config o phase s),
      )
    ]

-- The poll has given the running subphase's object to the controller.
pub record IsSent (s s' : State) : Type 0 where
  pub object_sent : current_object s' ≡ record (current_object s) {
    send_flag = true;
    adjusted_time = (current_object s).effect_time;
  }
  pub app_in_control : s'.signal_status.control_status ≡ (current_object s).app_id
  pub phase_same : s'.signal_status.sub_phase_id ≡ s.signal_status.sub_phase_id
  pub step_same : s'.signal_status.step_id ≡ s.signal_status.step_id
  pub index_same : s'.cycle_index ≡ s.cycle_index
  pub prior_now : s'.prior_sub_phase_id ≡ s.signal_status.sub_phase_id
  pub others_same :
      (i p : ℕ)
      → (s.cycle_index ≢ i) ⊎ (s.signal_status.sub_phase_id ≢ p)
      → object_at s'.command_buf i p ≡ object_at s.command_buf i p

pub mark_sent-IsSent :
    (s s1 : State)
    → IsShaped s.command_buf
    → InRange s.cycle_index s.signal_status.sub_phase_id
    → SameBuffer s s1
    → IsSent s (remember (record (mark_sent s1) { prior_cycle_index = s1.cycle_index }))
unfolding mark_sent remember set_control_status
mark_sent-IsSent s s1 shaped range same =
    let o' = record o { send_flag = true; adjusted_time = o.effect_time } in
    let read = object_at-set_object_self i phase o' shaped range in
    let ne = object_at-set_object_ne i phase o' in
    rw (same.buf_kept, same.index_kept, same.status_kept)
      record {
        object_sent = read;
        app_in_control = refl;
        phase_same = refl;
        step_same = refl;
        index_same = refl;
        prior_now = refl;
        others_same = λ j p d. ne j p shaped range d;
      }
  where
    i : ℕ
    i = s.cycle_index

    phase : ℕ
    phase = s.signal_status.sub_phase_id

    o : CommandObject
    o = current_object s
