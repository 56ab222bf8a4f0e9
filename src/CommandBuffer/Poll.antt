-- ===== src/CommandBuffer/Poll.antt =====
-- What one poll, and the next, do (src/traffic_signal_command_buffer.c, `command_buf_polling`).
use vips_adaptive_traffi.Common.{
  ℕ, ◌<◌, ◌≡◌, ◌≢◌, refl, sym, ap, ◌∙◌, true, false, Option, some, none, arith, ◌>>=◌, Option-cases,
  inl, inr, some_inj,
}
use vips_adaptive_traffi.Signal.{Config}
use vips_adaptive_traffi.CommandBuffer.State.{State, set_control_status}
use vips_adaptive_traffi.CommandBuffer.Slots.{IsShaped, InRange}
use vips_adaptive_traffi.CommandBuffer.Send.{command_buf_send}
use vips_adaptive_traffi.CommandBuffer.Polling.{
  current_object, remember, pretime_step, is_ready, mark_sent, send_step, command_buf_polling,
}
use vips_adaptive_traffi.CommandBuffer.Once.{
  SameBuffer, SameBuffer-trans, pretime_step-SameBuffer, command_buf_send-SameBuffer, IsSent,
  mark_sent-IsSent,
}

-- The running subphase is in range and is the one of the last poll.
pub record IsSteady (s : State) : Type 0 where
  pub shaped : IsShaped s.command_buf
  pub range : InRange s.cycle_index s.signal_status.sub_phase_id
  pub phase_kept : s.prior_sub_phase_id ≡ s.signal_status.sub_phase_id

-- A poll in the middle of a subphase is its step 4 test, then the sending.
poll_steady :
    (comp : State → State) (fuel : ℕ) (config : Config) (s : State)
    → s.prior_sub_phase_id ≡ s.signal_status.sub_phase_id
    → 0 < s.signal_status.sub_phase_id
    → command_buf_polling comp fuel config s ≡ (
        send_step fuel config (pretime_step s) >>= λ s2.
        some (remember (record s2 { prior_cycle_index = s2.cycle_index })))
unfolding command_buf_polling
poll_steady comp fuel config s e h = ground (arith, e, h)

pub is_ready-same : {s s' : State} → SameBuffer s s' → is_ready s' ≡ is_ready s
unfolding is_ready
is_ready-same same =
    rw (same.buf_kept, same.index_kept, same.status_kept, same.prior_phase_kept) refl

pub send_step-ready :
    (fuel : ℕ) (config : Config) (s : State)
    → is_ready s ≡ true
    → send_step fuel config s ≡ (
        command_buf_send fuel config (current_object s) s.signal_status.sub_phase_id s >>= λ s'.
        some (mark_sent s'))
unfolding send_step
send_step-ready fuel config s e = rw e refl

pub send_step-idle :
    (fuel : ℕ) (config : Config) (s : State) → is_ready s ≡ false → send_step fuel config s ≡ some s
unfolding send_step
send_step-idle fuel config s e = rw e refl

none_ne : {s : State} → none ≢ some s
none_ne h = cc

-- What a poll that finds a command ready ends with.
sent_from :
    (comp : State → State) (fuel : ℕ) (config : Config) (s s' : State)
    → IsSteady s
    → is_ready s ≡ true
    → command_buf_polling comp fuel config s ≡ some s'
    → (s2 : State) × SameBuffer s s2
      × (s' ≡ remember (record (mark_sent s2) { prior_cycle_index = s2.cycle_index }))
unfolding mark_sent set_control_status
sent_from comp fuel config s s' steady ready h =
    let same = pretime_step-SameBuffer s in
    let step = send_step-ready fuel config (pretime_step s) (is_ready-same same ∙ ready) in
    let run = sym (poll_steady comp fuel config s steady.phase_kept steady.range.phase_pos) ∙ h in
    elim (Option-cases (send (pretime_step s))) [
      | inl e ↦
          let none_run =
            ap (λ r. r >>= finish) (step ∙ ap (λ r. r >>= λ s1. some (mark_sent s1)) e) in
          absurd (none_ne (sym none_run ∙ run))
      | inr (s2, e) ↦
          let some_run =
            ap (λ r. r >>= finish) (step ∙ ap (λ r. r >>= λ s1. some (mark_sent s1)) e) in
          (
            s2,
            SameBuffer-trans same
                (command_buf_send-SameBuffer fuel config _ _ (pretime_step s) s2 e),
            some_inj (sym run ∙ some_run),
          )
    ]
  where
    send : State → Option State
    send r = command_buf_send fuel config (current_object r) r.signal_status.sub_phase_id r

    finish : State → Option State
    finish s2 = some (remember (record s2 { prior_cycle_index = s2.cycle_index }))

-- A poll in the middle of a subphase, in range and in an array of the right shape, that finds a
-- command ready and ends has sent it: the object is marked as sent with its effect time as the
-- adjusted time, its application is in control, and every other object is what it was.
pub poll_ready-IsSent :
    (comp : State → State) (fuel : ℕ) (config : Config) (s s' : State)
    → IsSteady s
    → is_ready s ≡ true
    → command_buf_polling comp fuel config s ≡ some s'
    → IsSent s s'
poll_ready-IsSent comp fuel config s s' steady ready h =
    let (s2, same, e) = sent_from comp fuel config s s' steady ready h in
    rw e (mark_sent-IsSent s s2 steady.shaped steady.range same)

-- A poll with no command ready sends nothing: it ends at once, for every fuel, and all that it does
-- is the test of step 4 and to remember the status.
pub poll_not_ready :
    (comp : State → State) (fuel : ℕ) (config : Config) (s : State)
    → s.prior_sub_phase_id ≡ s.signal_status.sub_phase_id
    → 0 < s.signal_status.sub_phase_id
    → is_ready s ≡ false
    → command_buf_polling comp fuel config s
      ≡ some (remember (record (pretime_step s) { prior_cycle_index = s.cycle_index }))
unfolding pretime_step
poll_not_ready comp fuel config s e h ready =
    let same = pretime_step-SameBuffer s in
    rw
      (
        poll_steady comp fuel config s e h,
        send_step-idle fuel config (pretime_step s) (is_ready-same same ∙ ready),
      )
      (ap (λ i. some (remember (record (pretime_step s) { prior_cycle_index = i })))
        same.index_kept)

ready-step : (s : State) → is_ready s ≡ true → s.signal_status.step_id ≡ 1
unfolding is_ready
ready-step s h = ground arith

sent-not_ready : (s s' : State) → IsSent s s' → is_ready s' ≡ false
unfolding is_ready
sent-not_ready s s' sent = ground (arith, ap (λ o. o.send_flag) sent.object_sent)

-- A command is sent once: if a poll in the middle of a subphase, in range and in an array of the
-- right shape, finds it ready and ends, the next poll at the same status ends for every fuel and
-- makes no request to the controller, calls no application and changes no object.
pub poll_sends_once :
    (comp : State → State) (fuel fuel' : ℕ) (config : Config) (s s' : State)
    → IsSteady s
    → is_ready s ≡ true
    → command_buf_polling comp fuel config s ≡ some s'
    → (s'' : State) × (command_buf_polling comp fuel' config s' ≡ some s'')
      × (s''.tx ≡ s'.tx)
      × (s''.calls ≡ s'.calls)
      × (s''.command_buf ≡ s'.command_buf)
unfolding remember pretime_step
poll_sends_once comp fuel fuel' config s s' steady ready h =
    let sent = poll_ready-IsSent comp fuel config s s' steady ready h in
    let idle = sent-not_ready s s' sent in
    let steps = sent.step_same ∙ ready-step s ready in
    let again =
      poll_not_ready comp fuel' config s' (sent.prior_now ∙ sym sent.phase_same)
        (omega (arith, sent.phase_same, steady.range.phase_pos)) idle in
    (_, again, rw steps refl, rw steps refl, rw steps refl)
