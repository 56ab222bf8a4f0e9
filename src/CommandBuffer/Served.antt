-- ===== src/CommandBuffer/Served.antt =====
-- The command buffer (src/traffic_signal_command_buffer.c) of a controller whose subphases are numbered
-- up to 8, as the array has room for.
use vips_adaptive_traffi.Common.{
  ℕ, ◌≤◌, ◌≡◌, refl, sym, ap, ◌∙◌, ◌⊎◌, inl, inr, Bool, true, false, some, arith, Bool-cases,
  bind_some, some_inj, ◌>>=◌, if◌then◌else◌, List,
}
use vips_adaptive_traffi.Signal.{Config, TscCommand}
use vips_adaptive_traffi.CommandBuffer.State.{
  State, empty_buf, subphaseid_num, update_cycle_index, command_buf_clear, command_buf_delete_obu,
  set_control_status,
}
use vips_adaptive_traffi.CommandBuffer.Insert.{
  command_buf_insert_adjustment, command_buf_resume_control, adjust_command, resume_command,
}
use vips_adaptive_traffi.CommandBuffer.Polling.{
  command_buf_polling, cross_phase, pretime_step, is_ready, send_step, mark_sent, remember,
}
use vips_adaptive_traffi.CommandBuffer.Once.{pretime_step-SameBuffer, command_buf_send-SameBuffer}
use vips_adaptive_traffi.CommandBuffer.Poll.{send_step-ready, send_step-idle}
use vips_adaptive_traffi.CommandBuffer.Sound.{IsSound}
use vips_adaptive_traffi.CommandBuffer.Reach.{
  compensate, Step, step_insert, step_adjustment, step_resume, step_delete, step_clear, step_cycle,
  step_status, step_poll, Reachable, start, next, Reachable-IsSound,
}
use vips_adaptive_traffi.CommandBuffer.Total.{insert-SameStatus, cross_phase-phases}

-- The operations in any order, while every status has a subphase of 0, which is none, to 8.
pub data Served (config : Config) : State → Type 0 where
  begins :
      {s : State}
      → s.command_buf ≡ empty_buf
      → s.cycle_index ≡ 0
      → s.prior_cycle_index ≡ 0
      → s.prior_sub_phase_id ≤ subphaseid_num
      → s.signal_status.sub_phase_id ≤ subphaseid_num
      → Served config s
  goes_on :
      {s s' : State}
      → Served config s
      → Step config s s'
      → s'.signal_status.sub_phase_id ≤ subphaseid_num
      → Served config s'

module _ (config : Config) where
  pub Served-Reachable : {s : State} → Served config s → Reachable config s
  Served-Reachable (begins {s} e f g p q) = start {s = s} e f g
  Served-Reachable (goes_on r step q) = next (Served-Reachable r) step

  send_step-phase :
      (fuel : ℕ) (s s' : State)
      → send_step fuel config s ≡ some s'
      → s'.signal_status.sub_phase_id ≡ s.signal_status.sub_phase_id
  unfolding mark_sent set_control_status
  send_step-phase fuel s s' e = elim (Bool-cases (is_ready s)) [
    | inl ready ↦
        let (s1, sent, same) = bind_some _ _ (sym (send_step-ready fuel config s ready) ∙ e) in
        let marked : mark_sent s1 ≡ s' = some_inj same in
        ap (λ t. t.signal_status.sub_phase_id) (sym marked)
        ∙ ap (λ t. t.sub_phase_id)
            (command_buf_send-SameBuffer fuel config _ _ s s1 sent).status_kept
    | inr idle ↦
        ap (λ t. t.signal_status.sub_phase_id)
          (sym (some_inj (sym (send_step-idle fuel config s idle) ∙ e)))
  ]

  -- What a poll makes of the running and the prior subphase.
  abbrev Phases : State → State → Type 0
  Phases s s' =
      (s'.signal_status.sub_phase_id ≡ s.signal_status.sub_phase_id)
      × ((s'.prior_sub_phase_id ≡ s.prior_sub_phase_id)
          ⊎ (s'.prior_sub_phase_id ≡ s.signal_status.sub_phase_id))

  finished-Phases :
      (fuel : ℕ) (s t s' : State)
      → (send_step fuel config (pretime_step t) >>= λ s2.
          some (remember (record s2 { prior_cycle_index = s2.cycle_index })))
        ≡ some s'
      → t.signal_status.sub_phase_id ≡ s.signal_status.sub_phase_id
      → Phases s s'
  unfolding remember
  finished-Phases fuel s t s' e same =
      let (s2, sent, is) = bind_some _ _ e in
      let phase =
        send_step-phase fuel (pretime_step t) s2 sent
        ∙ (ap (λ u. u.sub_phase_id) (pretime_step-SameBuffer t).status_kept ∙ same) in
      rw (← some_inj is) (phase, inr phase)

  poll_with-Phases :
      (off new changed : Bool) (commands : State → List TscCommand) (fuel : ℕ) (s s' : State)
      → (if off
          then some s
          else if new
          then some (remember s)
          else (send_step fuel config
                (pretime_step (if changed then cross_phase (compensate commands) s else s))
              >>= λ s2. some (remember (record s2 { prior_cycle_index = s2.cycle_index }))))
        ≡ some s'
      → Phases s s'
  unfolding remember
  poll_with-Phases true new changed commands fuel s s' e = rw (← some_inj e) (refl, inl refl)
  poll_with-Phases false true changed commands fuel s s' e = rw (← some_inj e) (refl, inr refl)
  poll_with-Phases false false true commands fuel s s' e =
      finished-Phases fuel s _ s' e (cross_phase-phases commands s).1
  poll_with-Phases false false false commands fuel s s' e = finished-Phases fuel s s s' e refl

  pub poll-Phases :
      (commands : State → List TscCommand) (fuel : ℕ) (s s' : State)
      → command_buf_polling (compensate commands) fuel config s ≡ some s'
      → Phases s s'
  unfolding command_buf_polling
  poll-Phases commands fuel s s' e = poll_with-Phases _ _ _ commands fuel s s' e

  adjustment-prior :
      (c : TscCommand) (s : State)
      → (command_buf_insert_adjustment config c s).1.prior_sub_phase_id ≡ s.prior_sub_phase_id
  unfolding command_buf_insert_adjustment
  adjustment-prior c s = ground (arith, insert-SameStatus (adjust_command config c s) s)

  resume-prior :
      (appid : ℕ) (s : State)
      → (command_buf_resume_control config appid s).1.prior_sub_phase_id ≡ s.prior_sub_phase_id
  unfolding command_buf_resume_control
  resume-prior appid s = ground (arith, insert-SameStatus (resume_command s) s)

  Step-prior :
      {s s' : State}
      → Step config s s'
      → (s'.prior_sub_phase_id ≡ s.prior_sub_phase_id)
        ⊎ (s'.prior_sub_phase_id ≡ s'.signal_status.sub_phase_id)
  unfolding command_buf_clear update_cycle_index command_buf_delete_obu
  Step-prior (step_insert {s} c) = inl (insert-SameStatus c s).prior_kept
  Step-prior (step_adjustment {s} c) = inl (adjustment-prior c s)
  Step-prior (step_resume {s} appid) = inl (resume-prior appid s)
  Step-prior (step_delete {s} name) = inl refl
  Step-prior step_clear = inl refl
  Step-prior (step_cycle {s}) = inl refl
  Step-prior (step_status t) = inl refl
  Step-prior (step_poll {s} {s'} commands fuel e) =
      let (phase, prior) = poll-Phases commands fuel s s' e in
      elim prior [ inl same ↦ inl same | inr running ↦ inr (running ∙ sym phase) ]

-- A sound buffer, and numbers of the running and the prior subphase that the array has room for.
pub record IsSafe (s : State) : Type 0 where
  pub sound : IsSound s
  pub phase_in : s.signal_status.sub_phase_id ≤ subphaseid_num
  pub prior_phase_in : s.prior_sub_phase_id ≤ subphaseid_num

module _ (config : Config) where
  -- As long as the controller's statuses have a subphase from 0, which is none, to 8, every state that
  -- the program comes to, whatever the order of its operations, is safe: the array has three cycles of
  -- eight subphases, every time in it is a byte, both cycle indices are below 3, and neither the
  -- running nor the prior subphase, whose objects the poll changes unless they are 0, is above 8.
  pub Served-IsSafe : {s : State} → Served config s → IsSafe s
  Served-IsSafe (begins {s} e f g p q) = record {
    sound = Reachable-IsSound config (start {s = s} e f g);
    phase_in = q;
    prior_phase_in = p;
  }
  Served-IsSafe (goes_on r step q) = record {
    sound = Reachable-IsSound config (next (Served-Reachable config r) step);
    phase_in = q;
    prior_phase_in = elim (Step-prior config step) [
      | inl same ↦ omega (arith, same, (Served-IsSafe r).prior_phase_in)
      | inr running ↦ omega (arith, running, q)
    ];
  }
