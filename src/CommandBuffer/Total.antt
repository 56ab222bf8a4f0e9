-- ===== src/CommandBuffer/Total.antt =====
-- Every poll comes to an end (src/traffic_signal_command_buffer.c, `command_buf_polling`).
use vips_adaptive_traffi.Common.{
  ◌<◌, ◌≡◌, ◌≢◌, refl, sym, ap, ◌∙◌, inl, inr, Bool, true, false, some, none, List, [], ◌∷◌, arith,
  Option-cases, Bool-cases, strncmp_eq, ◌==◌, bind_ends, ◌>>=◌, if◌then◌else◌, not,
}
use vips_adaptive_traffi.Signal.{TscCommand, Config, plan_at}
use vips_adaptive_traffi.CommandBuffer.State.{
  State, object_at, resume_id, set_control_status, compensation_buffer_clear,
}
use vips_adaptive_traffi.CommandBuffer.Insert.{
  command_buf_insert_effect_time, insert_valid, grant, clamp_command, validate,
}
use vips_adaptive_traffi.CommandBuffer.Accept.{insert_of_valid, insert_of_invalid}
use vips_adaptive_traffi.CommandBuffer.Polling.{
  current_object, command_buf_polling, cross_phase, pretime_step, is_ready, send_step, mark_sent,
  remember,
}
use vips_adaptive_traffi.CommandBuffer.Once.{SameBuffer, pretime_step-SameBuffer}
use vips_adaptive_traffi.CommandBuffer.Poll.{send_step-ready, send_step-idle, is_ready-same}
use vips_adaptive_traffi.CommandBuffer.Loop.{command_buf_send-ends}
use vips_adaptive_traffi.CommandBuffer.Sound.{IsSound, object_at-IsByteObject}
use vips_adaptive_traffi.CommandBuffer.Reach.{
  compensate, insert_all, Reachable, Reachable-IsSound, SameBuffer-IsSound,
}

-- The statuses that an insertion does not touch.
pub record SameStatus (s s' : State) : Type 0 where
  pub status_kept : s'.signal_status ≡ s.signal_status
  pub prior_kept : s'.prior_sub_phase_id ≡ s.prior_sub_phase_id

insert_valid-SameStatus : (c : TscCommand) (s : State) → SameStatus s (insert_valid c s).1
unfolding insert_valid grant
insert_valid-SameStatus c s = ground arith

pub insert-SameStatus :
    (c : TscCommand) (s : State) → SameStatus s (command_buf_insert_effect_time c s).1
insert-SameStatus c s = elim (Option-cases (validate c)) [
  | inl e ↦ rw (insert_of_valid c s e) (insert_valid-SameStatus (clamp_command c s) s)
  | inr (k, e) ↦ rw (insert_of_invalid c s k e) record { status_kept = refl; prior_kept = refl }
]

insert_all-SameStatus : (cs : List TscCommand) (s : State) → SameStatus s (insert_all cs s)
insert_all-SameStatus [] s = record { status_kept = refl; prior_kept = refl }
insert_all-SameStatus (c ∷ cs) s =
    let one = insert-SameStatus c s in
    let rest = insert_all-SameStatus cs (command_buf_insert_effect_time c s).1 in
    record {
      status_kept = rest.status_kept ∙ one.status_kept;
      prior_kept = rest.prior_kept ∙ one.prior_kept;
    }

-- A change of subphase keeps the prior and the running subphase.
pub cross_phase-phases :
    (commands : State → List TscCommand) (s : State)
    → let s' = cross_phase (compensate commands) s in
      (s'.prior_sub_phase_id ≡ s.prior_sub_phase_id)
      × (s'.signal_status.sub_phase_id ≡ s.signal_status.sub_phase_id)
unfolding cross_phase set_control_status compensation_buffer_clear
cross_phase-phases commands s = elim (Bool-cases resumed) [
  | inl e ↦
      let kept = insert_all-SameStatus (commands s) s in
      rw e (kept.prior_kept, ap (λ t. t.sub_phase_id) kept.status_kept)
  | inr e ↦ rw e (refl, refl)
]
  where
    resumed : Bool
    resumed =
        strncmp_eq (object_at s.command_buf s.prior_cycle_index s.prior_sub_phase_id).host_obu_name
          resume_id 6

crossing-not_ready :
    (s : State) → s.prior_sub_phase_id ≢ s.signal_status.sub_phase_id → is_ready s ≡ false
unfolding is_ready
crossing-not_ready s h = ground arith

send_step-ends :
    (config : Config) (s : State)
    → IsSound s
    → 4 < (plan_at s.signal_status s.signal_status.sub_phase_id).pre_green
    → send_step 256 config s ≢ none
send_step-ends config s h long =
    let byte =
      (object_at-IsByteObject s.command_buf s.cycle_index s.signal_status.sub_phase_id
        h.bytes).adjusted_byte in
    let ends =
      command_buf_send-ends config (current_object s) s.signal_status.sub_phase_id s long byte in
    elim (Bool-cases (is_ready s)) [
      | inl ready ↦ rw (send_step-ready 256 config s ready) (bind_ends _ mark_sent ends)
      | inr idle ↦ rw (send_step-idle 256 config s idle) (λ e. cc)
    ]

-- The poll, with its three tests as arguments.
poll_with-ends :
    (off new changed : Bool) (config : Config) (s crossed : State)
    → (changed ≡ true → send_step 256 config (pretime_step crossed) ≢ none)
    → send_step 256 config (pretime_step s) ≢ none
    → (if off
        then some s
        else if new
        then some (remember s)
        else (send_step 256 config (pretime_step (if changed then crossed else s)) >>= λ s2.
            some (remember (record s2 { prior_cycle_index = s2.cycle_index }))))
      ≢ none
poll_with-ends true new changed config s crossed h k = λ e. cc
poll_with-ends false true changed config s crossed h k = λ e. cc
poll_with-ends false false true config s crossed h k = bind_ends _ _ (h refl)
poll_with-ends false false false config s crossed h k = bind_ends _ _ k

-- In every state that the program can reach, for every manufacturer and every choice of the
-- commands that a compensation inserts, the poll comes to an end with 256 rounds for the loop of
-- CHENG_LONG, if the planned green of the running subphase is above 4 seconds.
pub Reachable-poll_ends :
    (config : Config) (commands : State → List TscCommand) (s : State)
    → Reachable config s
    → 4 < (plan_at s.signal_status s.signal_status.sub_phase_id).pre_green
    → command_buf_polling (compensate commands) 256 config s ≢ none
unfolding command_buf_polling
Reachable-poll_ends config commands s r long =
    poll_with-ends _ _ _ config s (cross_phase (compensate commands) s) crossed_ends steady_ends
  where
    same : SameBuffer s (pretime_step s)
    same = pretime_step-SameBuffer s

    steady_ends : send_step 256 config (pretime_step s) ≢ none
    steady_ends =
        send_step-ends config (pretime_step s)
          (SameBuffer-IsSound same (Reachable-IsSound config r)) (rw same.status_kept long)

    crossed_ends :
        not (s.prior_sub_phase_id == s.signal_status.sub_phase_id) ≡ true
        → send_step 256 config (pretime_step (cross_phase (compensate commands) s)) ≢ none
    crossed_ends changed =
        let p = cross_phase-phases commands s in
        let s1 = cross_phase (compensate commands) s in
        let ne : s.prior_sub_phase_id ≢ s.signal_status.sub_phase_id = ground arith in
        let idle = crossing-not_ready s1 (λ e. ne (sym p.0 ∙ e ∙ p.1)) in
        rw
          (send_step-idle 256 config (pretime_step s1)
            (is_ready-same (pretime_step-SameBuffer s1) ∙ idle))
          (λ e. cc)
