-- ===== src/CommandBuffer/Reach.antt =====
-- The operations of src/traffic_signal_command_buffer.c in any order, from the start of the program.
use vips_adaptive_traffi.Common.{
  ℕ, ◌≡◌, sym, ◌∙◌, inl, inr, Bool, true, false, some, List, [], ◌∷◌, arith, u8, Bool-cases,
  strncmp_eq, bind_some, some_inj, ◌>>=◌, if◌then◌else◌, Bytes,
}
use vips_adaptive_traffi.Signal.{TscCommand, Config, SignalStatus, zero_object}
use vips_adaptive_traffi.CommandBuffer.State.{
  State, object_at, set_object, empty_buf, update_cycle_index, command_buf_clear, resume_id,
  set_control_status, command_buf_delete_obu, compensation_buffer_clear,
}
use vips_adaptive_traffi.CommandBuffer.Slots.{Buf}
use vips_adaptive_traffi.CommandBuffer.Insert.{
  command_buf_insert_effect_time, command_buf_insert_adjustment, command_buf_resume_control,
}
use vips_adaptive_traffi.CommandBuffer.Polling.{
  command_buf_polling, cross_phase, pretime_step, is_ready, send_step, mark_sent, remember,
}
use vips_adaptive_traffi.CommandBuffer.Once.{
  SameBuffer, pretime_step-SameBuffer, command_buf_send-SameBuffer,
}
use vips_adaptive_traffi.CommandBuffer.Poll.{send_step-ready, send_step-idle}
use vips_adaptive_traffi.CommandBuffer.Sound.{
  IsSound, IsSoundBuf, insert-IsSound, delete-IsSound, adjustment-IsSound, resume-IsSound,
  empty_buf-IsSoundBuf, set_object-IsSoundBuf, object_at-IsByteObject,
}

-- A compensation inserts commands and clears its own buffer; which commands, is a function of the
-- state.
abbrev pub insert_all : List TscCommand → State → State
insert_all [] s = s
insert_all (c ∷ cs) s = insert_all cs (command_buf_insert_effect_time c s).1

abbrev pub compensate : (State → List TscCommand) → State → State
compensate commands s = compensation_buffer_clear (insert_all (commands s) s)

crossed-IsSoundBuf :
    (b : Buf) (i j c p c' p' sec : ℕ)
    → IsSoundBuf b i j
    → let b' = set_object b c p zero_object in
      IsSoundBuf (set_object b' c' p' (record (object_at b' c' p') { adjusted_time = u8 sec })) i j
crossed-IsSoundBuf b i j c p c' p' sec h =
    let k = set_object-IsSoundBuf c p zero_object h (omega arith) in
    let byte = object_at-IsByteObject (set_object b c p zero_object) c' p' k.bytes in
    set_object-IsSoundBuf c' p' _ k
      record { effect_byte = byte.effect_byte; adjusted_byte = omega arith }

pub SameBuffer-IsSound : {s s' : State} → SameBuffer s s' → IsSound s → IsSound s'
SameBuffer-IsSound same h = rw (same.buf_kept, same.index_kept, same.prior_index_kept) h

module _ (config : Config) (commands : State → List TscCommand) where
  insert_all-IsSound : (cs : List TscCommand) (s : State) → IsSound s → IsSound (insert_all cs s)
  insert_all-IsSound [] s h = h
  insert_all-IsSound (c ∷ cs) s h = insert_all-IsSound cs _ (insert-IsSound c s h)

  compensate-IsSound : (s : State) → IsSound s → IsSound (compensate commands s)
  unfolding compensation_buffer_clear
  compensate-IsSound s h = insert_all-IsSound (commands s) s h

  cross_phase-IsSound : (s : State) → IsSound s → IsSound (cross_phase (compensate commands) s)
  unfolding cross_phase set_control_status
  cross_phase-IsSound s h = elim (Bool-cases resumed) [
    | inl e ↦ rw e (crossed-IsSoundBuf _ _ _ _ _ _ _ _ (compensate-IsSound s h))
    | inr e ↦ rw e (crossed-IsSoundBuf _ _ _ _ _ _ _ _ h)
  ]
    where
      resumed : Bool
      resumed =
          strncmp_eq
            (object_at s.command_buf s.prior_cycle_index s.prior_sub_phase_id).host_obu_name
            resume_id 6

  mark_sent-IsSound : (s : State) → IsSound s → IsSound (mark_sent s)
  unfolding mark_sent set_control_status
  mark_sent-IsSound s h =
      let byte =
        object_at-IsByteObject s.command_buf s.cycle_index s.signal_status.sub_phase_id h.bytes in
      set_object-IsSoundBuf s.cycle_index s.signal_status.sub_phase_id _ h
        record { effect_byte = byte.effect_byte; adjusted_byte = byte.effect_byte }

  send_step-IsSound :
      (fuel : ℕ) (s s' : State) → send_step fuel config s ≡ some s' → IsSound s → IsSound s'
  send_step-IsSound fuel s s' e h = elim (Bool-cases (is_ready s)) [
    | inl ready ↦
        let (s1, sent, same) = bind_some _ _ (sym (send_step-ready fuel config s ready) ∙ e) in
        let marked : mark_sent s1 ≡ s' = some_inj same in
        rw (← marked) (
          mark_sent-IsSound s1
            (SameBuffer-IsSound (command_buf_send-SameBuffer fuel config _ _ s s1 sent) h))
    | inr idle ↦
        let same : s ≡ s' = some_inj (sym (send_step-idle fuel config s idle) ∙ e) in rw (← same) h
  ]

  finished :
      (fuel : ℕ) (s s' : State)
      → (send_step fuel config s >>= λ s2.
          some (remember (record s2 { prior_cycle_index = s2.cycle_index })))
        ≡ some s'
      → IsSound s
      → IsSound s'
  unfolding remember
  finished fuel s s' e h =
      let (s2, sent, same) = bind_some _ _ e in
      let k = send_step-IsSound fuel s s2 sent h in
      rw (← some_inj same)
        record { shaped = k.shaped; bytes = k.bytes; index_in = k.index_in; prior_in = k.index_in }

  -- The poll, with its three tests as arguments.
  poll_with :
      (off new changed : Bool) (fuel : ℕ) (s s' : State)
      → (if off
          then some s
          else if new
          then some (remember s)
          else (send_step fuel config
                (pretime_step (if changed then cross_phase (compensate commands) s else s))
              >>= λ s2. some (remember (record s2 { prior_cycle_index = s2.cycle_index }))))
        ≡ some s'
      → IsSound s
      → IsSound s'
  unfolding remember
  poll_with true new changed fuel s s' e h = rw (← some_inj e) h
  poll_with false true changed fuel s s' e h = rw (← some_inj e) h
  poll_with false false true fuel s s' e h =
      finished fuel _ s' e
        (SameBuffer-IsSound (pretime_step-SameBuffer _) (cross_phase-IsSound s h))
  poll_with false false false fuel s s' e h =
      finished fuel _ s' e (SameBuffer-IsSound (pretime_step-SameBuffer s) h)

  poll-IsSound :
      (fuel : ℕ) (s s' : State)
      → command_buf_polling (compensate commands) fuel config s ≡ some s'
      → IsSound s
      → IsSound s'
  unfolding command_buf_polling
  poll-IsSound fuel s s' e h = poll_with _ _ _ fuel s s' e h

module _ (config : Config) where
  -- One call of an operation, or a new signal status from the controller.
  pub data Step : State → State → Type 0 where
    step_insert : {s : State} (c : TscCommand) → Step s (command_buf_insert_effect_time c s).1
    step_adjustment :
        {s : State} (c : TscCommand) → Step s (command_buf_insert_adjustment config c s).1
    step_resume : {s : State} (appid : ℕ) → Step s (command_buf_resume_control config appid s).1
    step_delete : {s : State} (name : Bytes) → Step s (command_buf_delete_obu name s)
    step_clear : {s : State} → Step s (command_buf_clear s)
    step_cycle : {s : State} → Step s (update_cycle_index s)
    step_status : {s : State} (t : SignalStatus) → Step s (record s { signal_status = t })
    step_poll :
        {s s' : State} (commands : State → List TscCommand) (fuel : ℕ)
        → command_buf_polling (compensate commands) fuel config s ≡ some s'
        → Step s s'

  -- The states that the program can be in: it starts with an empty buffer.
  pub data Reachable : State → Type 0 where
    start :
        {s : State}
        → s.command_buf ≡ empty_buf
        → s.cycle_index ≡ 0
        → s.prior_cycle_index ≡ 0
        → Reachable s
    next : {s s' : State} → Reachable s → Step s s' → Reachable s'

  pub Step-IsSound : {s s' : State} → Step s s' → IsSound s → IsSound s'
  unfolding command_buf_clear update_cycle_index
  Step-IsSound (step_insert {s} c) h = insert-IsSound c s h
  Step-IsSound (step_adjustment {s} c) h = adjustment-IsSound config c s h
  Step-IsSound (step_resume {s} appid) h = resume-IsSound config appid s h
  Step-IsSound (step_delete {s} name) h = delete-IsSound name s h
  Step-IsSound step_clear h = empty_buf-IsSoundBuf h.index_in h.prior_in
  Step-IsSound (step_cycle {s}) h = record {
    shaped = h.shaped;
    bytes = h.bytes;
    index_in = omega arith;
    prior_in = h.prior_in;
  }
  Step-IsSound (step_status t) h = h
  Step-IsSound (step_poll {s} {s'} commands fuel e) h = poll-IsSound config commands fuel s s' e h

  -- In every state that the operations reach, in any order, the array has three cycles of eight
  -- subphases, every time in it is a byte, and both cycle indices are below 3; an object outside the
  -- array is neither read nor written here, which holds of the code while the subphases are at most 8.
  pub Reachable-IsSound : {s : State} → Reachable s → IsSound s
  Reachable-IsSound (start e f g) = rw (e, f, g) (empty_buf-IsSoundBuf (omega arith) (omega arith))
  Reachable-IsSound (next r step) = Step-IsSound step (Reachable-IsSound r)
