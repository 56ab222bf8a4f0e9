-- ===== src/CommandBuffer/Accept.antt =====
-- Which insertions are accepted (src/traffic_signal_command_buffer.c,
-- `command_buf_insert_effect_time`).
use vips_adaptive_traffi.Common.{
  ℕ, ◌≤◌, ◌<◌, ◌≡◌, ◌≢◌, sym, ap, ◌∙◌, ◌↔◌, ◌⊎◌, refl, inl, inr, length, ◌≤ℤ◌, true, false, none,
  some, arith, strncmp_eq, abs, pos, ◌-ℤ◌, Option-cases,
}
use vips_adaptive_traffi.Signal.{TscCommand, CommandObject, plan_at}
use vips_adaptive_traffi.CommandBuffer.State.{
  State, object_at, cycle_of, subphaseid_num, cycle_num, compensation_name, resume_id,
}
use vips_adaptive_traffi.CommandBuffer.Insert.{
  InsertCode, insert_accept, improper_priority, command_left, validate, decide, refuse,
  insert_valid, clamp_command, command_buf_insert_effect_time,
}

insert_valid_refused :
    (c : TscCommand) (s : State) → (insert_valid c s).0 ≢ insert_accept → (insert_valid c s).1 ≡ s
unfolding insert_valid
insert_valid_refused c s h = ground arith

insert_valid-improper :
    (c : TscCommand) (s : State)
    → (insert_valid c s).0 ≢ insert_accept
    → (insert_valid c s).0 ≡ improper_priority
unfolding insert_valid
insert_valid-improper c s h = ground arith

-- What the tests on a command's fields let through.
pub record IsValidCommand (c : TscCommand) : Type 0 where
  pub app_id_pos : 0 < c.app_id
  pub app_priority_pos : 0 < c.app_priority
  pub target_phase_pos : 0 < c.target_phase
  pub target_phase_in : c.target_phase ≤ subphaseid_num
  pub cycle_in : c.cycle < cycle_num
  pub phase_pos : 0 < c.phase
  pub phase_in : c.phase ≤ subphaseid_num
  pub effect_time_in : pos 0 ≤ℤ c.effect_time
  pub named : 0 < length c.host_obu_name

pub validate-IsValidCommand : (c : TscCommand) → validate c ≡ none → IsValidCommand c
unfolding validate
validate-IsValidCommand c h = ground arith

pub IsValidCommand-validate : (c : TscCommand) → IsValidCommand c → validate c ≡ none
unfolding validate
IsValidCommand-validate c h = ground (arith, h)

validate-proper : (c : TscCommand) → validate c ≢ some improper_priority
unfolding validate
validate-proper c = ground arith

-- When a command may take an object, in words of its own: the object is free, or holds a resume;
-- both come from the compensation; a resume meets its own application; the same vehicle asks
-- again; a command for the same target phase changes the time at least as much; a command for
-- another target phase has the higher priority, which is the smaller number.
pub data MayReplace (o : CommandObject) (c : TscCommand) (pretime : ℕ) : Type 0 where
  free : o.app_id ≡ 0 → MayReplace o c pretime
  over_resume : strncmp_eq o.host_obu_name resume_id 7 ≡ true → MayReplace o c pretime
  compensation_again :
      strncmp_eq o.host_obu_name compensation_name 13 ≡ true
      → strncmp_eq c.host_obu_name compensation_name 13 ≡ true
      → MayReplace o c pretime
  own_resume :
      strncmp_eq c.host_obu_name resume_id 7 ≡ true → o.app_id ≡ c.app_id → MayReplace o c pretime
  same_vehicle :
      strncmp_eq c.host_obu_name resume_id 7 ≡ false
      → strncmp_eq o.host_obu_name c.host_obu_name 10 ≡ true
      → o.app_id ≡ c.app_id
      → MayReplace o c pretime
  larger_change :
      strncmp_eq c.host_obu_name resume_id 7 ≡ false
      → o.target_phase ≡ c.target_phase
      → abs (pos o.effect_time -ℤ pos pretime) ≤ abs (c.effect_time -ℤ pos pretime)
      → MayReplace o c pretime
  higher_priority :
      strncmp_eq c.host_obu_name resume_id 7 ≡ false
      → o.target_phase ≢ c.target_phase
      → c.app_priority < o.app_priority
      → MayReplace o c pretime

decide-MayReplace :
    (o : CommandObject) (c : TscCommand) (pretime : ℕ)
    → decide o c pretime ≢ refuse
    → MayReplace o c pretime
unfolding decide
decide-MayReplace o c pretime h = grind (
  arith, free, over_resume, compensation_again, own_resume, same_vehicle, larger_change,
  higher_priority,
)

pub MayReplace-decide :
    (o : CommandObject) (c : TscCommand) (pretime : ℕ)
    → MayReplace o c pretime
    → decide o c pretime ≢ refuse
unfolding decide
MayReplace-decide o c pretime (free e) = ground arith
MayReplace-decide o c pretime (over_resume e) = ground arith
MayReplace-decide o c pretime (compensation_again e f) = ground arith
MayReplace-decide o c pretime (own_resume e f) = ground arith
MayReplace-decide o c pretime (same_vehicle e f g) = ground arith
MayReplace-decide o c pretime (larger_change e f g) = ground arith
MayReplace-decide o c pretime (higher_priority e f g) = ground arith

insert_valid-accept :
    (c : TscCommand) (s : State)
    → ((insert_valid c s).0 ≡ insert_accept) ↔ (
        decide
          (object_at s.command_buf (cycle_of s c.cycle) c.phase)
          c
          (plan_at s.signal_status c.phase).pre_time_compensated
        ≢ refuse)
unfolding insert_valid
insert_valid-accept c s = ground arith

validate-ne : (c : TscCommand) → validate c ≢ some insert_accept
unfolding validate
validate-ne c = ground arith

none_ne_some : {k : InsertCode} → none ≢ some k
none_ne_some h = cc

pub insert_of_valid :
    (c : TscCommand) (s : State)
    → validate c ≡ none
    → command_buf_insert_effect_time c s ≡ insert_valid (clamp_command c s) s
unfolding command_buf_insert_effect_time
insert_of_valid c s e = rw (e, command_buf_insert_effect_time)

pub insert_of_invalid :
    (c : TscCommand) (s : State) (k : InsertCode)
    → validate c ≡ some k
    → command_buf_insert_effect_time c s ≡ (k, s)
unfolding command_buf_insert_effect_time
insert_of_invalid c s k e = rw (e, command_buf_insert_effect_time)

-- What a refused insertion leaves of the program and of the command.
abbrev pub NoEffect : TscCommand → State → Type 0
NoEffect c s =
    ((command_buf_insert_effect_time c s).1 ≡ s)
    × ((((command_buf_insert_effect_time c s).0 ≢ improper_priority) × (command_left c s ≡ c))
        ⊎ (((command_buf_insert_effect_time c s).0 ≡ improper_priority)
            × IsValidCommand c
            × (command_left c s ≡ clamp_command c s)))

-- A refused insertion leaves the command buffer and everything else of the program as it was. The
-- caller's command, which is handed back, is as it came if a test on its fields refuses it; if the
-- object of the buffer has precedence, its effect time is clamped already.
pub insert_refused_unchanged :
    (c : TscCommand) (s : State)
    → (command_buf_insert_effect_time c s).0 ≢ insert_accept
    → NoEffect c s
unfolding command_left
insert_refused_unchanged c s h = elim (Option-cases (validate c)) [
  | inl e ↦
      let is = insert_of_valid c s e in
      (
        ap (λ r. r.1) is
            ∙ insert_valid_refused (clamp_command c s) s (λ k. h (ap (λ r. r.0) is ∙ k)),
        inr (
          ap (λ r. r.0) is
              ∙ insert_valid-improper (clamp_command c s) s (λ k. h (ap (λ r. r.0) is ∙ k)),
          validate-IsValidCommand c e,
          rw (command_left, e) refl,
        ),
      )
  | inr (k, e) ↦
      let is = insert_of_invalid c s k e in
      (
        ap (λ r. r.1) is,
        inl (
          λ i. validate-proper c (e ∙ ap some (sym (ap (λ r. r.0) is) ∙ i)),
          rw (command_left, e) refl,
        ),
      )
]

-- An insertion is accepted exactly when the numbers of the command are in their ranges, its effect time
-- is not negative, it has a name, and the command, with its effect time clamped, may replace the object
-- that it is meant for. A resume is an object named "RESUME", whole: one of another name that begins
-- so, such as "RESUME_ID_DONE", is not taken for one.
pub insert_accept_iff :
    (c : TscCommand) (s : State)
    → ((command_buf_insert_effect_time c s).0 ≡ insert_accept) ↔ (
        IsValidCommand c
        × MayReplace
            (object_at s.command_buf (cycle_of s c.cycle) c.phase)
            (clamp_command c s)
            (plan_at s.signal_status c.phase).pre_time_compensated)
unfolding clamp_command
insert_accept_iff c s = elim (Option-cases (validate c)) [
  | inl e ↦ rw (insert_of_valid c s e) (
    λ h. (
      validate-IsValidCommand c e,
      decide-MayReplace o c' pretime ((insert_valid-accept c' s).0 h),
    ),
    λ h. (insert_valid-accept c' s).1 (MayReplace-decide o c' pretime h.1),
  )
  | inr (k, e) ↦ rw (insert_of_invalid c s k e) (
    λ (h : k ≡ insert_accept). absurd (validate-ne c (e ∙ ap some h)),
    λ h. absurd (none_ne_some (sym (IsValidCommand-validate c h.0) ∙ e)),
  )
]
  where
    c' : TscCommand
    c' = clamp_command c s

    pretime : ℕ
    pretime = (plan_at s.signal_status c.phase).pre_time_compensated

    o : CommandObject
    o = object_at s.command_buf (cycle_of s c.cycle) c.phase
