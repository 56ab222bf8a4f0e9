-- ===== src/CommandBuffer/Outcome.antt =====
-- What an accepted insertion leaves behind (src/traffic_signal_command_buffer.c,
-- `command_buf_insert_effect_time`).
use vips_adaptive_traffi.Common.{ℕ, ◌≡◌, ◌≢◌, ◌⊎◌, false, arith, to_u8}
use vips_adaptive_traffi.Signal.{TscCommand, CommandObject, plan_at}
use vips_adaptive_traffi.CommandBuffer.State.{State, object_at, set_object, cycle_of}
use vips_adaptive_traffi.CommandBuffer.Slots.{
  IsShaped, InRange, object_at-set_object_self, object_at-set_object_ne, set_object-IsShaped,
}
use vips_adaptive_traffi.CommandBuffer.Insert.{
  insert_accept, decide, Verdict, refuse, first_insert, apply_verdict, grant, insert_valid,
  clamp_command, command_buf_insert_effect_time,
}
use vips_adaptive_traffi.CommandBuffer.Accept.{
  IsValidCommand, IsValidCommand-validate, MayReplace-decide, insert_of_valid, insert_accept_iff,
}

-- What an accepted insertion leaves: the object holds the clamped effect time as a byte, for the
-- command's target phase and unsent; every other object is what it was; the indices and the
-- signal status are untouched.
pub record Inserted (c : TscCommand) (s s' : State) : Type 0 where
  pub time_stored :
      (object_at s'.command_buf (cycle_of s c.cycle) c.phase).effect_time
      ≡ to_u8 (clamp_command c s).effect_time
  pub target_stored :
      (object_at s'.command_buf (cycle_of s c.cycle) c.phase).target_phase ≡ c.target_phase
  pub unsent : (object_at s'.command_buf (cycle_of s c.cycle) c.phase).send_flag ≡ false
  pub others_kept :
      (i p : ℕ)
      → (cycle_of s c.cycle ≢ i) ⊎ (c.phase ≢ p)
      → object_at s'.command_buf i p ≡ object_at s.command_buf i p
  pub status_kept : s'.signal_status ≡ s.signal_status
  pub index_kept : s'.cycle_index ≡ s.cycle_index
  pub shape_kept : IsShaped s'.command_buf

apply_verdict-fields :
    (v : Verdict) (c : TscCommand) (o : CommandObject)
    → v ≢ refuse
    → ((apply_verdict v c o).effect_time ≡ to_u8 c.effect_time)
      × ((apply_verdict v c o).target_phase ≡ c.target_phase)
      × ((apply_verdict v c o).send_flag ≡ false)
unfolding apply_verdict
apply_verdict-fields v c o h = ground arith

grant-kept :
    (c : TscCommand) (s : State)
    → ((grant c s).command_buf ≡ s.command_buf)
      × ((grant c s).signal_status ≡ s.signal_status)
      × ((grant c s).cycle_index ≡ s.cycle_index)
unfolding grant
grant-kept c s = ground arith

pub insert_valid_written :
    (c : TscCommand) (s : State)
    → let pretime = (plan_at s.signal_status c.phase).pre_time_compensated in
      let i = cycle_of s c.cycle in
      let o = object_at s.command_buf i c.phase in
      decide o c pretime ≢ refuse
      → (insert_valid c s).1
        ≡ grant c (record s {
          command_buf =
              set_object s.command_buf i c.phase
                (apply_verdict (decide o c pretime) c (first_insert pretime o));
        })
unfolding insert_valid
insert_valid_written c s h = ground arith

-- An accepted insertion into a buffer of the right shape stores the clamped effect time as a byte,
-- with the target phase and not yet sent, in the object that the command is meant for, and keeps
-- every other object, the shape, the cycle index and the signal status.
pub insert_accepted :
    (c : TscCommand) (s : State)
    → IsShaped s.command_buf
    → (command_buf_insert_effect_time c s).0 ≡ insert_accept
    → Inserted c s (command_buf_insert_effect_time c s).1
unfolding clamp_command
insert_accepted c s shaped h =
    let (e, may) = (insert_accept_iff c s).0 h in
    let ok = MayReplace-decide o c' pretime may in
    rw (insert_of_valid c s (IsValidCommand-validate c e))
      (rw (insert_valid_written c' s ok) (written (decide o c' pretime) ok e))
  where
    c' : TscCommand
    c' = clamp_command c s

    pretime : ℕ
    pretime = (plan_at s.signal_status c.phase).pre_time_compensated

    i : ℕ
    i = cycle_of s c.cycle

    o : CommandObject
    o = object_at s.command_buf i c.phase

    written :
        (v : Verdict)
        → v ≢ refuse
        → IsValidCommand c
        → Inserted c s (
            grant c' (record s {
              command_buf =
                  set_object s.command_buf i c.phase (apply_verdict v c' (first_insert pretime o));
            }))
    written v ok ic =
        let o' = apply_verdict v c' (first_insert pretime o) in
        let s1 = record s { command_buf = set_object s.command_buf i c.phase o' } in
        let buf = (grant-kept c' s1).0 in
        let fields = apply_verdict-fields v c' (first_insert pretime o) ok in
        let range : InRange i c.phase = omega (arith, ic) in
        let read = object_at-set_object_self i c.phase o' shaped range in
        record {
          time_stored = rw (buf, read) fields.0;
          target_stored = rw (buf, read) fields.1;
          unsent = rw (buf, read) fields.2;
          others_kept = λ j p d. rw buf (object_at-set_object_ne i c.phase o' j p shaped range d);
          status_kept = (grant-kept c' s1).1;
          index_kept = (grant-kept c' s1).2;
          shape_kept = rw buf (set_object-IsShaped i c.phase o' shaped);
        }
