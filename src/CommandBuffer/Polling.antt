-- ===== src/CommandBuffer/Polling.antt =====
-- `command_buf_polling` (src/traffic_signal_command_buffer.c), called once a second.
use vips_adaptive_traffi.Common.{
  ℕ, Bool, true, false, not, ◌&&◌, Option, some, ltb, ◌==◌, if◌then◌else◌, ◌>>=◌, strncmp_eq, u8,
}
use vips_adaptive_traffi.Signal.{CommandObject, Config}
use vips_adaptive_traffi.Serial.Tx.{tsc_pretime}
use vips_adaptive_traffi.CommandBuffer.State.{
  State, object_at, set_object, clear_index_command_buf, resume_id, check_command_buf_empty,
  set_control_status,
}
use vips_adaptive_traffi.CommandBuffer.Send.{request_tc, command_buf_send}

-- The object of the running subphase.
abbrev pub current_object : State → CommandObject
current_object s = object_at s.command_buf s.cycle_index s.signal_status.sub_phase_id

abbrev pub set_current_object : CommandObject → State → State
set_current_object o s = record s {
  command_buf = set_object s.command_buf s.cycle_index s.signal_status.sub_phase_id o;
}

-- The prior signal status is the current one from now on.
unfoldable pub remember : State → State
remember s = record s {
  prior_sub_phase_id = s.signal_status.sub_phase_id;
  prior_step_id = s.signal_status.step_id;
  prior_step_sec = s.signal_status.step_sec;
}

-- The subphase has changed: the object of the last one is cleared, no application is in control,
-- and the adjusted time of the new one is what its first step has left. After a resume the
-- compensation starts first; it works on the state by the functions of the component.
unfoldable pub cross_phase : (State → State) → State → State
cross_phase start_compensation s =
    let prior = object_at s.command_buf s.prior_cycle_index s.prior_sub_phase_id in
    let s1 = if strncmp_eq prior.host_obu_name resume_id 6 then start_compensation s else s in
    let s2 = set_control_status 0 (record s1 {
      command_buf =
          clear_index_command_buf s1.command_buf s1.prior_cycle_index s1.prior_sub_phase_id;
    }) in
    let phase = s.signal_status.sub_phase_id in
    let o = object_at s2.command_buf s2.cycle_index phase in
    record s2 {
      command_buf =
          set_object s2.command_buf s2.cycle_index phase
            (record o { adjusted_time = u8 s.signal_status.step_sec });
    }

-- In step 4 an idle controller is sent back to its own plan, once.
unfoldable pub pretime_step : State → State
pretime_step s =
    let pretime = record (request_tc tsc_pretime s) { pretimeflag = false } in
    if s.signal_status.step_id == 4
    then if check_command_buf_empty s && s.pretimeflag then pretime else s
    else record s { pretimeflag = true }

-- The test for a command that is ready.
unfoldable pub is_ready : State → Bool
is_ready s =
    let o = current_object s in
    not (o.app_id == 0)
    && not o.send_flag
    && (s.signal_status.step_id == 1)
    && ltb 1 s.signal_status.step_sec
    && (s.prior_sub_phase_id == s.signal_status.sub_phase_id)

-- The object has been sent: its application is in control, and its time is the effect time.
unfoldable pub mark_sent : State → State
mark_sent s =
    let o = current_object s in
    set_current_object (record o { send_flag = true; adjusted_time = o.effect_time })
      (set_control_status o.app_id s)

unfoldable pub send_step : ℕ → Config → State → Option State
send_step fuel config s =
    let sent : Option State =
      command_buf_send fuel config (current_object s) s.signal_status.sub_phase_id s >>= λ s'.
      some (mark_sent s') in
    if is_ready s then sent else some s

-- `none` as in `command_buf_send`.
unfoldable pub command_buf_polling : (State → State) → ℕ → Config → State → Option State
command_buf_polling start_compensation fuel config s =
    let changed = not (s.prior_sub_phase_id == s.signal_status.sub_phase_id) in
    let s1 = if changed then cross_phase start_compensation s else s in
    let polled : Option State = send_step fuel config (pretime_step s1) >>= λ s2.
    some (remember (record s2 { prior_cycle_index = s2.cycle_index })) in
    if s.signal_status.sub_phase_id == 0
    then some s
    else if s.prior_sub_phase_id == 0
    then some (remember s)
    else polled
