-- ===== src/CommandBuffer/Insert.antt =====
-- The insertion of a command (src/traffic_signal_command_buffer.c), with the test for a running
-- compensation (src/traffic_compensation.c).
use vips_adaptive_traffi.Common.{
  ℕ, ◌+◌, Bool, false, not, ◌&&◌, ◌||◌, Option, none, some, List, [], ◌∷◌, ◌++◌, take, length, all,
  ltb, leb, ◌==◌, if◌then◌else◌, strncmp_eq, u8, ℤ, pos, ◌+ℤ◌, ◌-ℤ◌, ltb_ℤ, abs, to_u8, to_i16,
  to_u16, is_zero,
}
use vips_adaptive_traffi.Signal.{plan_at, TscCommand, zero_command, CommandObject, Config, AppObj}
use vips_adaptive_traffi.CommandBuffer.State.{
  State, granted, object_at, set_object, cycle_of, resume_id, compensation_name, compensation_id,
  subphaseid_num, cycle_num,
}

-- `command_buf_err_t`, and the -1 of `command_buf_resume_control`.
pub data InsertCode : Type 0 where
  insert_accept invalid_app_id invalid_app_priority invalid_target_phase invalid_cycle : InsertCode
  invalid_phase invalid_effect_time invalid_adjustment invalid_host_obu_name : InsertCode
  improper_priority incomp_tsp_do_nothing no_control : InsertCode

-- `is_in_compensation`.
unfoldable pub is_in_compensation : State → Bool
is_in_compensation s =
    let p = plan_at s.signal_status s.signal_status.sub_phase_id in
    if s.signal_status.control_strategy == 1
    then ltb 0 p.pre_time_compensated && not (p.pre_green == p.pre_time_compensated)
    else not (all (all (λ o. not (o.app_id == compensation_id))) s.command_buf)

-- The tests on the fields of a command, in their order.
unfoldable pub validate : TscCommand → Option InsertCode
validate c =
    if c.app_id == 0
    then some invalid_app_id
    else if c.app_priority == 0
    then some invalid_app_priority
    else if (c.target_phase == 0) || ltb subphaseid_num c.target_phase
    then some invalid_target_phase
    else if leb cycle_num c.cycle
    then some invalid_cycle
    else if (c.phase == 0) || ltb subphaseid_num c.phase
    then some invalid_phase
    else if ltb_ℤ c.effect_time (pos 0)
    then some invalid_effect_time
    else if length c.host_obu_name == 0
    then some invalid_host_obu_name
    else none

-- The two tests on the effect time of a command, whose step 1 and pedestrian steps shall make up a
-- green time between the minimum and the maximum. Both assign to an `int16_t`.
unfoldable pub raise_effect_time : ℕ → ℕ → ℤ → ℤ
raise_effect_time ped_green min_green t =
    if ltb_ℤ (t +ℤ pos ped_green) (pos min_green)
    then to_i16 (pos min_green -ℤ pos ped_green)
    else t

unfoldable pub lower_effect_time : ℕ → ℕ → ℤ → ℤ
lower_effect_time ped_green max_green t =
    if ltb_ℤ (pos max_green) (t +ℤ pos ped_green)
    then to_i16 (pos max_green -ℤ pos ped_green)
    else t

unfoldable pub clamp_effect_time : ℕ → ℕ → ℕ → ℤ → ℤ
clamp_effect_time ped_green min_green max_green t =
    lower_effect_time ped_green max_green (raise_effect_time ped_green min_green t)

-- The labels that the insertion jumps to, for a target object that is in use or not.
pub data Verdict : Type 0 where
  accept_app_id accept_obu_name accept_effect_time refuse : Verdict

-- The decision of the insertion, from the target object (before it is changed), the command and
-- the pretime of the subphase.
unfoldable pub decide : CommandObject → TscCommand → ℕ → Verdict
decide o c pretime =
    if o.app_id == 0
    then accept_app_id
    else if strncmp_eq o.host_obu_name compensation_name 13
        && strncmp_eq c.host_obu_name compensation_name 13
    then accept_effect_time
    else if strncmp_eq o.host_obu_name resume_id 7
    then accept_app_id
    else if strncmp_eq c.host_obu_name resume_id 7
    then if o.app_id == c.app_id then accept_obu_name else refuse
    else if strncmp_eq o.host_obu_name c.host_obu_name 10 && (o.app_id == c.app_id)
    then accept_effect_time
    else if o.target_phase == c.target_phase
    then if leb (abs (pos o.effect_time -ℤ pos pretime)) (abs (c.effect_time -ℤ pos pretime))
      then accept_app_id
      else refuse
    else if ltb c.app_priority o.app_priority
    then accept_app_id
    else refuse

-- The assignments behind each label; a label falls through to those below it.
unfoldable pub put_effect_time : TscCommand → CommandObject → CommandObject
put_effect_time c o = record o {
  effect_time = to_u8 c.effect_time;
  target_phase = c.target_phase;
  send_flag = false;
}

unfoldable pub put_obu_name : TscCommand → CommandObject → CommandObject
unfolding put_effect_time
put_obu_name c o = put_effect_time c (record o { host_obu_name = take 15 c.host_obu_name })

unfoldable pub put_app_id : TscCommand → CommandObject → CommandObject
unfolding put_obu_name
put_app_id c o = put_obu_name c (record o { app_id = c.app_id; app_priority = c.app_priority })

-- A slot that nobody uses is given its pretime, as a byte, if it has not been adjusted yet.
unfoldable pub first_insert : ℕ → CommandObject → CommandObject
first_insert pretime o =
    if (o.app_id == 0) && (o.adjusted_time == 0) then record o { adjusted_time = u8 pretime } else o

unfoldable pub apply_verdict : Verdict → TscCommand → CommandObject → CommandObject
unfolding put_app_id put_obu_name put_effect_time
apply_verdict accept_app_id c o = put_app_id c o
apply_verdict accept_obu_name c o = put_obu_name c o
apply_verdict accept_effect_time c o = put_effect_time c o
apply_verdict refuse c o = o

-- What follows an accepted insertion: a command for its own phase grants the vehicle its wish.
unfoldable pub grant : TscCommand → State → State
grant c s =
    if c.phase == c.target_phase
    then record s { calls = s.calls ++ (granted c.host_obu_name c.vehicle_type ∷ []) }
    else s

-- The insertion of a valid command whose effect time is in range.
unfoldable pub insert_valid : TscCommand → State → InsertCode × State
insert_valid c s =
    let pretime = (plan_at s.signal_status c.phase).pre_time_compensated in
    let i = cycle_of s c.cycle in
    let o = object_at s.command_buf i c.phase in
    let o' = apply_verdict (decide o c pretime) c (first_insert pretime o) in
    let s' = record s { command_buf = set_object s.command_buf i c.phase o' } in
    elim (decide o c pretime) [ refuse ↦ (improper_priority, s) | _ ↦ (insert_accept, grant c s') ]

-- The command with its effect time clamped.
unfoldable pub clamp_command : TscCommand → State → TscCommand
clamp_command c s =
    let p = plan_at s.signal_status c.phase in
    record c {
      effect_time =
          clamp_effect_time (p.ped_green_flash + p.ped_red) p.min_green p.max_green c.effect_time;
    }

-- The result and the program's state; the command that is handed back is `command_left`.
unfoldable pub command_buf_insert_effect_time : TscCommand → State → InsertCode × State
command_buf_insert_effect_time c s = elim (validate c) [
  | some e ↦ (e, s)
  | none ↦ insert_valid (clamp_command c s) s
]

-- The caller's command behind the call, which clamps the effect time in place once the fields have
-- passed their tests, before the decision.
unfoldable pub command_left : TscCommand → State → TscCommand
command_left c s = elim (validate c) [ some e ↦ c | none ↦ clamp_command c s ]

-- The bounds of an adjusted effect time, `uint16_t` each, with the configured percentages.
unfoldable pub lower_green : Config → ℕ → ℕ → ℕ
lower_green config pretime min_green =
    let lower = config.lower_bound pretime in
    if config.signal_adjust_lower_bound_active && ltb_ℤ (pos min_green) lower
    then to_u16 lower
    else min_green

unfoldable pub upper_green : Config → ℕ → ℕ → ℕ
upper_green config pretime max_green =
    let upper = config.upper_bound pretime in
    if config.signal_adjust_upper_bound_active && ltb_ℤ upper (pos max_green)
    then to_u16 upper
    else max_green

-- The effect time that an adjustment asks for: from the adjusted time of the object, or from the
-- pretime if it has none; then the two tests. Each assignment is to an `int16_t`.
unfoldable pub adjusted_effect_time : ℕ → ℕ → ℕ → ℕ → ℤ → ℤ
adjusted_effect_time pretime adjusted_time min_green max_green adjustment =
    let base = if adjusted_time == 0 then pretime else adjusted_time in
    let t = to_i16 (pos base +ℤ adjustment) in
    let low = if ltb_ℤ t (pos min_green) then to_i16 (pos min_green) else t in
    if ltb_ℤ (pos max_green) low then to_i16 (pos max_green) else low

-- The command that an adjustment hands on.
unfoldable pub adjust_command : Config → TscCommand → State → TscCommand
adjust_command config c s =
    let p = plan_at s.signal_status c.phase in
    let o = object_at s.command_buf (cycle_of s c.cycle) c.phase in
    record c {
      effect_time =
          adjusted_effect_time p.pre_time_compensated o.adjusted_time
            (lower_green config p.pre_time_compensated p.min_green)
            (upper_green config p.pre_time_compensated p.max_green) c.adjustment;
    }

unfoldable pub command_buf_insert_adjustment : Config → TscCommand → State → InsertCode × State
command_buf_insert_adjustment config c s =
    if is_in_compensation s
    then (incomp_tsp_do_nothing, s)
    else if is_zero c.adjustment
    then (invalid_adjustment, s)
    else command_buf_insert_effect_time (adjust_command config c s) s

-- `get_app_obj_by_appID` (src/application_management_helper.c).
unfoldable pub get_app_obj_by_app_id : ℕ → List AppObj → Option AppObj
get_app_obj_by_app_id id [] = none
get_app_obj_by_app_id id (a ∷ as') =
    let rest = get_app_obj_by_app_id id as' in if a.id == id then some a else rest

-- The command that `command_buf_resume_control` builds.
unfoldable pub resume_command : State → TscCommand
resume_command s =
    let phase = s.signal_status.sub_phase_id in
    record zero_command {
      app_id = 99;
      app_priority = 99;
      target_phase = phase;
      phase = phase;
      effect_time = to_i16 (pos (plan_at s.signal_status phase).pre_green);
      host_obu_name = resume_id;
    }

unfoldable pub command_buf_resume_control : Config → ℕ → State → InsertCode × State
command_buf_resume_control config appid s = elim (get_app_obj_by_app_id appid config.app_list) [
  | none ↦ (no_control, s)
  | some a ↦
      if a.dont_send2tc == 1
      then (no_control, s)
      else command_buf_insert_effect_time (resume_command s) s
]
