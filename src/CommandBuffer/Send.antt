-- ===== src/CommandBuffer/Send.antt =====
-- `command_buf_send` (src/traffic_signal_command_buffer.c): a command goes to the controller.
-- WAIT_ACK_LOOP only waits, half a second at most, so it changes nothing here.
use vips_adaptive_traffi.Common.{
  ℕ, zero, suc, Bool, true, not, ◌&&◌, ◌||◌, Option, none, some, ◌++◌, map, ltb, leb, ◌==◌,
  if◌then◌else◌, ◌>>=◌, strncmp_eq, ℤ, pos, negsuc, ◌+ℤ◌, ◌-ℤ◌, ltb_ℤ, to_u8,
}
use vips_adaptive_traffi.Signal.{
  plan_at, CommandObject, CommandArg, Config, cheng_long, shan_zhu, shan_zhu_m,
}
use vips_adaptive_traffi.Serial.Tx.{
  Tx, tsc_dynamic, tsc_extend, tsc_5F4C, tsc_countdown_on, tsc_countdown_off,
}
use vips_adaptive_traffi.CommandBuffer.State.{
  State, command_tx, compensation_name, set_compensation_buffer,
}
use vips_adaptive_traffi.CommandBuffer.Insert.{is_in_compensation}

abbrev pub time_defense : ℕ
time_defense = 5

-- A request to the controller; its sequence number is only waited for.
abbrev pub request_tc : (Tx → ℕ × Tx) → State → State
request_tc f s = record s { tx = (f s.tx).1 }

-- The applications whose commands are held back.
unfoldable pub is_held_back : Config → CommandObject → State → Bool
is_held_back config o s =
    if o.app_id == config.tsp.id
    then if config.tsp.dont_send2tc == 1 then true else is_in_compensation s
    else (o.app_id == config.evsp.id) && (config.evsp.dont_send2tc == 1)

-- The change that CHENG_LONG is asked for: not below TIME_DEFENSE seconds from now.
unfoldable pub cheng_long_difference : CommandObject → ℕ → ℤ
cheng_long_difference o residual =
    let difference = pos o.effect_time -ℤ pos o.adjusted_time in
    if ltb_ℤ (pos residual +ℤ difference) (pos time_defense) && leb time_defense residual
    then pos time_defense -ℤ pos residual
    else difference

-- The time for CHENG_LONG before the loop: the pretime with the change, 255 at most.
unfoldable pub cheng_long_time : CommandObject → ℕ → ℕ → ℤ
cheng_long_time o pretime residual =
    let time = pos pretime +ℤ cheng_long_difference o residual in
    if ltb_ℤ (pos 255) time then pos 255 else time

-- `while (time < 0) { tsc_extend(phase, 1, 1); time += pretime - 4; }`, with fuel. `none` says that
-- the fuel ran out, or that `time`, an `int`, would fall below -2 ^ 31, which C leaves undefined.
unfoldable pub extend_loop : ℕ → ℕ → ℕ → ℤ → Tx → Option (ℤ × Tx)
extend_loop zero phase pretime time t = none
extend_loop (suc fuel) phase pretime time t =
    let next = time +ℤ (pos pretime -ℤ pos 4) in
    let rest = extend_loop fuel phase pretime next (tsc_extend phase 1 1 t).1 in
    if not (ltb_ℤ time (pos 0))
    then some (time, t)
    else if ltb_ℤ next (negsuc 2147483647)
    then none
    else rest

-- The pedestrians' countdown is turned off while vehicles are served. SHAN_ZHU and SHAN_ZHU_M
-- also note it where the configuration forbids the request.
unfoldable pub countdown_off : Config → State → State
countdown_off config s =
    let manufacturer = config.signal_controller_manufacturer in
    let off = record (request_tc (tsc_countdown_off manufacturer) s) { ped_countdown = 0 } in
    let skipped = if manufacturer == cheng_long then s else record s { ped_countdown = 0 } in
    if (s.ped_countdown == 1) && ltb 0 s.activate_amount
    then if config.ped_countdown_send then off else skipped
    else s

abbrev pub zero_to_one : ℤ → ℤ
zero_to_one (pos n) = if n == 0 then pos 1 else pos n
zero_to_one (negsuc n) = negsuc n

-- The requests of one manufacturer's case. The fuel is the number of rounds that the loop may take.
unfoldable pub send_cheng_long : ℕ → Config → CommandObject → ℕ → State → Option State
send_cheng_long fuel config o phase s = do
  let pretime = (plan_at s.signal_status phase).pre_green
  let time = cheng_long_time o pretime s.signal_status.step_sec
  let s1 = countdown_off config (request_tc tsc_dynamic s)
  (time', t) ← extend_loop fuel phase pretime time s1.tx
  some (request_tc (tsc_extend phase 1 (to_u8 (zero_to_one time'))) (record s1 { tx = t }))

-- `SHAN_ZHU` and `SHAN_ZHU_M` have the same text.
unfoldable pub send_shan_zhu : Config → CommandObject → ℕ → State → State
send_shan_zhu config o phase s =
    request_tc (tsc_extend phase 1 o.effect_time) (countdown_off config (request_tc tsc_dynamic s))

-- The argument of the callbacks.
abbrev pub command_arg : CommandObject → ℕ → CommandArg
command_arg o phase = record {
  control_status = o.app_id;
  phase = phase;
  step = 1;
  effect_time = o.effect_time;
  host_obu_name = o.host_obu_name;
}

-- What follows the switch: the query, the note for the compensation, the countdown, the callbacks.
unfoldable pub after_send : Config → CommandObject → ℕ → State → State
after_send config o phase s =
    let s1 = request_tc tsc_5F4C s in
    let s2 =
      if strncmp_eq o.host_obu_name compensation_name 13
      then s1
      else set_compensation_buffer phase s1 in
    let on = record (request_tc (tsc_countdown_on config.signal_controller_manufacturer) s2) {
      ped_countdown = 1;
    } in
    let s3 = if (s2.ped_countdown == 0) && (s2.activate_amount == 0) then on else s2 in
    record s3 {
      calls = s3.calls ++ map (λ k. command_tx k (command_arg o phase)) config.command_tx_callbacks;
    }

-- `none` says that the loop for CHENG_LONG is still running after `fuel` rounds.
unfoldable pub command_buf_send : ℕ → Config → CommandObject → ℕ → State → Option State
command_buf_send fuel config o phase s =
    let make = config.signal_controller_manufacturer in
    let cheng_long_case : Option State =
      send_cheng_long fuel config o phase s >>= λ s'. some (after_send config o phase s') in
    if is_held_back config o s
    then some s
    else if make == cheng_long
    then cheng_long_case
    else if (make == shan_zhu) || (make == shan_zhu_m)
    then some (after_send config o phase (send_shan_zhu config o phase s))
    else some s
