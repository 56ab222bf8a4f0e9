-- ===== src/Status/Update.antt =====
-- The handlers of the frames 5FCC, 5FC8, 5FC5, 5FC4 and 5F0C (src/traffic_signal_status_updating.c),
-- by the INFO bytes of the frame. The semaphore that readers wait for, and the logging, are left
-- out, and so is PhaseOrder_initial, which nothing reads.
use vips_adaptive_traffi.Common.{
  ℕ, zero, suc, ◌+◌, ◌*◌, Bool, true, not, ◌&&◌, List, [], ◌∷◌, ◌++◌, Bytes, get_or, ltb, leb, ◌==◌,
  if◌then◌else◌, pos, ◌-ℤ◌, to_u16,
}
use vips_adaptive_traffi.Signal.{StaticPlan, SignalStatus}
use vips_adaptive_traffi.Serial.Packet.{be16}
use vips_adaptive_traffi.CommandBuffer.State.{State, update_cycle_index, command_buf_clear}

-- The calls of src/error_status.c.
pub data ErrorCall : Type 0 where
  set_655xx_error clear_655xx_error clear_tsc_5fcc_error : ErrorCall

-- The command buffer, which holds the signal status, with `flag_switch2nextStep`, the count of
-- `guarenteed_cmd_set` for 5F43, and the calls made.
pub record Status : Type 0 where
  pub core : State
  pub flag_switch2next_step : Bool
  pub count_5F43 : ℕ
  pub errors : List ErrorCall

-- `INFO[i]` and the number of 16 bits that starts there.
abbrev pub byte_at : Bytes → ℕ → ℕ
byte_at info i = get_or info i 0

abbrev pub word_at : Bytes → ℕ → ℕ
word_at info i = be16 (byte_at info i) (byte_at info (i + 1))

abbrev pub with_status : (SignalStatus → SignalStatus) → State → State
with_status f c = record c { signal_status = f c.signal_status }

-- The control strategies of CHENG_LONG by those of SHAN_ZHU.
unfoldable pub map_strategy : ℕ → ℕ → ℕ
map_strategy manufacturer strategy =
    if (manufacturer == 0) && (strategy == 21)
    then 16
    else if (manufacturer == 0) && (strategy == 5)
    then 1
    else strategy

-- The subphase of a frame, unless it is 0 or the step is 5; a smaller one begins a new cycle.
unfoldable pub take_phase : ℕ → ℕ → State → State
take_phase phase step c =
    let c' = if ltb phase c.signal_status.sub_phase_id then update_cycle_index c else c in
    if not (phase == 0) && not (step == 5)
    then with_status (λ t. record t { sub_phase_id = phase }) c'
    else c

unfoldable pub packet_5FCC : ℕ → Bytes → Status → Status
packet_5FCC manufacturer info s =
    let strategy = map_strategy manufacturer (byte_at info 2) in
    let step = byte_at info 4 in
    let sec = word_at info 5 in
    let c = with_status (λ t. record t { control_strategy = strategy }) s.core in
    let c' = take_phase (byte_at info 3) step c in
    let late = ltb 255 sec && (step == 1) in
    let in_time = leb sec 255 && (step == 1) in
    record s {
      core = with_status (λ t. record t { step_id = step; step_sec = sec }) c';
      flag_switch2next_step = if late then true else s.flag_switch2next_step;
      errors =
          s.errors
          ++ (if late
              then set_655xx_error ∷ clear_tsc_5fcc_error ∷ []
              else if in_time
              then clear_655xx_error ∷ clear_tsc_5fcc_error ∷ []
              else clear_tsc_5fcc_error ∷ []);
    }

-- The loops over the first n subphases; the array has room for those of the list.
unfoldable pub set_greens : ℕ → ℕ → Bytes → List StaticPlan → List StaticPlan
set_greens zero j info ps = ps
set_greens (suc n) j info [] = []
set_greens (suc n) j info (p ∷ ps) =
    record p { green = word_at info j } ∷ set_greens n (j + 2) info ps

unfoldable pub compensated : StaticPlan → StaticPlan
compensated p = record p {
  pre_time_compensated = to_u16 (pos p.green -ℤ pos p.ped_green_flash -ℤ pos p.ped_red);
}

unfoldable pub set_compensated : ℕ → List StaticPlan → List StaticPlan
set_compensated zero ps = ps
set_compensated (suc n) [] = []
set_compensated (suc n) (p ∷ ps) = compensated p ∷ set_compensated n ps

-- The seven bytes of a subphase in 5FC4.
unfoldable pub limits_from : Bytes → ℕ → StaticPlan → StaticPlan
limits_from info j p = record p {
  min_green = byte_at info j;
  max_green = word_at info (j + 1);
  yellow = byte_at info (j + 3);
  all_red = byte_at info (j + 4);
  ped_green_flash = byte_at info (j + 5);
  ped_red = byte_at info (j + 6);
  pre_green = to_u16 (pos p.green -ℤ pos (byte_at info (j + 5)));
}

unfoldable pub set_limits : ℕ → ℕ → Bytes → List StaticPlan → List StaticPlan
set_limits zero j info ps = ps
set_limits (suc n) j info [] = []
set_limits (suc n) j info (p ∷ ps) = limits_from info j p ∷ set_limits n (j + 7) info ps

-- A new phase order makes the commands in the buffer meaningless.
unfoldable pub clear_if_new_order : ℕ → Status → Status
clear_if_new_order order s =
    if s.core.signal_status.phase_order == order
    then s
    else record s { core = command_buf_clear s.core; count_5F43 = 0 }

unfoldable pub packet_5FC8 : Bytes → Status → Status
packet_5FC8 info s =
    let n = byte_at info 5 in
    let s' = clear_if_new_order (byte_at info 4) s in
    record s' {
      core =
          with_status
            (λ t. record t {
              plan_id = byte_at info 2;
              phase_order = byte_at info 4;
              sub_phase_count = n;
              plan = set_compensated n (set_greens n 6 info t.plan);
              cycle_time = word_at info (6 + n * 2);
              offset = word_at info (8 + n * 2);
            })
            s'.core;
    }

unfoldable pub packet_5FC5 : Bytes → Status → Status
packet_5FC5 info s =
    let n = byte_at info 5 in
    let s' = clear_if_new_order (byte_at info 4) s in
    record s' {
      core =
          with_status
            (λ t. record t {
              phase_order = byte_at info 4;
              sub_phase_count = n;
              plan = set_greens n 6 info t.plan;
              cycle_time = word_at info (6 + n * 2);
              offset = word_at info (8 + n * 2);
            })
            s'.core;
    }

unfoldable pub packet_5FC4 : Bytes → Status → Status
packet_5FC4 info s =
    let n = byte_at info 3 in
    record s {
      core =
          with_status (λ t. record t { sub_phase_count = n; plan = set_limits n 4 info t.plan })
            s.core;
    }

-- Here the control strategy is taken as it is.
unfoldable pub packet_5F0C : Bytes → Status → Status
packet_5F0C info s = record s {
  core =
      with_status
        (λ t. record t {
          control_strategy = byte_at info 2;
          sub_phase_id = byte_at info 3;
          step_id = byte_at info 4;
        })
        s.core;
  errors = s.errors ++ (clear_tsc_5fcc_error ∷ []);
}
