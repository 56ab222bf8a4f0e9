-- ===== src/Signal.antt =====
-- The records that the components share (include/typedefine.h), and what src/config.c and
-- src/application_registration.c hold for them.
use vips_adaptive_traffi.Common.{ℕ, zero, suc, Bool, false, List, [], Bytes, get_or, ℤ, pos}

-- `vehicle_type_t`.
pub data VehicleType : Type 0 where
  vehicle_normal vehicle_ambulance vehicle_bus vehicle_fire_truck vehicle_police_car : VehicleType

-- `static_plan_t`: the steps 2 to 5 of a subphase are bytes, the green times 16 bits wide.
pub record StaticPlan : Type 0 where
  pub ped_green_flash : ℕ
  pub ped_red : ℕ
  pub yellow : ℕ
  pub all_red : ℕ
  pub pre_green : ℕ
  pub pre_time_compensated : ℕ
  pub green : ℕ
  pub max_green : ℕ
  pub min_green : ℕ

abbrev pub zero_plan : StaticPlan
zero_plan = record {
  ped_green_flash = 0;
  ped_red = 0;
  yellow = 0;
  all_red = 0;
  pre_green = 0;
  pre_time_compensated = 0;
  green = 0;
  max_green = 0;
  min_green = 0;
}

-- The fields of `traffic_signal_status_t` that the modelled code reads or writes.
pub record SignalStatus : Type 0 where
  pub control_strategy : ℕ
  pub sub_phase_id : ℕ
  pub step_id : ℕ
  pub step_sec : ℕ
  pub plan_id : ℕ
  pub phase_order : ℕ
  pub sub_phase_count : ℕ
  pub cycle_time : ℕ
  pub offset : ℕ
  pub plan : List StaticPlan
  pub control_status : ℕ

-- `plan[phase - 1]`. A phase outside 1 to 8 is read outside the array in C; here it is a plan of
-- zeros.
abbrev pub plan_at : SignalStatus → ℕ → StaticPlan
plan_at s zero = zero_plan
plan_at s (suc i) = get_or s.plan i zero_plan

-- `tsc_command_t`: `effect_time` is an `int16_t`, `adjustment` an `int8_t`.
pub record TscCommand : Type 0 where
  pub app_id : ℕ
  pub app_priority : ℕ
  pub target_phase : ℕ
  pub cycle : ℕ
  pub phase : ℕ
  pub effect_time : ℤ
  pub adjustment : ℤ
  pub host_obu_name : Bytes
  pub vehicle_type : VehicleType

-- `tsc_command_t command = {0}`.
abbrev pub zero_command : TscCommand
zero_command = record {
  app_id = 0;
  app_priority = 0;
  target_phase = 0;
  cycle = 0;
  phase = 0;
  effect_time = pos 0;
  adjustment = pos 0;
  host_obu_name = [];
  vehicle_type = vehicle_ambulance;
}

-- `tsc_command_object_t`: both times are bytes.
pub record CommandObject : Type 0 where
  pub app_id : ℕ
  pub app_priority : ℕ
  pub target_phase : ℕ
  pub effect_time : ℕ
  pub adjusted_time : ℕ
  pub host_obu_name : Bytes
  pub vehicle_type : VehicleType
  pub send_flag : Bool

abbrev pub zero_object : CommandObject
zero_object = record {
  app_id = 0;
  app_priority = 0;
  target_phase = 0;
  effect_time = 0;
  adjusted_time = 0;
  host_obu_name = [];
  vehicle_type = vehicle_ambulance;
  send_flag = false;
}

-- `traffic_signal_command_arg_t`, the argument of the callbacks on a sent command.
pub record CommandArg : Type 0 where
  pub control_status : ℕ
  pub phase : ℕ
  pub step : ℕ
  pub effect_time : ℕ
  pub host_obu_name : Bytes

-- `app_obj_t`, as far as the command buffer reads it.
pub record AppObj : Type 0 where
  pub id : ℕ
  pub priority : ℕ
  pub dont_send2tc : ℕ

-- `traffic_signal_controller_manufacturer_t`, and what else a byte may hold.
abbrev pub cheng_long : ℕ
cheng_long = 0

abbrev pub shan_zhu : ℕ
shan_zhu = 1

abbrev pub shan_zhu_m : ℕ
shan_zhu_m = 2

-- The configuration that the command buffer reads. The percentages are floats; the two bounds that
-- are computed from them, already converted to `int16_t`, are functions of the pretime here.
pub record Config : Type 0 where
  pub signal_controller_manufacturer : ℕ
  pub ped_countdown_send : Bool
  pub signal_adjust_lower_bound_active : Bool
  pub signal_adjust_upper_bound_active : Bool
  pub lower_bound : ℕ → ℤ
  pub upper_bound : ℕ → ℤ
  pub tsp : AppObj
  pub evsp : AppObj
  pub app_list : List AppObj
  pub command_tx_callbacks : List ℕ
