-- ===== src/CommandBuffer/Sample.antt =====
-- A crossing with eight equal subphases, and a bus that asks for a longer green.
use vips_adaptive_traffi.Common.{ℕ, true, false, [], ◌∷◌, replicate, arith, pos}
use vips_adaptive_traffi.Signal.{
  StaticPlan, SignalStatus, TscCommand, CommandObject, zero_object, Config, AppObj, vehicle_bus,
}
use vips_adaptive_traffi.CommandBuffer.State.{State, empty_buf}
use vips_adaptive_traffi.CommandBuffer.Slots.{IsShaped}

abbrev pub sample_plan : StaticPlan
sample_plan = record {
  ped_green_flash = 5;
  ped_red = 3;
  yellow = 3;
  all_red = 2;
  pre_green = 30;
  pre_time_compensated = 30;
  green = 35;
  max_green = 60;
  min_green = 10;
}

abbrev pub sample_status : SignalStatus
sample_status = record {
  control_strategy = 1;
  sub_phase_id = 1;
  step_id = 1;
  step_sec = 20;
  plan_id = 1;
  phase_order = 0;
  sub_phase_count = 8;
  cycle_time = 344;
  offset = 0;
  plan = replicate 8 sample_plan;
  control_status = 0;
}

abbrev pub idle_state : State
idle_state = record {
  command_buf = empty_buf;
  cycle_index = 0;
  prior_cycle_index = 0;
  prior_sub_phase_id = 1;
  prior_step_id = 1;
  prior_step_sec = 21;
  pretimeflag = true;
  ped_countdown = 1;
  activate_amount = 0;
  compensation_buffer = replicate 8 0;
  signal_status = sample_status;
  tx = record { seq_num = 0; written = [] };
  calls = [];
}

abbrev pub bus_command : TscCommand
bus_command = record {
  app_id = 2;
  app_priority = 5;
  target_phase = 1;
  cycle = 0;
  phase = 1;
  effect_time = pos 90;
  adjustment = pos 0;
  host_obu_name = b'B' ∷ b'U' ∷ b'S' ∷ [];
  vehicle_type = vehicle_bus;
}

abbrev pub bus_object : CommandObject
bus_object = record {
  app_id = 2;
  app_priority = 5;
  target_phase = 1;
  effect_time = 52;
  adjusted_time = 30;
  host_obu_name = b'B' ∷ b'U' ∷ b'S' ∷ [];
  vehicle_type = vehicle_bus;
  send_flag = false;
}

-- The state with the bus's object for the running subphase.
abbrev pub ready_state : State
ready_state = record idle_state {
  command_buf =
      (bus_object ∷ replicate 7 zero_object)
      ∷ replicate 8 zero_object
      ∷ replicate 8 zero_object
      ∷ [];
}

pub ready_buf-IsShaped : IsShaped ready_state.command_buf
ready_buf-IsShaped = omega arith

abbrev pub sample_app : ℕ → AppObj
sample_app n = record { id = n; priority = 1; dont_send2tc = 0 }

abbrev pub sample_config : ℕ → Config
sample_config make = record {
  signal_controller_manufacturer = make;
  ped_countdown_send = true;
  signal_adjust_lower_bound_active = false;
  signal_adjust_upper_bound_active = false;
  lower_bound = λ n. pos n;
  upper_bound = λ n. pos n;
  tsp = sample_app 2;
  evsp = sample_app 3;
  app_list = sample_app 2 ∷ sample_app 3 ∷ [];
  command_tx_callbacks = 2 ∷ [];
}
