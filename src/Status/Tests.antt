-- ===== src/Status/Tests.antt =====
-- A crossing with two subphases that takes in its plan, and the properties of the handlers at it.
use vips_adaptive_traffi.Common.{
  ◌≡◌, refl, true, false, [], ◌∷◌, map, take, replicate, arith, Bytes, pos, ◌-ℤ◌,
}
use vips_adaptive_traffi.Signal.{StaticPlan}
use vips_adaptive_traffi.CommandBuffer.State.{empty_buf}
use vips_adaptive_traffi.CommandBuffer.Insert.{is_in_compensation}
use vips_adaptive_traffi.Status.Update.{Status, packet_5FC8, packet_5FC4}
use vips_adaptive_traffi.Status.Decode.{frame_5FC8, packet_5FC8-frame_5FC8}
use vips_adaptive_traffi.Status.Mismatch.{packet_5FC8-is_in_compensation}
use vips_adaptive_traffi.Compensation.Start.{Day, get_nearly_segment}
use vips_adaptive_traffi.Status.Clock.{
  Segment, Clock, set_lights, set_phaseorder, packet_5FC3, packet_5FC6, packet_0FC2, packet_0F04,
}
use vips_adaptive_traffi.Status.Segments.{
  frame_5FC6, segments_of, last_started, packet_5FC6-nearly_segment,
}

abbrev known_plan : StaticPlan
known_plan = record {
  ped_green_flash = 0;
  ped_red = 0;
  yellow = 0;
  all_red = 0;
  pre_green = 0;
  pre_time_compensated = 0;
  green = 40;
  max_green = 0;
  min_green = 0;
}

abbrev known_status : Status
known_status = record {
  core = record {
    command_buf = empty_buf;
    cycle_index = 0;
    prior_cycle_index = 0;
    prior_sub_phase_id = 1;
    prior_step_id = 1;
    prior_step_sec = 10;
    pretimeflag = true;
    ped_countdown = 1;
    activate_amount = 0;
    compensation_buffer = replicate 8 0;
    signal_status = record {
      control_strategy = 1;
      sub_phase_id = 1;
      step_id = 1;
      step_sec = 9;
      plan_id = 0;
      phase_order = 0;
      sub_phase_count = 0;
      cycle_time = 0;
      offset = 0;
      plan = replicate 8 known_plan;
      control_status = 0;
    };
    tx = record { seq_num = 0; written = [] };
    calls = [];
  };
  flag_switch2next_step = false;
  count_5F43 = 0;
  errors = [];
}

abbrev plan_frame : Bytes
plan_frame = frame_5FC8 3 0 0x40 (40 ∷ 300 ∷ []) 360 20 []

packet_5FC8-frame_5FC8_example :
    let t = (packet_5FC8 plan_frame known_status).core.signal_status in
    (t.plan_id ≡ 3)
    × (t.phase_order ≡ 0x40)
    × (t.sub_phase_count ≡ 2)
    × (take 2 (map (λ p. p.green) t.plan) ≡ 40 ∷ 300 ∷ [])
    × (t.cycle_time ≡ 360)
    × (t.offset ≡ 20)
packet_5FC8-frame_5FC8_example =
    packet_5FC8-frame_5FC8 3 0 0x40 (40 ∷ 300 ∷ []) 360 20 [] known_status (omega arith)

-- 5FC4 for one subphase: a green of 10 to 60 seconds, 3 of yellow, 2 of red, and 5 of flashing
-- green and 3 of red for the pedestrians.
abbrev limits_frame : Bytes
limits_frame = 0x5F ∷ 0xC4 ∷ 3 ∷ 1 ∷ 10 ∷ 0 ∷ 60 ∷ 3 ∷ 2 ∷ 5 ∷ 3 ∷ []

packet_5FC8-is_in_compensation_example :
    is_in_compensation (packet_5FC8 plan_frame (packet_5FC4 limits_frame known_status)).core ≡ true
packet_5FC8-is_in_compensation_example =
    packet_5FC8-is_in_compensation limits_frame plan_frame known_status 0 refl refl (omega arith)
      (omega arith) (omega arith) refl (omega arith) (omega arith) (omega arith)

abbrev night : Segment
night = record { start = record { hour = 0; minute = 0 }; plan_id = 1 }

abbrev morning : Segment
morning = record { start = record { hour = 6; minute = 30 }; plan_id = 2 }

abbrev evening : Segment
evening = record { start = record { hour = 20; minute = 0 }; plan_id = 1 }

abbrev known_clock : Clock
known_clock = record {
  year = 115;
  month = 1;
  day = 31;
  week = 6;
  hour = 8;
  minute = 0;
  second = 0;
  tc_time_offset = pos 0;
  original_tc_health_status = 0;
  signal_map = 0;
  signal_count = 0;
  phaseorder_plan = replicate 8 (replicate 8 0);
  segment_type = 0;
  segment_count = 0;
  allday_plan = replicate 48 night;
  count_0F42 = 0;
  count_5F46 = 0;
}

-- Eight o'clock in the morning.
abbrev at_eight : Day
at_eight = record { tm_hour = 8; tm_min = 0; tm_sec = 0; tc_time_offset = pos 0; allday_plan = [] }

packet_5FC6-nearly_segment_example :
    let after = packet_5FC6 (frame_5FC6 1 (night ∷ morning ∷ evening ∷ []) []) known_clock in
    (after.segment_type ≡ 1)
    × (after.segment_count ≡ 3)
    × (segments_of after ≡ night ∷ morning ∷ evening ∷ [])
    × (get_nearly_segment at_eight (map (λ s. s.start) (segments_of after))
        ≡ last_started 480 night.start (morning.start ∷ evening.start ∷ []))
packet_5FC6-nearly_segment_example =
    packet_5FC6-nearly_segment 1 night (morning ∷ evening ∷ []) [] known_clock at_eight
      (omega arith) ((omega arith, tt), (tt, tt))

-- It is the morning's.
last_started-morning :
    last_started 480 night.start (morning.start ∷ evening.start ∷ []) ≡ morning.start
last_started-morning = refl

-- The controller is 61 seconds ahead of 7:58:59.
packet_0FC2-offset :
    (packet_0FC2 7 58 59
      (0x0F ∷ 0xC2 ∷ 115 ∷ 1 ∷ 31 ∷ 6 ∷ 8 ∷ 0 ∷ 0 ∷ [])
      known_clock).tc_time_offset
    ≡ pos 61
unfolding packet_0FC2 ◌-ℤ◌
packet_0FC2-offset = refl

-- Two subphases with two lights each.
packet_5FC3-lights :
    map (take 2) (
      take 2
        (packet_5FC3
          (0x5F ∷ 0xC3 ∷ 0x40 ∷ 5 ∷ 2 ∷ 0 ∷ 10 ∷ 11 ∷ 12 ∷ 13 ∷ [])
          (packet_5FC8 plan_frame known_status, known_clock)).1.phaseorder_plan)
    ≡ (10 ∷ 11 ∷ []) ∷ (12 ∷ 13 ∷ []) ∷ []
unfolding packet_5FC3 packet_5FC8 set_phaseorder set_lights
packet_5FC3-lights = refl

packet_0F04-high_first :
    (packet_0F04 (0x0F ∷ 0x04 ∷ 0x9d ∷ 0x13 ∷ []) known_clock).original_tc_health_status ≡ 0x9d13
unfolding packet_0F04
packet_0F04-high_first = refl
