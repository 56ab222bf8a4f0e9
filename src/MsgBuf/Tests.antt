-- ===== src/MsgBuf/Tests.antt =====
-- Reports and numbers in message buffers.
use vips_adaptive_traffi.Common.{◌+◌, ◌*◌, ◌≡◌, refl, [], ◌∷◌, take, replicate, arith, negsuc}
use vips_adaptive_traffi.Signal.{StaticPlan, SignalStatus}
use vips_adaptive_traffi.MsgBuf.Bytes.{
  MsgBuf, read_int8_t, write_char, write_uint8_t, write_uint16_t,
}
use vips_adaptive_traffi.MsgBuf.Fields.{write_field}
use vips_adaptive_traffi.MsgBuf.Report.{report_plan, read_report, reported, report_plan-read}

abbrev main_road : StaticPlan
main_road = record {
  ped_green_flash = 5;
  ped_red = 3;
  yellow = 3;
  all_red = 2;
  pre_green = 40;
  pre_time_compensated = 40;
  green = 300;
  max_green = 310;
  min_green = 10;
}

abbrev status : SignalStatus
status = record {
  control_strategy = 1;
  sub_phase_id = 2;
  step_id = 1;
  step_sec = 258;
  plan_id = 3;
  phase_order = 0x40;
  sub_phase_count = 2;
  cycle_time = 626;
  offset = 20;
  plan = main_road ∷ main_road ∷ [];
  control_status = 1;
}

report_plan-read_example :
    ((report_plan status).0 ≡ 12 + 10 * 2)
    × (read_report 2 (report_plan status).1 ≡ reported status)
report_plan-read_example = report_plan-read status refl (omega arith)

-- The bytes of the report.
report_plan-bytes :
    take 24 (report_plan status).1
    ≡ 1 ∷ 2 ∷ 1 ∷ 1 ∷ 2 ∷ 0x40 ∷ 3 ∷ 2 ∷ 114 ∷ 0 ∷ 20 ∷ 2 ∷ 1 ∷ 1 ∷ 44 ∷ 3 ∷ 2 ∷ 5 ∷ 3 ∷ 1 ∷ 54 ∷ 10
      ∷ 2 ∷ 1 ∷ []
unfolding report_plan write_field write_uint8_t write_uint16_t
report_plan-bytes = refl

abbrev blank_buf : MsgBuf
blank_buf = record { content = replicate 6 0; index = 1 }

-- Four characters with blanks behind them.
write_char-blanks :
    (write_char (b'a' ∷ b'b' ∷ []) 4 blank_buf).content ≡ 0 ∷ b'a' ∷ b'b' ∷ b' ' ∷ b' ' ∷ 0 ∷ []
unfolding write_char
write_char-blanks = refl

read_int8_t-negative : (read_int8_t (record { content = 255 ∷ []; index = 0 })).0 ≡ negsuc 0
unfolding read_int8_t
read_int8_t-negative = refl
