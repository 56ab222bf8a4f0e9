-- ===== src/MsgBuf/Report.antt =====
-- report_plan of src/traffic_signal_status_updating.c: the report of the signal status that goes to
-- the vehicles. The locking and the allocation are left out; a plan outside the array is a plan of
-- zeros.
use vips_adaptive_traffi.Common.{
  ℕ, zero, suc, ◌+◌, ◌*◌, ◌≤◌, ◌≡◌, refl, sym, ap, ◌∙◌, List, [], ◌∷◌, ◌++◌, Bytes, true, all, map,
  drop, get_or, replicate, length-replicate, arith,
}
use vips_adaptive_traffi.Signal.{StaticPlan, SignalStatus, plan_at}
use vips_adaptive_traffi.MsgBuf.Bytes.{MsgBuf}
use vips_adaptive_traffi.MsgBuf.Fields.{
  Field, field_8, field_16, field_32, Width, byte, word, kind, fits, widths, write_fields,
  read_fields, read_fields-write_fields, write_fields-index,
}

abbrev pub r2v_specific_field_max_len : ℕ
r2v_specific_field_max_len = 1000

-- What a plan writes, behind its number.
abbrev pub plan_fields : ℕ → StaticPlan → List Field
plan_fields i p =
    field_8 i
    ∷ field_16 p.green
    ∷ field_8 p.yellow
    ∷ field_8 p.all_red
    ∷ field_8 p.ped_green_flash
    ∷ field_8 p.ped_red
    ∷ field_16 p.max_green
    ∷ field_8 p.min_green
    ∷ []

-- The next plans, of which there are n, after the first i.
abbrev pub plans_fields : ℕ → ℕ → SignalStatus → List Field
plans_fields zero i s = []
plans_fields (suc n) i s = plan_fields (i + 1) (plan_at s (suc i)) ++ plans_fields n (suc i) s

-- The numbers that are written, in order.
abbrev pub report_fields : SignalStatus → List Field
report_fields s =
    (field_8 s.control_status
      ∷ field_8 s.sub_phase_id
      ∷ field_8 s.step_id
      ∷ field_16 s.step_sec
      ∷ field_8 s.phase_order
      ∷ field_8 s.plan_id
      ∷ field_16 s.cycle_time
      ∷ field_16 s.offset
      ∷ field_8 s.sub_phase_count
      ∷ [])
    ++ plans_fields s.sub_phase_count 0 s

abbrev empty_buf : MsgBuf
empty_buf = record { content = replicate r2v_specific_field_max_len 0; index = 0 }

-- The length and the content that go to OBU_packet_tx.
unfoldable pub report_plan : SignalStatus → ℕ × Bytes
unfolding write_fields
report_plan s =
    let written = write_fields (report_fields s) empty_buf in (written.index, written.content)

-- The widths in a report of n plans.
abbrev plans_widths : ℕ → List Width
plans_widths zero = []
plans_widths (suc n) = byte ∷ word ∷ byte ∷ byte ∷ byte ∷ byte ∷ word ∷ byte ∷ plans_widths n

abbrev pub report_widths : ℕ → List Width
report_widths n = byte ∷ byte ∷ byte ∷ word ∷ byte ∷ byte ∷ word ∷ word ∷ byte ∷ plans_widths n

kinds-plans : (n i : ℕ) (s : SignalStatus) → map kind (plans_fields n i s) ≡ plans_widths n
kinds-plans zero i s = refl
kinds-plans (suc n) i s =
    ap (λ ws. byte ∷ word ∷ byte ∷ byte ∷ byte ∷ byte ∷ word ∷ byte ∷ ws) (kinds-plans n (suc i) s)

widths-plans : (n i : ℕ) (s : SignalStatus) → widths (plans_fields n i s) ≡ 10 * n
widths-plans zero i s = refl
widths-plans (suc n) i s = omega (arith, widths-plans n (suc i) s)

report_plan-fields :
    (s : SignalStatus)
    → all fits (report_fields s) ≡ true
    → s.sub_phase_count ≤ 8
    → ((report_plan s).0 ≡ 12 + 10 * s.sub_phase_count)
      × (read_fields
            (report_widths s.sub_phase_count)
            (record { content = (report_plan s).1; index = 0 })
          ≡ report_fields s)
unfolding report_plan
report_plan-fields s fit few =
    let n = s.sub_phase_count in
    let final : MsgBuf = record { content = (report_plan s).1; index = 0 } in
    (
      write_fields-index (report_fields s) empty_buf ∙ omega (arith, widths-plans n 0 s),
      ap
            (λ ws.
              read_fields (byte ∷ byte ∷ byte ∷ word ∷ byte ∷ byte ∷ word ∷ word ∷ byte ∷ ws) final)
            (sym (kinds-plans n 0 s))
          ∙ read_fields-write_fields (report_fields s) empty_buf fit (
              omega (
                arith,
                few,
                widths-plans n 0 s,
                length-replicate {A = ℕ} r2v_specific_field_max_len 0,
              )),
    )

-- What a receiver makes of the report: its numbers by name.
pub record ReportedPlan : Type 0 where
  pub number : ℕ
  pub green : ℕ
  pub yellow : ℕ
  pub all_red : ℕ
  pub ped_green_flash : ℕ
  pub ped_red : ℕ
  pub max_green : ℕ
  pub min_green : ℕ

pub record Report : Type 0 where
  pub control_status : ℕ
  pub sub_phase_id : ℕ
  pub step_id : ℕ
  pub step_sec : ℕ
  pub phase_order : ℕ
  pub plan_id : ℕ
  pub cycle_time : ℕ
  pub offset : ℕ
  pub sub_phase_count : ℕ
  pub plans : List ReportedPlan

abbrev value : Field → ℕ
value (field_8 n) = n
value (field_16 n) = n
value (field_32 n) = n

abbrev value_at : List Field → ℕ → ℕ
value_at fs k = value (get_or fs k (field_8 0))

-- The layout of the report: nine numbers, and eight for each plan.
to_plans : ℕ → List Field → List ReportedPlan
to_plans zero fs = []
to_plans (suc n) fs =
    record {
      number = value_at fs 0;
      green = value_at fs 1;
      yellow = value_at fs 2;
      all_red = value_at fs 3;
      ped_green_flash = value_at fs 4;
      ped_red = value_at fs 5;
      max_green = value_at fs 6;
      min_green = value_at fs 7;
    }
    ∷ to_plans n (drop 8 fs)

to_report : ℕ → List Field → Report
unfolding to_plans
to_report n fs = record {
  control_status = value_at fs 0;
  sub_phase_id = value_at fs 1;
  step_id = value_at fs 2;
  step_sec = value_at fs 3;
  phase_order = value_at fs 4;
  plan_id = value_at fs 5;
  cycle_time = value_at fs 6;
  offset = value_at fs 7;
  sub_phase_count = value_at fs 8;
  plans = to_plans n (drop 9 fs);
}

pub read_report : ℕ → Bytes → Report
read_report n content =
    to_report n (read_fields (report_widths n) (record { content = content; index = 0 }))

-- What a status has to say, by name: the plans from the number `suc i` on.
abbrev pub reported_plans : ℕ → ℕ → SignalStatus → List ReportedPlan
reported_plans zero i s = []
reported_plans (suc n) i s =
    let p = plan_at s (suc i) in
    record {
      number = i + 1;
      green = p.green;
      yellow = p.yellow;
      all_red = p.all_red;
      ped_green_flash = p.ped_green_flash;
      ped_red = p.ped_red;
      max_green = p.max_green;
      min_green = p.min_green;
    }
    ∷ reported_plans n (suc i) s

abbrev pub reported : SignalStatus → Report
reported s = record {
  control_status = s.control_status;
  sub_phase_id = s.sub_phase_id;
  step_id = s.step_id;
  step_sec = s.step_sec;
  phase_order = s.phase_order;
  plan_id = s.plan_id;
  cycle_time = s.cycle_time;
  offset = s.offset;
  sub_phase_count = s.sub_phase_count;
  plans = reported_plans s.sub_phase_count 0 s;
}

to_plans-reported :
    (n i : ℕ) (s : SignalStatus) → to_plans n (plans_fields n i s) ≡ reported_plans n i s
unfolding to_plans
to_plans-reported zero i s = refl
to_plans-reported (suc n) i s =
    ap
      (λ ps.
        record {
          number = i + 1;
          green = (plan_at s (suc i)).green;
          yellow = (plan_at s (suc i)).yellow;
          all_red = (plan_at s (suc i)).all_red;
          ped_green_flash = (plan_at s (suc i)).ped_green_flash;
          ped_red = (plan_at s (suc i)).ped_red;
          max_green = (plan_at s (suc i)).max_green;
          min_green = (plan_at s (suc i)).min_green;
        }
        ∷ ps)
      (to_plans-reported n (suc i) s)

with_plans : SignalStatus → List ReportedPlan → Report
with_plans s ps = record (reported s) { plans = ps }

-- A status of at most 8 subphases, for which the array has plans, with numbers in the ranges of their
-- types, is reported in 12 bytes and 10 for each subphase. A receiver that knows the number of the
-- subphases, and reads nine numbers and eight for each plan in the layout of `read_report`, gets every
-- number of the status under its name: the green, yellow, red and pedestrian times of each subphase
-- and the bounds of its green among them.
pub report_plan-read :
    (s : SignalStatus)
    → all fits (report_fields s) ≡ true
    → s.sub_phase_count ≤ 8
    → ((report_plan s).0 ≡ 12 + 10 * s.sub_phase_count)
      × (read_report s.sub_phase_count (report_plan s).1 ≡ reported s)
unfolding read_report to_report with_plans
report_plan-read s fit few =
    let is = report_plan-fields s fit few in
    (
      is.0,
      ap (to_report s.sub_phase_count) is.1
          ∙ ap (with_plans s) (to_plans-reported s.sub_phase_count 0 s),
    )
