-- ===== src/Status/Clock.antt =====
-- The handlers of the frames 5FC3, 5FC6, 0FC2 and 0F04, and the readers of the status that compute
-- something (src/traffic_signal_status_updating.c): get_remaining_time, get_next_SubPhaseID and
-- get_prev_SubPhaseID.
use vips_adaptive_traffi.Common.{
  ℕ, zero, suc, ◌+◌, ◌*◌, List, [], ◌∷◌, Bytes, ◌==◌, if◌then◌else◌, ℤ, pos, ◌-ℤ◌, u8, u16, to_u8,
}
use vips_adaptive_traffi.Signal.{SignalStatus, plan_at}
use vips_adaptive_traffi.Compensation.Start.{AllDayPlan}
use vips_adaptive_traffi.Status.Update.{Status, byte_at, word_at}

-- `AllDay_plan_t`.
pub record Segment : Type 0 where
  pub start : AllDayPlan
  pub plan_id : ℕ

-- The fields of `traffic_signal_status_t` of these frames, with the counts of `guarenteed_cmd_set`.
pub record Clock : Type 0 where
  pub year : ℕ
  pub month : ℕ
  pub day : ℕ
  pub week : ℕ
  pub hour : ℕ
  pub minute : ℕ
  pub second : ℕ
  pub tc_time_offset : ℤ
  pub original_tc_health_status : ℕ
  pub signal_map : ℕ
  pub signal_count : ℕ
  pub phaseorder_plan : List (List ℕ)
  pub segment_type : ℕ
  pub segment_count : ℕ
  pub allday_plan : List Segment
  pub count_0F42 : ℕ
  pub count_5F46 : ℕ

-- A reply is noted unless one is noted already.
abbrev pub noted : ℕ → ℕ
noted count = if count == 0 then 1 else count

-- The lights of one subphase, and of n subphases, with m each. The arrays have room for those of
-- the lists.
unfoldable pub set_lights : ℕ → ℕ → Bytes → List ℕ → List ℕ
set_lights zero j info ls = ls
set_lights (suc m) j info [] = []
set_lights (suc m) j info (l ∷ ls) = byte_at info j ∷ set_lights m (suc j) info ls

unfoldable pub set_phaseorder : ℕ → ℕ → ℕ → Bytes → List (List ℕ) → List (List ℕ)
set_phaseorder zero m j info rows = rows
set_phaseorder (suc n) m j info [] = []
set_phaseorder (suc n) m j info (ls ∷ rows) =
    set_lights m j info ls ∷ set_phaseorder n m (j + m) info rows

unfoldable pub packet_5FC3 : Bytes → Status × Clock → Status × Clock
packet_5FC3 info s =
    let t = s.0.core.signal_status in
    let m = byte_at info 4 in
    (
      record (s.0) { count_5F43 = if byte_at info 2 == t.phase_order then 1 else s.0.count_5F43 },
      record (s.1) {
        signal_map = byte_at info 3;
        signal_count = m;
        phaseorder_plan = set_phaseorder t.sub_phase_count m 6 info s.1.phaseorder_plan;
      },
    )

-- The loop over the next n segments; the array has room for those of the list.
unfoldable pub set_segments : ℕ → ℕ → Bytes → List Segment → List Segment
set_segments zero j info ss = ss
set_segments (suc n) j info [] = []
set_segments (suc n) j info (s ∷ ss) =
    record {
      start = record { hour = byte_at info j; minute = byte_at info (j + 1) };
      plan_id = byte_at info (j + 2);
    }
    ∷ set_segments n (j + 3) info ss

unfoldable pub packet_5FC6 : Bytes → Clock → Clock
packet_5FC6 info c =
    let n = byte_at info 3 in
    record c {
      segment_type = byte_at info 2;
      segment_count = n;
      allday_plan = set_segments n 4 info c.allday_plan;
      count_5F46 = noted c.count_5F46;
    }

-- The controller's time, and its difference from the local time, given by hour, minute and second.
unfoldable pub packet_0FC2 : ℕ → ℕ → ℕ → Bytes → Clock → Clock
packet_0FC2 tm_hour tm_min tm_sec info c = record c {
  year = byte_at info 2;
  month = byte_at info 3;
  day = byte_at info 4;
  week = byte_at info 5;
  hour = byte_at info 6;
  minute = byte_at info 7;
  second = byte_at info 8;
  tc_time_offset =
      pos ((byte_at info 6 * 60 + byte_at info 7) * 60 + byte_at info 8)
      -ℤ pos ((tm_hour * 60 + tm_min) * 60 + tm_sec);
  count_0F42 = noted c.count_0F42;
}

-- The masked status is only logged.
unfoldable pub packet_0F04 : Bytes → Clock → Clock
packet_0F04 info c = record c { original_tc_health_status = word_at info 2 }

unfoldable pub get_remaining_time : SignalStatus → ℕ → ℕ → ℕ → ℕ
get_remaining_time s phase step second =
    let p = plan_at s phase in
    u16 (
      if step == 1
      then second + p.ped_green_flash + p.yellow + p.ped_red + p.all_red
      else if step == 2
      then second + p.yellow + p.ped_red + p.all_red
      else if step == 3
      then second + p.ped_red + p.all_red
      else if step == 4
      then second + p.all_red
      else second)

unfoldable pub get_next_sub_phase_id : SignalStatus → ℕ
get_next_sub_phase_id s = if s.sub_phase_id == s.sub_phase_count then 1 else u8 (s.sub_phase_id + 1)

unfoldable pub get_prev_sub_phase_id : SignalStatus → ℕ
get_prev_sub_phase_id s =
    let prev = to_u8 (pos s.sub_phase_id -ℤ pos 1) in if prev == 0 then s.sub_phase_count else prev
