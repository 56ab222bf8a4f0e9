-- ===== src/Status/Mismatch.antt =====
-- The two planned times of a subphase, and the test for a running compensation that compares them
-- (src/traffic_signal_status_updating.c, src/traffic_compensation.c).
use vips_adaptive_traffi.Common.{
  ℕ, suc, ◌+◌, ◌*◌, ◌<◌, ◌≡◌, ap, ◌∙◌, true, not, ◌&&◌, List, Bytes, length, get_or, arith, ltb,
  ◌==◌, ◌-ℤ◌,
}
use vips_adaptive_traffi.Signal.{StaticPlan, zero_plan}
use vips_adaptive_traffi.CommandBuffer.State.{State, command_buf_clear}
use vips_adaptive_traffi.CommandBuffer.Insert.{is_in_compensation}
use vips_adaptive_traffi.Status.Update.{
  Status, byte_at, word_at, compensated, set_compensated, limits_from, set_greens, set_limits,
  clear_if_new_order, packet_5FC8, packet_5FC4,
}
use vips_adaptive_traffi.Status.Plans.{
  get_or-set_greens, get_or-set_compensated, get_or-set_limits, length-set_greens,
  length-set_limits,
}

pub clear_if_new_order-status :
    (order : ℕ) (s : Status)
    → (clear_if_new_order order s).core.signal_status ≡ s.core.signal_status
unfolding clear_if_new_order command_buf_clear
clear_if_new_order-status order s = ground arith

-- The test reads one plan.
compensation_of :
    (s : State) (k : ℕ) (q : StaticPlan)
    → s.signal_status.control_strategy ≡ 1
    → s.signal_status.sub_phase_id ≡ suc k
    → get_or s.signal_status.plan k zero_plan ≡ q
    → (ltb 0 q.pre_time_compensated && not (q.pre_green == q.pre_time_compensated)) ≡ true
    → is_in_compensation s ≡ true
unfolding is_in_compensation
compensation_of s k q h1 h2 h3 h4 = rw (h1, h2, h3) h4

times_differ :
    (info : Bytes) (j : ℕ) (p : StaticPlan)
    → 0 < byte_at info (j + 6)
    → byte_at info (j + 5) + byte_at info (j + 6) < p.green
    → p.green < 65536
    → let q = compensated (limits_from info j p) in
      (ltb 0 q.pre_time_compensated && not (q.pre_green == q.pre_time_compensated)) ≡ true
unfolding compensated limits_from ◌-ℤ◌
times_differ info j p h k l = ground arith

-- The frame 5FC4 plans step 1 as the green without the flashing green of the pedestrians, the
-- frame 5FC8 without their red as well. So for every running subphase that the two frames cover
-- and whose pedestrians have a red time, with pedestrian steps shorter than its 16-bit green, a
-- controller that runs its own plan (strategy 1) counts as compensating after the two frames,
-- though the second repeats the green that is known.
pub packet_5FC8-is_in_compensation :
    (info_4 info_8 : Bytes) (s : Status) (k : ℕ)
    → s.core.signal_status.control_strategy ≡ 1
    → s.core.signal_status.sub_phase_id ≡ suc k
    → k < length s.core.signal_status.plan
    → k < byte_at info_4 3
    → k < byte_at info_8 5
    → word_at info_8 (6 + k * 2) ≡ (get_or s.core.signal_status.plan k zero_plan).green
    → (get_or s.core.signal_status.plan k zero_plan).green < 65536
    → 0 < byte_at info_4 (4 + k * 7 + 6)
    → byte_at info_4 (4 + k * 7 + 5) + byte_at info_4 (4 + k * 7 + 6)
      < (get_or s.core.signal_status.plan k zero_plan).green
    → is_in_compensation (packet_5FC8 info_8 (packet_5FC4 info_4 s)).core ≡ true
unfolding packet_5FC8 packet_5FC4 limits_from
packet_5FC8-is_in_compensation info_4 info_8 s k h1 h2 there in_4 in_8 same word red fits =
    compensation_of _ k (compensated (limits_from info_4 j p))
      (ap (λ t. t.control_strategy) kept ∙ h1) (ap (λ t. t.sub_phase_id) kept ∙ h2)
      (ap (λ t. get_or (set_compensated n (set_greens n 6 info_8 t.plan)) k zero_plan) kept
        ∙ planned)
      (times_differ info_4 j p red fits word)
  where
    n : ℕ
    n = byte_at info_8 5

    j : ℕ
    j = 4 + k * 7

    ps : List StaticPlan
    ps = s.core.signal_status.plan

    p : StaticPlan
    p = get_or ps k zero_plan

    qs : List StaticPlan
    qs = set_limits (byte_at info_4 3) 4 info_4 ps

    kept :
        (clear_if_new_order (byte_at info_8 4) (packet_5FC4 info_4 s)).core.signal_status
        ≡ (packet_5FC4 info_4 s).core.signal_status
    kept = clear_if_new_order-status (byte_at info_8 4) (packet_5FC4 info_4 s)

    planned :
        get_or (set_compensated n (set_greens n 6 info_8 qs)) k zero_plan
        ≡ compensated (limits_from info_4 j p)
    planned =
        let long = length-set_limits (byte_at info_4 3) 4 info_4 ps in
        let longer = length-set_greens n 6 info_8 qs in
        get_or-set_compensated n (set_greens n 6 info_8 qs) k in_8
          (omega (arith, long, longer, there))
        ∙ ap compensated (get_or-set_greens n 6 info_8 qs k in_8 (omega (arith, long, there)))
        ∙ ap (λ q. compensated (record q { green = word_at info_8 (6 + k * 2) }))
            (get_or-set_limits (byte_at info_4 3) 4 info_4 ps k in_4 there)
        ∙ ap (λ g. compensated (record (limits_from info_4 j p) { green = g })) same
