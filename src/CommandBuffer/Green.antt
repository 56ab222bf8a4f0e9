-- ===== src/CommandBuffer/Green.antt =====
-- The green time that an accepted command gives (src/traffic_signal_command_buffer.c,
-- `command_buf_insert_effect_time` and `command_buf_insert_adjustment`).
use vips_adaptive_traffi.Common.{
  ℕ, ◌+◌, ◌≤◌, ◌<◌, ◌≡◌, arith, ℤ, pos, negsuc, pos_part, neg_part, ◌+ℤ◌, ◌-ℤ◌, to_u8,
}
use vips_adaptive_traffi.Signal.{TscCommand, StaticPlan, plan_at}
use vips_adaptive_traffi.CommandBuffer.State.{State, object_at, cycle_of}
use vips_adaptive_traffi.CommandBuffer.Slots.{IsShaped}
use vips_adaptive_traffi.CommandBuffer.Insert.{
  insert_accept, raise_effect_time, lower_effect_time, clamp_effect_time, clamp_command,
  command_buf_insert_effect_time,
}
use vips_adaptive_traffi.CommandBuffer.Outcome.{insert_accepted}

-- The limits of a subphase are in order and fit a byte.
pub record IsBytePlan (p : StaticPlan) : Type 0 where
  pub pedestrians_fit : p.ped_green_flash + p.ped_red ≤ p.min_green
  pub limits_ordered : p.min_green ≤ p.max_green
  pub limit_fits : p.max_green < 256

-- With limits in order and below 256 the two 16-bit assignments are exact.
raise_bounds :
    (ped min_green : ℕ) (t : ℤ)
    → ped ≤ min_green
    → min_green < 256
    → (neg_part (raise_effect_time ped min_green t) ≡ 0)
      × (min_green ≤ pos_part (raise_effect_time ped min_green t) + ped)
unfolding raise_effect_time ◌+ℤ◌ ◌-ℤ◌
raise_bounds ped min_green (pos n) h l = ground arith
raise_bounds ped min_green (negsuc n) h l = ground arith

lower_bounds :
    (ped min_green max_green : ℕ) (t : ℤ)
    → ped ≤ min_green
    → min_green ≤ max_green
    → max_green < 256
    → neg_part t ≡ 0
    → min_green ≤ pos_part t + ped
    → (neg_part (lower_effect_time ped max_green t) ≡ 0)
      × (min_green ≤ pos_part (lower_effect_time ped max_green t) + ped)
      × (pos_part (lower_effect_time ped max_green t) + ped ≤ max_green)
unfolding lower_effect_time ◌+ℤ◌ ◌-ℤ◌
lower_bounds ped min_green max_green (pos n) h k l z m = ground arith
lower_bounds ped min_green max_green (negsuc n) h k l z m = absurd (omega arith)

clamp_bounds :
    (ped min_green max_green : ℕ) (t : ℤ)
    → ped ≤ min_green
    → min_green ≤ max_green
    → max_green < 256
    → (neg_part (clamp_effect_time ped min_green max_green t) ≡ 0)
      × (min_green ≤ pos_part (clamp_effect_time ped min_green max_green t) + ped)
      × (pos_part (clamp_effect_time ped min_green max_green t) + ped ≤ max_green)
unfolding clamp_effect_time
clamp_bounds ped min_green max_green t h k l =
    let r = raise_bounds ped min_green t h (omega (arith, k, l)) in
    lower_bounds ped min_green max_green (raise_effect_time ped min_green t) h k l r.0 r.1

-- A byte is stored as it is.
to_u8-byte : (t : ℤ) → neg_part t ≡ 0 → pos_part t < 256 → to_u8 t ≡ pos_part t
to_u8-byte (pos n) h k = omega arith
to_u8-byte (negsuc n) h k = absurd (omega arith)

-- Whatever time an application asks for, the object of an accepted command holds a time that, with
-- the pedestrian steps, lies between the minimum and the maximum green of its subphase. The array
-- has its shape; the limits are in order, fit a byte, and are not below the pedestrian steps.
pub inserted_green_bounds :
    (c : TscCommand) (s : State)
    → IsShaped s.command_buf
    → IsBytePlan (plan_at s.signal_status c.phase)
    → (command_buf_insert_effect_time c s).0 ≡ insert_accept
    → let p = plan_at s.signal_status c.phase in
      let s' = (command_buf_insert_effect_time c s).1 in
      let t = (object_at s'.command_buf (cycle_of s c.cycle) c.phase).effect_time in
      (p.min_green ≤ t + (p.ped_green_flash + p.ped_red))
      × (t + (p.ped_green_flash + p.ped_red) ≤ p.max_green)
unfolding clamp_command
inserted_green_bounds c s shaped limits h =
    let b =
      clamp_bounds ped p.min_green p.max_green c.effect_time limits.pedestrians_fit
        limits.limits_ordered limits.limit_fits in
    let byte = to_u8-byte t b.0 (omega (arith, b, limits.limit_fits)) in
    rw ((insert_accepted c s shaped h).time_stored, byte) (b.1, b.2)
  where
    p : StaticPlan
    p = plan_at s.signal_status c.phase

    ped : ℕ
    ped = p.ped_green_flash + p.ped_red

    t : ℤ
    t = clamp_effect_time ped p.min_green p.max_green c.effect_time
