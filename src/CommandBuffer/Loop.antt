-- ===== src/CommandBuffer/Loop.antt =====
-- The loop for CHENG_LONG in `command_buf_send` (src/traffic_signal_command_buffer.c).
use vips_adaptive_traffi.Common.{
  ◌∙◌, ℕ, zero, suc, ◌+◌, ◌-◌, ◌≤◌, ◌<◌, ◌≡◌, ◌≢◌, refl, true, false, some, none, arith, ltb_ℤ, ℤ,
  pos, negsuc, pos_part, neg_part, ◌+ℤ◌, ◌-ℤ◌, to_u8, ap,
}
use vips_adaptive_traffi.Signal.{CommandObject, Config, plan_at}
use vips_adaptive_traffi.Serial.Tx.{Tx, tsc_extend, tsc_dynamic}
use vips_adaptive_traffi.CommandBuffer.State.{State}
use vips_adaptive_traffi.CommandBuffer.Send.{
  request_tc, cheng_long_difference, cheng_long_time, extend_loop, countdown_off, send_cheng_long,
  zero_to_one, command_buf_send,
}

-- What a round of the loop adds.
next_time :
    (pretime n : ℕ)
    → 4 < pretime
    → let t = negsuc n +ℤ (pos pretime -ℤ pos 4) in (neg_part t ≤ n) × (pos_part t ≤ pretime - 5)
unfolding ◌+ℤ◌ ◌-ℤ◌
next_time pretime n h = ground arith

ltb_ℤ-negsuc : (n : ℕ) → ltb_ℤ (negsuc n) (pos 0) ≡ true
ltb_ℤ-negsuc n = ground arith

-- The least number of an `int`.
holds_int : (n : ℕ) → n < 2147483648 → ltb_ℤ (negsuc n) (negsuc 2147483647) ≡ false
holds_int n h = ground (arith, h)

holds_part : (t : ℤ) → neg_part t ≤ 2147483648 → ltb_ℤ t (negsuc 2147483647) ≡ false
holds_part t h = ground (arith, h)

-- A time that was not negative is kept, and is bounded by itself.
bound_of_kept :
    (time : ℤ) (n k : ℕ)
    → n ≤ pos_part time + k
    → pos_part time ≤ k
    → (neg_part time ≡ 0 → pos n ≡ time)
    → n ≤ k
bound_of_kept (pos m) n k h l same = omega (arith, ap pos_part (same refl))
bound_of_kept (negsuc m) n k h l same = omega arith

-- For a pretime above 4 the loop ends within as many rounds as the time is below 0, and the time it
-- leaves is not negative; it is the time it began with if that was not negative, and less than
-- the pretime minus 4 otherwise.
pub extend_loop-ends :
    (fuel phase pretime : ℕ) (time : ℤ) (t : Tx)
    → 4 < pretime
    → neg_part time < fuel
    → neg_part time ≤ 2147483648
    → (n : ℕ) × (t' : Tx) × (extend_loop fuel phase pretime time t ≡ some (pos n, t'))
      × (n ≤ pos_part time + (pretime - 5))
      × (neg_part time ≡ 0 → pos n ≡ time)
unfolding extend_loop
extend_loop-ends zero phase pretime time t h k i = absurd (omega arith)
extend_loop-ends (suc fuel) phase pretime (pos n) t h k i =
    (n, t, ground arith, omega arith, λ e. refl)
extend_loop-ends (suc fuel) phase pretime (negsuc n) t h k i =
    let b = next_time pretime n h in
    let small = holds_part (negsuc n +ℤ (pos pretime -ℤ pos 4)) (omega (arith, b, i)) in
    let (m, t', e, le, same) =
      extend_loop-ends fuel phase pretime (negsuc n +ℤ (pos pretime -ℤ pos 4))
        (tsc_extend phase 1 1 t).1 h (omega (arith, b)) (omega (arith, b, i)) in
    (
      m,
      t',
      rw (ltb_ℤ-negsuc n) (rw small e),
      omega (arith, bound_of_kept _ m (pretime - 5) le b.1 same),
      λ z. absurd (omega arith),
    )

same_time : (n : ℕ) → negsuc n +ℤ (pos 4 -ℤ pos 4) ≡ negsuc n
unfolding ◌+ℤ◌ ◌-ℤ◌
same_time n = ground arith

same_round :
    (fuel phase n : ℕ) (t : Tx)
    → n < 2147483648
    → extend_loop (suc fuel) phase 4 (negsuc n) t
      ≡ extend_loop fuel phase 4 (negsuc n) (tsc_extend phase 1 1 t).1
unfolding extend_loop
same_round fuel phase n t h = rw (same_time n, ltb_ℤ-negsuc n) (rw (holds_int n h) refl)

no_end : (fuel phase n : ℕ) (t : Tx) → n < 2147483648 → extend_loop fuel phase 4 (negsuc n) t ≡ none
unfolding extend_loop
no_end zero phase n t h = refl
no_end (suc fuel) phase n t h =
    same_round fuel phase n t h ∙ no_end fuel phase n (tsc_extend phase 1 1 t).1 h

-- For a pretime of 4 the loop never ends once it is entered with a negative time of the range of an
-- `int`: a round asks for one more second and leaves the time as it was, and no fuel is enough.
pub extend_loop-never :
    (fuel phase n : ℕ) (t : Tx)
    → n < 2147483648
    → (extend_loop (suc fuel) phase 4 (negsuc n) t
        ≡ extend_loop fuel phase 4 (negsuc n) (tsc_extend phase 1 1 t).1)
      × (extend_loop fuel phase 4 (negsuc n) t ≡ none)
extend_loop-never fuel phase n t h = (same_round fuel phase n t h, no_end fuel phase n t h)

-- The time before the loop is at least -255 and at most 255.
cheng_long_time-bounds :
    (o : CommandObject) (pretime residual : ℕ)
    → o.adjusted_time < 256
    → (neg_part (cheng_long_time o pretime residual) < 256)
      × (pos_part (cheng_long_time o pretime residual) < 256)
unfolding cheng_long_time cheng_long_difference ◌+ℤ◌ ◌-ℤ◌
cheng_long_time-bounds o pretime residual h = ground arith

-- A send ends, for every state and for every object whose adjusted time is a byte, with 256 rounds
-- for the loop, whichever manufacturer is configured, if the planned green of the subphase is
-- above 4 seconds.
pub command_buf_send-ends :
    (config : Config) (o : CommandObject) (phase : ℕ) (s : State)
    → 4 < (plan_at s.signal_status phase).pre_green
    → o.adjusted_time < 256
    → command_buf_send 256 config o phase s ≢ none
unfolding command_buf_send send_cheng_long
command_buf_send-ends config o phase s h k =
    let b = cheng_long_time-bounds o pretime s.signal_status.step_sec k in
    let (n, t', e, le, same) =
      extend_loop-ends 256 phase pretime time (countdown_off config (request_tc tsc_dynamic s)).tx h
        b.0 (omega (arith, b)) in
    ground (arith, e)
  where
    pretime : ℕ
    pretime = (plan_at s.signal_status phase).pre_green

    time : ℤ
    time = cheng_long_time o pretime s.signal_status.step_sec

last_byte :
    (n : ℕ) (time : ℤ)
    → n < 256
    → (neg_part time ≡ 0 → pos n ≡ time)
    → let m = to_u8 (zero_to_one (pos n)) in
      (0 < m) × (m < 256) × (0 < pos_part time → pos m ≡ time)
last_byte n (pos k) h same = ground (arith, ap pos_part (same refl))
last_byte n (negsuc k) h same = ground arith

-- What CHENG_LONG is asked for last, for a planned green from 5 to 255 seconds and an adjusted
-- time that is a byte: an extension by a number from 1 to 255, so that its byte is not cut, which
-- is the time before the loop if that is above 0.
pub send_cheng_long-extends :
    (config : Config) (o : CommandObject) (phase : ℕ) (s : State)
    → 4 < (plan_at s.signal_status phase).pre_green
    → (plan_at s.signal_status phase).pre_green < 256
    → o.adjusted_time < 256
    → let time =
        cheng_long_time o (plan_at s.signal_status phase).pre_green s.signal_status.step_sec in
      (n : ℕ) × (s' : State) × (send_cheng_long 256 config o phase s
        ≡ some (request_tc (tsc_extend phase 1 n) s'))
      × (0 < n)
      × (n < 256)
      × (0 < pos_part time → pos n ≡ time)
unfolding send_cheng_long
send_cheng_long-extends config o phase s h l k =
    let b = cheng_long_time-bounds o pretime s.signal_status.step_sec k in
    let (n, t', e, le, same) =
      extend_loop-ends 256 phase pretime time s1.tx h b.0 (omega (arith, b)) in
    let small = bound_of_kept time n 255 (omega (arith, le, l)) (omega (arith, b)) same in
    let m = last_byte n time (omega (arith, small)) same in
    (to_u8 (zero_to_one (pos n)), record s1 { tx = t' }, rw e refl, m.0, m.1, m.2)
  where
    pretime : ℕ
    pretime = (plan_at s.signal_status phase).pre_green

    time : ℤ
    time = cheng_long_time o pretime s.signal_status.step_sec

    s1 : State
    s1 = countdown_off config (request_tc tsc_dynamic s)
