-- ===== src/Compensation/Align.antt =====
-- The total of a compensation (src/traffic_compensation.c, `get_alignment_compensation_time`).
use mathlib.Core.Path.{subst}
use vips_adaptive_traffi.Common.{
  List, [], ◌∷◌, map, drop, take, get_or, leb, false, if◌then◌else◌, ℕ, zero, suc, ◌+◌, ◌-◌, ◌*◌,
  ◌/◌, ◌%◌, ◌≤◌, ◌<◌, ◌≡◌, refl, ap, arith, Bool-cases, inl, inr, ℤ, pos, neg, pos_part, neg_part,
  abs, ◌+ℤ◌, ◌-ℤ◌, +ℤ_parts, -ℤ_parts, eq_of_parts, ltb_ℤ, to_i16, to_i16-exact,
}
use vips_adaptive_traffi.Signal.{StaticPlan, zero_plan, plan_at, SignalStatus}
use vips_adaptive_traffi.Compensation.Start.{
  AllDayPlan, Day, sum, plan_seconds, steps_behind, sec_in_day, alignment,
  get_alignment_compensation_time,
}

div_mod : (n d : ℕ) → n ≡ n / d * d + n % d
div_mod n d = omega arith

mod_lt : (n d : ℕ) → 0 < d → n % d < d
mod_lt n d h = omega arith

-- What the compensation of a second does: the sum is a multiple of the cycle time, and no multiple is
-- nearer, but for half a second.
pub record Aligns (second : ℤ) (cycle_time : ℕ) (a : ℤ) : Type 0 where
  pub cycles : ℕ
  pub sum_is : abs (second +ℤ a) ≡ cycles * cycle_time
  pub nearest : 2 * abs a ≤ cycle_time + 1

parts-neg : (n : ℕ) → (pos_part (neg n) ≡ 0) × (neg_part (neg n) ≡ n)
parts-neg zero = (refl, refl)
parts-neg (suc n) = (refl, refl)

back : (n d r q : ℕ) → n ≡ q * d + r → r < d / 2 → Aligns (pos n) d (pos 0 -ℤ pos r)
back n d r q e h =
    let is : pos 0 -ℤ pos r ≡ neg r =
      eq_of_parts _ _ (omega (arith, -ℤ_parts (pos 0) (pos r), parts-neg r)) in
    let at : pos n +ℤ neg r ≡ pos (q * d) =
      eq_of_parts _ _ (omega (arith, +ℤ_parts (pos n) (neg r), parts-neg r, e)) in
    rw is record {
      cycles = q;
      sum_is = omega (arith, ap abs at);
      nearest = omega (arith, parts-neg r, h);
    }

forth : (n d r q : ℕ) → n ≡ q * d + r → d / 2 ≤ r → r < d → Aligns (pos n) d (pos d -ℤ pos r)
forth n d r q e h k =
    let is : pos d -ℤ pos r ≡ pos (d - r) =
      eq_of_parts _ _ (omega (arith, -ℤ_parts (pos d) (pos r), k)) in
    let at : pos n +ℤ pos (d - r) ≡ pos (suc q * d) =
      eq_of_parts _ _ (omega (arith, +ℤ_parts (pos n) (pos (d - r)), e, k)) in
    rw is
      record { cycles = suc q; sum_is = omega (arith, ap abs at); nearest = omega (arith, h, k) }

alignment-Aligns : (n d : ℕ) → 0 < d → Aligns (pos n) d (alignment (pos n) d)
unfolding alignment
alignment-Aligns n d h = elim (Bool-cases (ltb_ℤ (pos (n % d)) (pos (d / 2)))) [
  | inl e ↦ rw (alignment, e) (back n d (n % d) (n / d) (div_mod n d) (ground (arith, e)))
  | inr e ↦
      rw (alignment, e) (forth n d (n % d) (n / d) (div_mod n d) (ground (arith, e)) (mod_lt n d h))
]

-- What the controller's clock shows, in seconds of the day.
abbrev pub clock : Day → ℤ
clock d = pos (3600 * d.tm_hour + 60 * d.tm_min + d.tm_sec) +ℤ d.tc_time_offset

-- The seconds that are left of the running subphase: those of its step, and the steps that follow.
abbrev pub left_of_subphase : ℕ → ℕ → StaticPlan → ℕ
left_of_subphase step sec p =
    sec
    + (if leb step 1 then p.ped_green_flash else 0)
    + (if leb step 2 then p.ped_red else 0)
    + (if leb step 3 then p.yellow else 0)
    + (if leb step 4 then p.all_red else 0)

-- The seconds of `n` whole subphases by their indices, from `i` on: the green as planned, the
-- pedestrians' steps, yellow and red.
abbrev pub whole_subphases : ℕ → ℕ → List StaticPlan → ℕ
whole_subphases zero i plans = 0
whole_subphases (suc n) i plans =
    let p = get_or plans i zero_plan in
    p.pre_green
    + p.ped_green_flash
    + p.ped_red
    + p.yellow
    + p.all_red
    + whole_subphases n (i + 1) plans

-- The seconds to the end of the running cycle.
abbrev pub left_of_cycle : SignalStatus → ℕ
left_of_cycle s =
    left_of_subphase s.step_id s.step_sec (plan_at s s.sub_phase_id)
    + whole_subphases (s.sub_phase_count - s.sub_phase_id) s.sub_phase_id s.plan

-- The base point of the cycles in the day: the given hour and minute, and the offset of the crossing.
abbrev pub base_point : SignalStatus → AllDayPlan → ℕ
base_point s align = 3600 * align.hour + 60 * align.minute + s.offset

whole_subphases-none : (n i : ℕ) → whole_subphases n i [] ≡ 0
whole_subphases-none zero i = refl
whole_subphases-none (suc n) i = omega (arith, whole_subphases-none n (i + 1))

whole_subphases-behind :
    (n i : ℕ) (x : StaticPlan) (xs : List StaticPlan)
    → whole_subphases n (suc i) (x ∷ xs) ≡ whole_subphases n i xs
whole_subphases-behind zero i x xs = refl
whole_subphases-behind (suc n) i x xs =
    let e : suc i + 1 ≡ suc (i + 1) = omega arith in
    omega (arith, ap (λ j. whole_subphases n j (x ∷ xs)) e, whole_subphases-behind n (i + 1) x xs)

plan_seconds-none : (k : ℕ) → sum (map plan_seconds (drop k [])) ≡ 0
plan_seconds-none zero = refl
plan_seconds-none (suc k) = refl

plan_seconds-whole :
    (c k : ℕ) (xs : List StaticPlan)
    → sum (map plan_seconds (drop k (take c xs))) ≡ whole_subphases (c - k) k xs
plan_seconds-whole zero k xs =
    let none_ : 0 - k ≡ 0 = omega arith in
    omega (arith, plan_seconds-none k, ap (λ n. whole_subphases n k xs) none_)
plan_seconds-whole (suc c) k [] =
    omega (arith, plan_seconds-none k, whole_subphases-none (suc c - k) k)
plan_seconds-whole (suc c) zero (x ∷ xs) =
    let all : suc c - 0 ≡ suc c = omega arith in
    let all' : c - 0 ≡ c = omega arith in
    omega (
      arith,
      plan_seconds-whole c zero xs,
      whole_subphases-behind c 0 x xs,
      ap (λ n. whole_subphases n 0 (x ∷ xs)) all,
      ap (λ n. whole_subphases n 0 xs) all',
    )
plan_seconds-whole (suc c) (suc k) (x ∷ xs) =
    let both : suc c - suc k ≡ c - k = omega arith in
    omega (
      arith,
      plan_seconds-whole c k xs,
      whole_subphases-behind (c - k) k x xs,
      ap (λ n. whole_subphases n (suc k) (x ∷ xs)) both,
    )

sum_none : (n sec : ℕ) → sum (drop n []) + sec ≡ sec + 0 + 0 + 0 + 0
sum_none zero sec = omega arith
sum_none (suc n) sec = omega arith

steps_behind-left :
    (step sec : ℕ) (p : StaticPlan)
    → 0 < step
    → steps_behind step p + sec ≡ left_of_subphase step sec p
steps_behind-left zero sec p h = absurd (omega (arith, h))
steps_behind-left (suc zero) sec p h = ground arith
steps_behind-left (suc (suc zero)) sec p h = ground arith
steps_behind-left (suc (suc (suc zero))) sec p h = ground arith
steps_behind-left (suc (suc (suc (suc zero)))) sec p h = ground arith
steps_behind-left (suc (suc (suc (suc (suc n))))) sec p h =
    let behind : suc (suc (suc (suc (suc n)))) - 1 ≡ suc (suc (suc (suc n))) = omega arith in
    let over1 : leb (suc (suc (suc (suc (suc n))))) 1 ≡ false = ground arith in
    let over2 : leb (suc (suc (suc (suc (suc n))))) 2 ≡ false = ground arith in
    let over3 : leb (suc (suc (suc (suc (suc n))))) 3 ≡ false = ground arith in
    let over4 : leb (suc (suc (suc (suc (suc n))))) 4 ≡ false = ground arith in
    rw (behind, over1, over2, over3, over4) (sum_none n sec)

sec_in_day-Aligns :
    (s : SignalStatus) (d : Day) (align : AllDayPlan) (n : ℕ)
    → sec_in_day s d align ≡ pos n
    → 0 < s.cycle_time
    → s.cycle_time < 65534
    → Aligns (sec_in_day s d align) s.cycle_time (get_alignment_compensation_time s d align)
unfolding get_alignment_compensation_time
sec_in_day-Aligns s d align n e h k =
    let a = alignment-Aligns n s.cycle_time h in
    let exact : to_i16 (alignment (pos n) s.cycle_time) ≡ alignment (pos n) s.cycle_time =
      to_i16-exact (alignment (pos n) s.cycle_time) (omega (arith, a.nearest, k))
        (omega (arith, a.nearest, k)) in
    rw (get_alignment_compensation_time, e) (rw exact a)

running_plan : (i : ℕ) (s : SignalStatus) → 0 < i → get_or s.plan (i - 1) zero_plan ≡ plan_at s i
running_plan zero s h = absurd (omega (arith, h))
running_plan (suc i) s h = ap (λ j. get_or s.plan j zero_plan) (omega arith)

-- The sums of the code and of the clock have the same parts.
end_of :
    (now now' base base' n : ℕ) (z : ℤ) (rest rest' : ℕ)
    → now ≡ now'
    → base ≡ base'
    → rest ≡ rest'
    → pos now' +ℤ z +ℤ pos rest' ≡ pos (base' + n)
    → pos now -ℤ pos base +ℤ z +ℤ pos rest ≡ pos n
end_of now now' base base' n z rest rest' a b c e = eq_of_parts _ _ (
    omega (
      arith,
      a,
      b,
      c,
      ap pos_part e,
      ap neg_part e,
      +ℤ_parts (pos now' +ℤ z) (pos rest'),
      +ℤ_parts (pos now') z,
      -ℤ_parts (pos now) (pos base),
      +ℤ_parts (pos now -ℤ pos base) z,
      +ℤ_parts (pos now -ℤ pos base +ℤ z) (pos rest),
    ))

sec_in_day-end :
    (s : SignalStatus) (d : Day) (align : AllDayPlan) (n : ℕ)
    → 0 < s.sub_phase_id
    → 0 < s.step_id
    → clock d +ℤ pos (left_of_cycle s) ≡ pos (base_point s align + n)
    → sec_in_day s d align ≡ pos n
unfolding sec_in_day
sec_in_day-end s d align n some_ step e =
    let behind = plan_seconds-whole s.sub_phase_count s.sub_phase_id s.plan in
    let left = steps_behind-left s.step_id s.step_sec (plan_at s s.sub_phase_id) step in
    let running : steps_behind s.step_id (get_or s.plan (s.sub_phase_id - 1) zero_plan)
        ≡ steps_behind s.step_id (plan_at s s.sub_phase_id) =
      ap (steps_behind s.step_id) (running_plan s.sub_phase_id s some_) in
    end_of _ _ _ _ _ d.tc_time_offset _ _ (omega arith) (omega arith)
      (omega (arith, behind, left, running)) e

-- The total of a compensation brings the end of the running cycle to a base point of the cycles, and
-- to the nearest one: it is at most half a cycle and half a second long, forwards or backwards. The
-- end is what the controller's clock shows, and what is left of the running subphase and of the cycle
-- behind it; it is `n` seconds past the base point of the day. The cycle time is from 1 to 65533
-- seconds, and the running subphase and its step are numbered from 1 on.
pub get_alignment_compensation_time-Aligns :
    (s : SignalStatus) (d : Day) (align : AllDayPlan) (n : ℕ)
    → 0 < s.sub_phase_id
    → 0 < s.step_id
    → clock d +ℤ pos (left_of_cycle s) ≡ pos (base_point s align + n)
    → 0 < s.cycle_time
    → s.cycle_time < 65534
    → Aligns (pos n) s.cycle_time (get_alignment_compensation_time s d align)
get_alignment_compensation_time-Aligns s d align n some_ step e h k =
    let is = sec_in_day-end s d align n some_ step e in
    subst (λ z. Aligns z s.cycle_time (get_alignment_compensation_time s d align)) is
      (sec_in_day-Aligns s d align n is h k)
