-- ===== src/Evsp/Answer.antt =====
-- The answers of EVSP_optimization (application/EVSP/src/EVSP_subphase_threshold.c).
use native.Mathlib.Nat.{mod-add-mod, mod-eq_of_lt, mod-lt}
use vips_adaptive_traffi.Common.{
  ℕ, zero, suc, ◌+◌, ◌-◌, ◌%◌, ◌≤◌, ◌<◌, ◌≡◌, ◌≢◌, refl, sym, ap, ◌∙◌, ◌⊎◌, inl, inr, Bool, true,
  false, not, ◌&&◌, ◌||◌, List, length, all, leb, ◌==◌, if◌then◌else◌, ℤ, pos, negsuc, ◌+ℤ◌, ◌≤ℤ◌,
  arith, Bool-cases,
}
use vips_adaptive_traffi.Signal.{SignalStatus, plan_at}
use vips_adaptive_traffi.Evsp.Adjust.{
  Arrival, Found, threshold_above, is_main, seek, smooth, rotate, first_found, evsp_optimization,
  control, evsp_extend_formula,
}

-- The domain of the optimization. Outside it the code reads outside an array (of 8 subphases, of the
-- plan table's, or in front of one), or divides by a number of subphases of 0.
pub record CanOptimize (ids : List ℕ) (target : ℕ) (s : SignalStatus) : Type 0 where
  pub running_some : 1 ≤ s.sub_phase_id
  pub running_in : s.sub_phase_id ≤ s.sub_phase_count
  pub few : s.sub_phase_count ≤ 8
  pub plans_there : length s.plan ≡ 8
  pub target_some : 1 ≤ target
  pub target_in : target ≤ 8
  pub table_there : s.sub_phase_count ≤ length ids
  pub ids_in : all (λ id. leb 1 id && leb id 8) ids ≡ true

-- A time that is extended for a late arrival is not shortened.
abbrev pub ExtendsForward : Arrival → Type 0
ExtendsForward t = (n k : ℕ) → t.arrives_after n ≡ true → pos 0 ≤ℤ t.extend_by n k

pub IsTime : ℤ → Type 0
IsTime z = (n : ℕ) × (z ≡ pos n)

sum-IsTime : (n : ℕ) (z : ℤ) → pos 0 ≤ℤ z → IsTime (pos n +ℤ z)
unfolding IsTime ◌+ℤ◌
sum-IsTime n (pos m) h = (n + m, ground arith)
sum-IsTime n (negsuc m) h = absurd (omega (arith, h))

if-IsTime : (b : Bool) (x y : ℤ) → (b ≡ true → IsTime x) → IsTime y → IsTime (if b then x else y)
if-IsTime true x y h k = h refl
if-IsTime false x y h k = k

smooth-IsTime :
    (t : Arrival) (target : ℕ) (s : SignalStatus) (f : Found)
    → ExtendsForward t
    → IsTime (smooth t target s f)
unfolding smooth IsTime
smooth-IsTime t target s f forward =
    let pretime = (plan_at s s.sub_phase_id).pre_green in
    let end = f.accumulated + f.seconds in
    if-IsTime (f.before == 0) _ _ (λ e. (pretime + evsp_extend_formula target s 20, refl))
      (if-IsTime (t.arrives_before f.accumulated) _ _ (λ e. (_, refl))
        (if-IsTime (t.arrives_after end) _ _
          (λ late. sum-IsTime pretime (t.extend_by end f.before) (forward end f.before late))
          (pretime, refl)))

rotate-IsTime :
    (t : Arrival) (target : ℕ) (s : SignalStatus) (seconds : ℕ) → IsTime (rotate t target s seconds)
unfolding rotate IsTime
rotate-IsTime t target s seconds =
    let pretime = (plan_at s s.sub_phase_id).pre_green in
    if-IsTime (not (threshold_above t target s seconds)) _ _
      (λ e.
        if-IsTime (target == s.sub_phase_id) _ _
          (λ e. (pretime + evsp_extend_formula target s 20, refl)) (0, refl))
      (pretime, refl)

-- The search has come to the target's subphase, at whose end the vehicle may have arrived.
pub record IsArrival (t : Arrival) (target : ℕ) (s : SignalStatus) (i : ℕ) (f f' : Found)
    : Type 0 where
  pub rounds : ℕ
  pub soon : f'.before < 10
  pub counted : f'.before ≡ rounds + f.before
  pub at_target : (i + rounds) % s.sub_phase_count + 1 ≡ target
  pub in_time : threshold_above t target s (f'.accumulated + f'.seconds) ≡ false

next_index : (i n c : ℕ) → (i + suc n) % c ≡ ((i + 1) % c + n) % c
next_index i n c =
    let e : i + suc n ≡ (i + 1) + n = omega arith in rw e (sym (mod-add-mod (i + 1) c n))

seek-IsArrival :
    (left : ℕ) (t : Arrival) (target : ℕ) (s : SignalStatus) (i : ℕ) (f : Found)
    → i < s.sub_phase_count
    → left + f.before ≡ 10
    → ((seek left t target s i f).before ≡ 10) ⊎ IsArrival t target s i f (seek left t target s i f)
unfolding seek
seek-IsArrival zero t target s i f in_ sum = inl (omega (arith, sum))
seek-IsArrival (suc left) t target s i f in_ sum =
    let i' = (i + 1) % s.sub_phase_count in
    let p = plan_at s (i' + 1) in
    let f1 : Found = record {
      before = f.before + 1;
      accumulated = f.accumulated + f.seconds;
      seconds = p.green + p.yellow + p.all_red;
    } in
    elim (Bool-cases
      (not (i + 1 == target) || threshold_above t target s (f.accumulated + f.seconds))) [
        | inr e ↦ inr (
            rw (seek, e)
              record {
                rounds = 0;
                soon = omega (arith, sum);
                counted = omega arith;
                at_target = ground (arith, e, mod-eq_of_lt in_);
                in_time = ground (arith, e);
              })
        | inl e ↦
            elim (seek-IsArrival left t target s i' f1 (mod-lt (i + 1) (omega (arith, in_)))
              (omega (arith, sum))) [
                | inl all ↦ inl (rw (seek, e) all)
                | inr at ↦ inr (
                    rw (seek, e)
                      record {
                        rounds = suc at.rounds;
                        soon = at.soon;
                        counted = at.counted ∙ omega arith;
                        at_target =
                            ap (λ k. k + 1) (next_index i at.rounds s.sub_phase_count)
                            ∙ at.at_target;
                        in_time = at.in_time;
                      })
              ]
      ]

-- An answer, and what the search has found.
abbrev pub Answers : Arrival → List ℕ → ℕ → SignalStatus → ℤ → Found → Type 0
Answers t ids target s answer found =
    ((answer ≡ negsuc 0) × (s.step_id ≢ 1))
    ⊎ (((answer ≡ negsuc 0) × (found.before ≡ 10))
        ⊎ (IsTime answer
            × ((is_main s.sub_phase_count 0 ids target s ≡ true)
                ⊎ IsArrival t target s (s.sub_phase_id - 1) (first_found s) found)))

control-Answers :
    (t : Arrival) (ids : List ℕ) (target : ℕ) (s : SignalStatus) (found : Found)
    → ExtendsForward t
    → ((found.before ≡ 10) ⊎ IsArrival t target s (s.sub_phase_id - 1) (first_found s) found)
    → Answers t ids target s (control t ids target s found) found
unfolding control
control-Answers t ids target s found forward outcome = elim (Bool-cases (s.step_id == 1)) [
  | inr e ↦ inl (rw e refl, λ is. ground (arith, e, is))
  | inl e ↦ elim (Bool-cases (is_main s.sub_phase_count 0 ids target s)) [
    | inl m ↦ inr (inr (rw e (rw m (rotate-IsTime t target s (first_found s).seconds)), inl m))
    | inr m ↦ elim (Bool-cases (leb 10 found.before)) [
      | inl far ↦ inr (
          inl (
            rw e (rw m (rw far refl)),
            elim outcome [ inl ten ↦ ten | inr at ↦ absurd (ground (arith, far, at.soon)) ],
          ))
      | inr near ↦ inr (
          inr (
            rw e (rw m (rw near (smooth-IsTime t target s found forward))),
            inr (elim outcome [ inl ten ↦ absurd (ground (arith, near, ten)) | inr at ↦ at ]),
          ))
    ]
  ]
]

-- In a status whose running subphase is one of those that it counts, from 1 to 8 at most, and for a
-- target and a plan table of such subphases, the optimization asks for nothing (-1) only outside the
-- green step, or when the search for the subphase of the arrival gives up after ten subphases; else
-- its answer is a time, so that none of its times is mistaken for -1. Where it controls over a long
-- time the search has ended at the target's subphase, which is as many subphases behind the running
-- one, round the cycle, as the search has counted, and at whose end the threshold of the arrival is
-- not past. The rounded quotient that extends the time of a late arrival is taken not to be negative.
pub evsp_optimization-Answers :
    (t : Arrival) (ids : List ℕ) (target : ℕ) (s : SignalStatus)
    → ExtendsForward t
    → CanOptimize ids target s
    → Answers t ids target s
        (evsp_optimization t ids target s)
        (seek 10 t target s (s.sub_phase_id - 1) (first_found s))
unfolding evsp_optimization
evsp_optimization-Answers t ids target s forward can =
    control-Answers t ids target s (seek 10 t target s (s.sub_phase_id - 1) (first_found s)) forward
      (seek-IsArrival 10 t target s (s.sub_phase_id - 1) (first_found s)
        (omega (arith, can.running_some, can.running_in)) refl)
