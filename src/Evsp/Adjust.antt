-- ===== src/Evsp/Adjust.antt =====
-- How long the running green shall last for an emergency vehicle: EVSP_extend_formula and
-- EVSP_optimization of application/EVSP/src/EVSP_subphase_threshold.c.
use vips_adaptive_traffi.Common.{
  ℕ, zero, suc, ◌+◌, ◌-◌, ◌%◌, Bool, true, false, not, ◌&&◌, ◌||◌, List, get_or, leb, ◌==◌,
  if◌then◌else◌, ℤ, pos, negsuc, ◌+ℤ◌, ◌-ℤ◌, ltb_ℤ,
}
use vips_adaptive_traffi.Signal.{SignalStatus, plan_at}

-- The expected time of arrival of get_expect_arrival_time, a `float`, by what is asked of it:
-- `arrives_before n` and `arrives_after n` are the comparisons with it, `arrives_later k n` is
-- `time - k > n` (the time is a number, so that the opposite test is its negation), and the two others
-- are the rounded quotients `ceil((n - time) / k)` and `ceil((time - n) / k)`.
pub record Arrival : Type 0 where
  pub arrives_before : ℕ → Bool
  pub arrives_after : ℕ → Bool
  pub arrives_later : ℕ → ℕ → Bool
  pub shorten_by : ℕ → ℕ → ℤ
  pub extend_by : ℕ → ℕ → ℤ

-- The subphases from `i` on, of which there are `n`.
unfoldable pub other_phases : ℕ → ℕ → ℕ → SignalStatus → ℕ
other_phases zero i target s = 0
other_phases (suc n) i target s =
    let p = plan_at s i in
    let rest = other_phases n (suc i) target s in
    (if i == target then 0 else p.min_green + p.yellow + p.all_red) + rest

-- The loop runs from 1 to 7.
unfoldable pub evsp_extend_formula : ℕ → SignalStatus → ℕ → ℕ
unfolding other_phases
evsp_extend_formula target s tbf = other_phases 7 1 target s + tbf

-- Whether the result of get_subphase_threshold is above a number of seconds; the buffer is 5 seconds.
unfoldable pub threshold_above : Arrival → ℕ → SignalStatus → ℕ → Bool
unfolding evsp_extend_formula
threshold_above t target s n = t.arrives_later (evsp_extend_formula target s 5) n

-- Whether no subphase of the plan table, from `i` on, has a green as long as the target's.
unfoldable pub is_main : ℕ → ℕ → List ℕ → ℕ → SignalStatus → Bool
is_main zero i ids target s = true
is_main (suc n) i ids target s =
    let rest = is_main n (suc i) ids target s in
    let id = get_or ids i 0 in
    let as_long = leb (plan_at s target).green (plan_at s id).green in
    if not (id == target) && as_long then false else rest

-- Where the search for the subphase of the arrival ends: the subphases before it, their seconds,
-- and its own seconds.
pub record Found : Type 0 where
  pub before : ℕ
  pub accumulated : ℕ
  pub seconds : ℕ

-- The loop, with the rounds that are left of ten; `i` is an index.
unfoldable pub seek : ℕ → Arrival → ℕ → SignalStatus → ℕ → Found → Found
unfolding threshold_above
seek zero t target s i f = f
seek (suc left) t target s i f =
    let i' = (i + 1) % s.sub_phase_count in
    let p = plan_at s (i' + 1) in
    let rest = seek left t target s i' record {
      before = f.before + 1;
      accumulated = f.accumulated + f.seconds;
      seconds = p.green + p.yellow + p.all_red;
    } in
    if not (i + 1 == target) || threshold_above t target s (f.accumulated + f.seconds)
    then rest
    else f

-- What the other subphases cannot give of a shortening; the first of them is behind `i`.
unfoldable pub remain : ℕ → ℤ → SignalStatus → ℕ → ℤ
remain zero shorten s i = pos 0
remain (suc n) shorten s i =
    let i' = (i + 1) % s.sub_phase_count in
    let p = plan_at s (i' + 1) in
    let slack = pos p.pre_green -ℤ pos p.min_green in
    let rest = remain n shorten s i' in
    (if ltb_ℤ slack shorten then shorten -ℤ slack else pos 0) +ℤ rest

abbrev pub at_least_0 : ℤ → ℕ
at_least_0 (pos n) = n
at_least_0 (negsuc n) = 0

-- The long-time control, when the search has ended before its tenth round.
unfoldable pub smooth : Arrival → ℕ → SignalStatus → Found → ℤ
unfolding evsp_extend_formula remain
smooth t target s f =
    let pretime = (plan_at s s.sub_phase_id).pre_green in
    let shorten = t.shorten_by f.accumulated f.before in
    let end = f.accumulated + f.seconds in
    if f.before == 0
    then pos (pretime + evsp_extend_formula target s 20)
    else if t.arrives_before f.accumulated
    then pos (
        at_least_0 (pos pretime -ℤ shorten -ℤ remain (f.before - 1) shorten s (s.sub_phase_id - 1)))
    else if t.arrives_after end
    then pos pretime +ℤ t.extend_by end f.before
    else pos pretime

-- The short-time control; `seconds` are those up to the end of the running subphase.
unfoldable pub rotate : Arrival → ℕ → SignalStatus → ℕ → ℤ
unfolding evsp_extend_formula threshold_above
rotate t target s seconds =
    let pretime = (plan_at s s.sub_phase_id).pre_green in
    if not (threshold_above t target s seconds)
    then (if target == s.sub_phase_id
        then pos (pretime + evsp_extend_formula target s 20)
        else pos 0)
    else pos pretime

abbrev pub first_found : SignalStatus → Found
first_found s =
    let p = plan_at s s.sub_phase_id in
    record {
      before = 0;
      accumulated = 0;
      seconds = s.step_sec + p.ped_green_flash + p.ped_red + p.yellow + p.all_red;
    }

-- The control, with what a search has found; -1 asks for nothing.
unfoldable pub control : Arrival → List ℕ → ℕ → SignalStatus → Found → ℤ
unfolding is_main smooth rotate
control t ids target s found =
    if not (s.step_id == 1)
    then negsuc 0
    else if is_main s.sub_phase_count 0 ids target s
    then rotate t target s (first_found s).seconds
    else if leb 10 found.before
    then negsuc 0
    else smooth t target s found

-- The running subphase is numbered from 1 on and is one of those that are counted. For a subphase 0 C
-- reads in front of its arrays and begins the search at -1, and for no subphase it divides by 0; here
-- the search begins at 0 then, and the remainder is that of the native numbers
-- (`CanOptimize` excludes both). `ids` are the subphases of the plan table. The search, which changes
-- nothing, is made here in the cases too that have no use for it.
unfoldable pub evsp_optimization : Arrival → List ℕ → ℕ → SignalStatus → ℤ
unfolding control seek
evsp_optimization t ids target s =
    control t ids target s (seek 10 t target s (s.sub_phase_id - 1) (first_found s))
