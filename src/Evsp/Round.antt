-- ===== src/Evsp/Round.antt =====
-- A round of the timer of EVSP_OBU_activation_timer (application/EVSP/src/EVSP_subphase_threshold.c),
-- which holds the mutexes from the test of the list on.
use vips_adaptive_traffi.Common.{
  ℕ, ◌-◌, Bool, true, false, not, ◌||◌, ◌&&◌, Option, some, none, List, [], ◌∷◌, Bytes, map, length,
  ◌==◌, if◌then◌else◌, ℤ, pos, negsuc, ◌-ℤ◌, ltb_ℤ, to_i16, ◌>>=◌,
}
use vips_adaptive_traffi.Signal.{SignalStatus, AppObj, TscCommand, zero_command, plan_at}
use vips_adaptive_traffi.CommandBuffer.State.{State}
use vips_adaptive_traffi.CommandBuffer.Insert.{
  InsertCode, invalid_app_id, command_buf_insert_effect_time,
}
use vips_adaptive_traffi.Hosts.Evsp.{EvspHost, evsp_host_obu_obj_search}
use vips_adaptive_traffi.Evsp.Adjust.{Arrival, evsp_optimization}
use vips_adaptive_traffi.Evsp.Activate.{Member, Active}

-- `thread_end`.
abbrev pub end_thread : Active → Active
end_thread a = record a { activate_thread = false; list_len = pos 0 }

abbrev pub host_named : Bytes → List EvspHost → Option EvspHost
host_named name hosts = (evsp_host_obu_obj_search name none hosts).0

-- The members from the first one that is still a host on.
unfoldable pub drop_ended : List EvspHost → List Member → List Member
drop_ended hosts [] = []
drop_ended hosts (m ∷ ms) =
    let rest = drop_ended hosts ms in
    elim (host_named m.host_obu_name hosts) [ none ↦ rest | some h ↦ m ∷ ms ]

-- What the optimization of all members comes to: the last host, and the greatest and the least answer.
pub record Asked : Type 0 where
  pub last : Option EvspHost
  pub max_adjust_time : ℤ
  pub min_adjust_time : ℤ

-- The answer -1.
abbrev pub is_silent : ℤ → Bool
is_silent (pos n) = false
is_silent (negsuc n) = n == 0

abbrev pub with_answer : EvspHost → ℤ → Asked → Asked
with_answer h answer r = record {
  last = some h;
  max_adjust_time = if ltb_ℤ answer r.max_adjust_time then r.max_adjust_time else answer;
  min_adjust_time =
      if ltb_ℤ answer r.min_adjust_time && not (is_silent answer)
      then answer
      else r.min_adjust_time;
}

abbrev pub eq_ℤ : ℤ → ℤ → Bool
eq_ℤ a b = not (ltb_ℤ a b) && not (ltb_ℤ b a)

-- `arrival` gives the times of a host.
unfoldable pub ask_all :
    (EvspHost → Arrival)
    → List ℕ
    → SignalStatus
    → List EvspHost
    → List Member
    → Asked
    → Option Asked
unfolding evsp_optimization
ask_all arrival ids s hosts [] r = some r
ask_all arrival ids s hosts (m ∷ ms) r = do
  h ← host_named m.host_obu_name hosts
  let answer = evsp_optimization (arrival h) ids h.target_phase s
  ask_all arrival ids s hosts ms (with_answer h answer r)

abbrev pub no_answers : Asked
no_answers = record { last = none; max_adjust_time = negsuc 0; min_adjust_time = pos 1000 }

-- The command for the running subphase: the greatest answer, if it is longer than the planned green,
-- and else the least.
abbrev pub optimized_command : AppObj → SignalStatus → Bytes → EvspHost → Asked → TscCommand
optimized_command evsp s name h r = record zero_command {
  app_id = evsp.id;
  app_priority = evsp.priority;
  target_phase = h.target_phase;
  phase = s.sub_phase_id;
  host_obu_name = name;
  effect_time = to_i16 (
      if ltb_ℤ (pos (plan_at s s.sub_phase_id).pre_green) r.max_adjust_time
      then r.max_adjust_time
      else r.min_adjust_time);
}

-- The code -1.
abbrev pub is_minus_1 : InsertCode → Bool
is_minus_1 invalid_app_id = true
is_minus_1 _ = false

abbrev pub in_control : ℕ → Member → Member
in_control phase m = record m { control_sub_phase_id = phase }

-- The answers lead to a command, unless the greatest is -1; the least never is. With any result of
-- the insertion but -1 the members take note of the subphase.
unfoldable pub insert_for :
    AppObj → SignalStatus → Bytes → Option EvspHost → Asked → Active → State → Active × State
insert_for evsp s name none r a buffer = (a, buffer)
insert_for evsp s name (some h) r a buffer =
    let inserted = command_buf_insert_effect_time (optimized_command evsp s name h r) buffer in
    let noted = record a { members = map (in_control s.sub_phase_id) a.members } in
    if is_silent r.max_adjust_time
    then (a, buffer)
    else (if is_minus_1 (inserted.0) then a else noted, inserted.1)

abbrev pub insert_asked : AppObj → SignalStatus → Bytes → Asked → Active → State → Active × State
insert_asked evsp s name r a buffer = insert_for evsp s name r.last r a buffer

-- The members that are left, the first of which is `m`, when others have ended or not.
unfoldable pub optimize :
    AppObj
    → (EvspHost → Arrival)
    → List ℕ
    → SignalStatus
    → List EvspHost
    → Member
    → Active
    → State
    → Option (Active × State)
unfolding ask_all insert_for
optimize evsp arrival ids s hosts m a buffer =
    let changed =
      not (eq_ℤ a.list_len a.old_list_len) || not (s.sub_phase_id == m.control_sub_phase_id) in
    let asked = ask_all arrival ids s hosts a.members no_answers in
    let settled = record a { optim = false; old_list_len = a.list_len } in
    if a.optim || changed
    then (elim asked [
      | none ↦ none
      | some r ↦ some (insert_asked evsp s m.host_obu_name r settled buffer)
    ])
    else some (a, buffer)

-- The rest of a round, for the members that are left.
unfoldable pub go_on :
    AppObj
    → (EvspHost → Arrival)
    → List ℕ
    → SignalStatus
    → List EvspHost
    → List Member
    → Active
    → State
    → Option (Active × State)
unfolding optimize
go_on evsp arrival ids s hosts [] a buffer = some (end_thread a, buffer)
go_on evsp arrival ids s hosts (m ∷ ms) a buffer = optimize evsp arrival ids s hosts m a buffer

abbrev pub without_ended : List Member → Active → Active
without_ended left a =
    let gone = length a.members - length left in
    record a {
      members = left;
      list_len = a.list_len -ℤ pos gone;
      optim = a.optim || not (gone == 0);
    }

-- A round of the timer. `plan` is the result of EVSP_plan_table_search.
unfoldable pub activation_round :
    AppObj
    → (EvspHost → Arrival)
    → Option (List ℕ)
    → SignalStatus
    → List EvspHost
    → Active
    → State
    → Option (Active × State)
unfolding drop_ended go_on
activation_round evsp arrival none s hosts a buffer = some (end_thread a, buffer)
activation_round evsp arrival (some ids) s hosts a buffer =
    let left = drop_ended hosts a.members in
    if length a.members == 0
    then none
    else go_on evsp arrival ids s hosts left (without_ended left a) buffer
