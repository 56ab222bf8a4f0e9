-- ===== src/Evsp/Optimize.antt =====
-- What the adjustment for all members keeps, in a round of the timer
-- (application/EVSP/src/EVSP_subphase_threshold.c).
use vips_adaptive_traffi.Common.{
  ℕ, ◌≡◌, refl, sym, ap, ◌∙◌, ◌⊎◌, inl, inr, true, false, not, ◌||◌, Option, some, none, List, [],
  ◌∷◌, Bytes, map, length, length-map, All, ◌==◌, pos, Bool-cases,
}
use mathlib.Core.Path.{subst}
use vips_adaptive_traffi.Signal.{SignalStatus, AppObj}
use vips_adaptive_traffi.CommandBuffer.State.{State}
use vips_adaptive_traffi.CommandBuffer.Insert.{command_buf_insert_effect_time}
use vips_adaptive_traffi.Hosts.Evsp.{EvspHost}
use vips_adaptive_traffi.Evsp.Adjust.{Arrival, evsp_optimization}
use vips_adaptive_traffi.Evsp.Activate.{Member, Active, search_activate_obu}
use vips_adaptive_traffi.Evsp.Round.{
  host_named, Asked, with_answer, no_answers, ask_all, in_control, eq_ℤ, insert_for,
  optimized_command, is_minus_1, is_silent, optimize,
}
use vips_adaptive_traffi.Evsp.Team.{Team, Wants, Distinct}

-- A member that is still a host.
abbrev pub IsHost : List EvspHost → Member → Type 0
IsHost hosts m = (h : EvspHost) × (host_named m.host_obu_name hosts ≡ some h)

ask_all-total :
    (arrival : EvspHost → Arrival) (ids : List ℕ) (s : SignalStatus) (hosts : List EvspHost)
    (ms : List Member) (r : Asked)
    → All (IsHost hosts) ms
    → (r' : Asked) × (ask_all arrival ids s hosts ms r ≡ some r')
unfolding ask_all
ask_all-total arrival ids s hosts [] r is = (r, refl)
ask_all-total arrival ids s hosts (m ∷ ms) r is =
    let rest =
      ask_all-total arrival ids s hosts ms
        (with_answer is.0.0 (evsp_optimization (arrival is.0.0) ids is.0.0.target_phase s) r)
        is.1 in
    (rest.0, rw (is.0.1) rest.1)

search-in_control :
    (phase : ℕ) (name : Bytes) (ms : List Member)
    → search_activate_obu name (map (in_control phase) ms) ≡ search_activate_obu name ms
unfolding search_activate_obu
search-in_control phase name [] = refl
search-in_control phase name (m ∷ ms) = rw (search-in_control phase name ms) refl

Distinct-in_control :
    (phase : ℕ) (ms : List Member) → Distinct ms → Distinct (map (in_control phase) ms)
unfolding Distinct
Distinct-in_control phase [] h = tt
Distinct-in_control phase (m ∷ ms) h =
    (search-in_control phase m.host_obu_name ms ∙ h.0, Distinct-in_control phase ms h.1)

Wants-in_control :
    (phase t : ℕ) (ms : List Member) → All (Wants t) ms → All (Wants t) (map (in_control phase) ms)
Wants-in_control phase t [] h = tt
Wants-in_control phase t (m ∷ ms) h = (h.0, Wants-in_control phase t ms h.1)

Team-in_control : (phase : ℕ) (ms : List Member) → Team ms → Team (map (in_control phase) ms)
unfolding Team
Team-in_control phase [] team = absurd team
Team-in_control phase (m ∷ ms) team = (
  Wants-in_control phase m.target_phase (m ∷ ms) team.0,
  Distinct-in_control phase (m ∷ ms) team.1,
)

-- An insertion leaves the members, or makes them take note of the subphase.
insert_for-cases :
    (evsp : AppObj) (s : SignalStatus) (name : Bytes) (last : Option EvspHost) (r : Asked)
    (a : Active) (buffer : State)
    → ((insert_for evsp s name last r a buffer).0 ≡ a)
      ⊎ ((insert_for evsp s name last r a buffer).0
          ≡ record a { members = map (in_control s.sub_phase_id) a.members })
unfolding insert_for
insert_for-cases evsp s name none r a buffer = inl refl
insert_for-cases evsp s name (some h) r a buffer = elim (Bool-cases (is_silent r.max_adjust_time)) [
  | inl silent ↦ inl (simp silent refl)
  | inr answered ↦
      elim (Bool-cases (
        is_minus_1 (command_buf_insert_effect_time (optimized_command evsp s name h r) buffer).0)) [
          | inl refused ↦ inl (simp (answered, refused) refl)
          | inr taken ↦ inr (simp (answered, taken) refl)
        ]
]

abbrev pub names : List Member → List Bytes
names ms = map (λ m. m.host_obu_name) ms

names-in_control : (phase : ℕ) (ms : List Member) → names (map (in_control phase) ms) ≡ names ms
names-in_control phase [] = refl
names-in_control phase (m ∷ ms) = ap (λ ns. m.host_obu_name ∷ ns) (names-in_control phase ms)

-- A running thread, by the names of its members.
abbrev pub Runs : List Bytes → Active → Type 0
Runs ns a =
    (a.activate_thread ≡ true)
    × Team a.members
    × (a.list_len ≡ pos (length a.members))
    × (names a.members ≡ ns)

in_control-Runs :
    (phase : ℕ) (ns : List Bytes) (a : Active)
    → Runs ns a
    → Runs ns (record a { members = map (in_control phase) a.members })
in_control-Runs phase ns a runs = (
  runs.0,
  Team-in_control phase a.members runs.1,
  runs.2 ∙ ap pos (sym (length-map (in_control phase) a.members)),
  names-in_control phase a.members ∙ runs.3,
)

insert_for-Runs :
    (evsp : AppObj) (s : SignalStatus) (name : Bytes) (last : Option EvspHost) (r : Asked)
    (ns : List Bytes) (a : Active) (buffer : State)
    → Runs ns a
    → Runs ns (insert_for evsp s name last r a buffer).0
insert_for-Runs evsp s name last r ns a buffer runs =
    elim (insert_for-cases evsp s name last r a buffer) [
      | inl e ↦ subst (Runs ns) (sym e) runs
      | inr e ↦ subst (Runs ns) (sym e) (in_control-Runs s.sub_phase_id ns a runs)
    ]

-- What a round makes of the thread: `Runs`, with the result of `optimize`.
pub optimize-Runs :
    (evsp : AppObj) (arrival : EvspHost → Arrival) (ids : List ℕ) (s : SignalStatus)
    (hosts : List EvspHost) (m : Member) (ns : List Bytes) (a : Active) (buffer : State)
    → All (IsHost hosts) a.members
    → Runs ns a
    → (a' : Active) × (buffer' : State) × (optimize evsp arrival ids s hosts m a buffer
        ≡ some (a', buffer'))
      × Runs ns a'
unfolding optimize
optimize-Runs evsp arrival ids s hosts m ns a buffer is runs =
    let (r, asked) = ask_all-total arrival ids s hosts a.members no_answers is in
    let settled : Active = record a { optim = false; old_list_len = a.list_len } in
    elim (Bool-cases (
      a.optim
      || (not (eq_ℤ a.list_len a.old_list_len)
          || not (s.sub_phase_id == m.control_sub_phase_id)))) [
            | inr same ↦ (a, buffer, simp same refl, runs)
            | inl changed ↦ (
              (insert_for evsp s m.host_obu_name r.last r settled buffer).0,
              (insert_for evsp s m.host_obu_name r.last r settled buffer).1,
              simp (changed, asked) refl,
              insert_for-Runs evsp s m.host_obu_name r.last r ns settled buffer runs,
            )
          ]
