-- ===== src/Evsp/Running.antt =====
-- The thread of the emergency vehicles (application/EVSP/src/EVSP_subphase_threshold.c): what the
-- vehicles that come keep.
use vips_adaptive_traffi.Common.{
  ◌≤◌, ◌≡◌, refl, sym, ap, ◌∙◌, ◌⊎◌, inl, inr, true, false, some, List, [], ◌∷◌, ◌++◌, length,
  length-append, ◌==◌, ℤ, pos, negsuc, arith, Bool-cases,
}
use vips_adaptive_traffi.Hosts.Evsp.{EvspHost}
use vips_adaptive_traffi.Evsp.Activate.{
  Member, Active, search_activate_obu, new_member, add_activate_obu, plus_1, add_and_start,
  evsp_obu_activation_timer_start,
}
use vips_adaptive_traffi.Evsp.Team.{Team, add-named, joined-Team, alone-Team}

-- A running thread has a team, which is counted right; without a thread the count is 0.
pub record IsActive (a : Active) : Type 0 where
  pub running : a.activate_thread ≡ true → Team a.members × (a.list_len ≡ pos (length a.members))
  pub stopped : a.activate_thread ≡ false → a.list_len ≡ pos 0

-- What the arrival of a vehicle comes to: it is not taken (-1), starts the thread (1), or joins (2).
unfoldable pub IsStarted : EvspHost → Active → ℤ → Active → Type 0
IsStarted h a ret a' =
    ((ret ≡ negsuc 0) × (a' ≡ a) × (a.activate_thread ≡ true))
    ⊎ (((ret ≡ pos 1) × (a.activate_thread ≡ false) × (a'.members ≡ new_member h ∷ []))
        ⊎ ((ret ≡ pos 2)
            × (a.activate_thread ≡ true)
            × (a'.members ≡ a.members ++ (new_member h ∷ []))))

abbrev pub Started : EvspHost → Active → Type 0
Started h a =
    (ret : ℤ) × (a' : Active) × (evsp_obu_activation_timer_start true (some h) a ≡ some (ret, a'))
    × IsActive a'
    × IsStarted h a ret a'

start_first :
    (h : EvspHost) (a : Active)
    → 1 ≤ length h.obu_name
    → IsActive a
    → a.activate_thread ≡ false
    → Started h a
unfolding evsp_obu_activation_timer_start add_and_start IsStarted add_activate_obu
start_first h a named active idle = (
  pos 1,
  record {
    members = new_member h ∷ [];
    activate_thread = true;
    list_len = pos 1;
    optim = true;
    old_list_len = pos 0;
  },
  simp (idle, active.stopped idle) refl,
  record { running = λ e. (alone-Team h named, refl); stopped = λ e. cc },
  inr (inl (refl, idle, refl)),
)

Team-cases :
    (ms : List Member)
    → Team ms
    → (m : Member) × (rest : List Member) × (ms ≡ m ∷ rest) × Team (m ∷ rest)
unfolding Team
Team-cases [] team = absurd team
Team-cases (m ∷ rest) team = (m, rest, refl, team)

Team-named : (m : Member) (rest : List Member) → Team (m ∷ rest) → 1 ≤ length m.host_obu_name
unfolding Team
Team-named m rest team = team.0.0.1

abbrev pub with_joined : EvspHost → Active → Active
with_joined h a = record a {
  members = a.members ++ (new_member h ∷ []);
  activate_thread = true;
  list_len = plus_1 a.list_len;
}

add-joined :
    (h : EvspHost) (a : Active)
    → a.activate_thread ≡ true
    → add_activate_obu h a.members ≡ some (a.members ++ (new_member h ∷ []))
    → add_and_start true h a ≡ some (pos 2, with_joined h a)
unfolding add_and_start
add-joined h a is added = rw (add_and_start, added) (simp is refl)

start-let_in :
    (h : EvspHost) (m : Member) (rest : List Member) (a : Active)
    → a.activate_thread ≡ true
    → a.members ≡ m ∷ rest
    → (m.target_phase == h.target_phase) ≡ true
    → search_activate_obu h.obu_name (m ∷ rest) ≡ false
    → evsp_obu_activation_timer_start true (some h) a ≡ add_and_start true h a
unfolding evsp_obu_activation_timer_start
start-let_in h m rest a is e same new = simp (is, e, same, new) refl

-- A vehicle that the members' test lets in.
start_joined :
    (h : EvspHost) (m : Member) (rest : List Member) (a : Active)
    → 1 ≤ length h.obu_name
    → IsActive a
    → a.activate_thread ≡ true
    → a.members ≡ m ∷ rest
    → Team (m ∷ rest)
    → (m.target_phase == h.target_phase) ≡ true
    → search_activate_obu h.obu_name (m ∷ rest) ≡ false
    → Started h a
unfolding evsp_obu_activation_timer_start IsStarted
start_joined h m rest a named active is e team same new = (
  pos 2,
  with_joined h a,
  start-let_in h m rest a is e same new
      ∙ (add-joined h a is (simp e (add-named h m rest (Team-named m rest team)))),
  record {
    running = λ _. (
      rw e (joined-Team m rest h team named (ground (arith, same)) new),
      ap plus_1 (active.running is).1 ∙ ap pos (sym (length-append a.members (new_member h ∷ []))),
    );
    stopped = λ stop. cc;
  },
  inr (inr (refl, is, refl)),
)

start_next :
    (h : EvspHost) (m : Member) (rest : List Member) (a : Active)
    → 1 ≤ length h.obu_name
    → IsActive a
    → a.activate_thread ≡ true
    → a.members ≡ m ∷ rest
    → Team (m ∷ rest)
    → Started h a
unfolding evsp_obu_activation_timer_start IsStarted
start_next h m rest a named active is e team =
    elim (Bool-cases (m.target_phase == h.target_phase)) [
      | inr other ↦ (negsuc 0, a, simp (is, e, other) refl, active, inl (refl, refl, is))
      | inl same ↦ elim (Bool-cases (search_activate_obu h.obu_name (m ∷ rest))) [
        | inl old ↦ (negsuc 0, a, simp (is, e, same, old) refl, active, inl (refl, refl, is))
        | inr new ↦ start_joined h m rest a named active is e team same new
      ]
    ]

-- A named vehicle that asks for the activation, when threads can be created, is answered without a read
-- through NULL: it starts the thread (1), as the only member, exactly if none runs; it joins a running
-- one as the last member (2), or nothing changes (-1). The invariant is kept: the members of a running
-- thread want the same subphase, have distinct names and are counted right.
pub evsp_obu_activation_timer_start-IsActive :
    (h : EvspHost) (a : Active) → 1 ≤ length h.obu_name → IsActive a → Started h a
evsp_obu_activation_timer_start-IsActive h a named active = elim (Bool-cases a.activate_thread) [
  | inr idle ↦ start_first h a named active idle
  | inl is ↦
      let (m, rest, e, team) = Team-cases a.members (active.running is).0 in
      start_next h m rest a named active is e team
]
