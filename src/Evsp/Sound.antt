-- ===== src/Evsp/Sound.antt =====
-- A round keeps the thread of the emergency vehicles sound
-- (application/EVSP/src/EVSP_subphase_threshold.c).
use vips_adaptive_traffi.Common.{
  ℕ, ◌-◌, ◌≤◌, ◌≡◌, ◌≢◌, refl, sym, ap, ◌∙◌, ◌⊎◌, inl, inr, true, false, Option, some, none, List,
  [], ◌∷◌, Bytes, length, All, ◌==◌, pos, ◌-ℤ◌, -ℤ_parts, eq_of_parts, arith,
}
use mathlib.Core.Path.{subst}
use vips_adaptive_traffi.Signal.{SignalStatus, AppObj}
use vips_adaptive_traffi.CommandBuffer.State.{State}
use vips_adaptive_traffi.Hosts.Evsp.{EvspHost}
use vips_adaptive_traffi.Evsp.Adjust.{Arrival}
use vips_adaptive_traffi.Evsp.Activate.{Member, Active}
use vips_adaptive_traffi.Evsp.Round.{drop_ended, go_on, without_ended, activation_round, end_thread}
use vips_adaptive_traffi.Evsp.Team.{Team, Wants, Distinct, drop_ended-Team, drop_ended-length}
use vips_adaptive_traffi.Evsp.Running.{IsActive}
use vips_adaptive_traffi.Evsp.Optimize.{IsHost, names, Runs, optimize-Runs}

-- A round ends the thread, without a plan or a member, or goes on with those who are hosts still.
unfoldable pub Goes : Option (List ℕ) → List EvspHost → Active → Active → Type 0
Goes plan hosts a a' =
    ((a'.activate_thread ≡ false) × ((plan ≡ none) ⊎ (drop_ended hosts a.members ≡ [])))
    ⊎ ((a'.activate_thread ≡ true)
        × (plan ≢ none)
        × (names a'.members ≡ names (drop_ended hosts a.members)))

abbrev pub Ticks :
    AppObj
    → (EvspHost → Arrival)
    → Option (List ℕ)
    → SignalStatus
    → List EvspHost
    → Active
    → State
    → Type 0
Ticks evsp arrival plan s hosts a buffer =
    (a' : Active) × (buffer' : State) × (activation_round evsp arrival plan s hosts a buffer
      ≡ some (a', buffer'))
    × IsActive a'
    × Goes plan hosts a a'

end_thread-IsActive : (a : Active) → IsActive (end_thread a)
end_thread-IsActive a = record { running = λ e. cc; stopped = λ e. refl }

Runs-IsActive : (ns : List Bytes) (a : Active) → Runs ns a → IsActive a
Runs-IsActive ns a runs = record { running = λ e. (runs.1, runs.2); stopped = λ e. cc }

left-count : (n k : ℕ) → k ≤ n → pos n -ℤ pos (n - k) ≡ pos k
left-count n k h =
    ground (arith, h, -ℤ_parts (pos n) (pos (n - k)), eq_of_parts (pos n -ℤ pos (n - k)) (pos k))

Team-some : (ms : List Member) → Team ms → (length ms == 0) ≡ false
unfolding Team
Team-some [] team = absurd team
Team-some (m ∷ ms) team = ground arith

Team-of :
    (t : ℕ) (m : Member) (ms : List Member)
    → All (Wants t) (m ∷ ms)
    → Distinct (m ∷ ms)
    → Team (m ∷ ms)
unfolding Team
Team-of t m ms wants distinct =
    (subst (λ u. All (Wants u) (m ∷ ms)) (sym wants.0.0) wants, distinct)

Team-parts : (ms : List Member) → Team ms → (t : ℕ) × All (Wants t) ms × Distinct ms
unfolding Team
Team-parts [] team = absurd team
Team-parts (m ∷ ms) team = (m.target_phase, team.0, team.1)

-- What a round does with the members that are left of `a`.
go_on-IsActive :
    (evsp : AppObj) (arrival : EvspHost → Arrival) (ids : List ℕ) (s : SignalStatus)
    (hosts : List EvspHost) (left : List Member) (a : Active) (buffer : State)
    → All (IsHost hosts) left
    → a.activate_thread ≡ true
    → a.list_len ≡ pos (length a.members)
    → length left ≤ length a.members
    → (t : ℕ) × All (Wants t) left × Distinct left
    → (a' : Active) × (buffer' : State) × (go_on evsp arrival ids s hosts left
          (without_ended left a)
          buffer
        ≡ some (a', buffer'))
      × IsActive a'
      × (((a'.activate_thread ≡ false) × (left ≡ []))
          ⊎ ((a'.activate_thread ≡ true) × (names a'.members ≡ names left)))
unfolding go_on
go_on-IsActive evsp arrival ids s hosts [] a buffer all is count fewer parts = (
  end_thread (without_ended [] a),
  buffer,
  refl,
  end_thread-IsActive (without_ended [] a),
  inl (refl, refl),
)
go_on-IsActive evsp arrival ids s hosts (m ∷ ms) a buffer all is count fewer (t, wants, distinct) =
    let runs : Runs (names (m ∷ ms)) (without_ended (m ∷ ms) a) = (
      is,
      Team-of t m ms wants distinct,
      ap (λ n. n -ℤ pos (length a.members - length (m ∷ ms))) count
          ∙ left-count (length a.members) (length (m ∷ ms)) fewer,
      refl,
    ) in
    let (a', buffer', does, runs') =
      optimize-Runs evsp arrival ids s hosts m (names (m ∷ ms)) (without_ended (m ∷ ms) a) buffer
        all runs in
    (a', buffer', does, Runs-IsActive (names (m ∷ ms)) a' runs', inr (runs'.0, runs'.3))

-- A round of a running thread, all members of which from the first that is still a host on are hosts,
-- comes to an end without a read through NULL and keeps the invariant: a thread that goes on has a counted team of one target and
-- distinct names. It ends the thread only without a plan table or when no member is a host any more;
-- else exactly the members behind the ended ones stay, in their order.
pub activation_round-IsActive :
    (evsp : AppObj) (arrival : EvspHost → Arrival) (plan : Option (List ℕ)) (s : SignalStatus)
    (hosts : List EvspHost) (a : Active) (buffer : State)
    → IsActive a
    → a.activate_thread ≡ true
    → All (IsHost hosts) (drop_ended hosts a.members)
    → Ticks evsp arrival plan s hosts a buffer
unfolding activation_round Goes
activation_round-IsActive evsp arrival none s hosts a buffer active is all =
    (end_thread a, buffer, refl, end_thread-IsActive a, inl (refl, inl refl))
activation_round-IsActive evsp arrival (some ids) s hosts a buffer active is all =
    let team = (active.running is).0 in
    let left = drop_ended hosts a.members in
    let parts = Team-parts a.members team in
    let kept = drop_ended-Team parts.0 hosts a.members parts.1 parts.2 in
    let (a', buffer', does, active', goes) =
      go_on-IsActive evsp arrival ids s hosts left a buffer all is (active.running is).1
        (drop_ended-length hosts a.members) (parts.0, kept.0, kept.1) in
    (
      a',
      buffer',
      simp (Team-some a.members team) does,
      active',
      elim goes [ inl ends ↦ inl (ends.0, inr ends.1) | inr on ↦ inr (on.0, λ e. cc, on.1) ],
    )
