-- ===== src/Evsp/Team.antt =====
-- The emergency vehicles that adjust the signal together stay a team: they want the same subphase.
use vips_adaptive_traffi.Common.{
  ℕ, ◌≤◌, ◌≡◌, refl, sym, ap, ◌∙◌, inl, inr, false, some, List, [], ◌∷◌, ◌++◌, Bytes, take,
  take-take, bytes_eq, bytes_eq_iff, length, All, ◌==◌, arith, Option-cases,
}
use vips_adaptive_traffi.Hosts.Evsp.{EvspHost}
use vips_adaptive_traffi.Evsp.Activate.{
  Member, same_id, search_activate_obu, new_member, add_activate_obu,
}
use vips_adaptive_traffi.Evsp.Round.{host_named, drop_ended}

-- A member with a name, that wants a subphase.
abbrev pub Wants : ℕ → Member → Type 0
Wants t m = (m.target_phase ≡ t) × (1 ≤ length m.host_obu_name)

-- No two members have the same name.
unfoldable pub Distinct : List Member → Type 0
Distinct [] = Unit
Distinct (m ∷ ms) = (search_activate_obu m.host_obu_name ms ≡ false) × Distinct ms

unfoldable pub Team : List Member → Type 0
unfolding Distinct
Team [] = ⊥
Team (m ∷ ms) = All (Wants m.target_phase) (m ∷ ms) × Distinct (m ∷ ms)

search-append :
    (name : Bytes) (ms : List Member) (n : Member)
    → search_activate_obu name ms ≡ false
    → same_id n.host_obu_name name ≡ false
    → search_activate_obu name (ms ++ (n ∷ [])) ≡ false
unfolding search_activate_obu
search-append name [] n h k = rw k refl
search-append name (m ∷ ms) n h k = ground (arith, k, h, search-append name ms n)

same_id-swap : (a b : Bytes) → same_id a b ≡ false → same_id b a ≡ false
same_id-swap a b h =
    ground (arith, h, bytes_eq_iff (take 16 a) (take 16 b), bytes_eq_iff (take 16 b) (take 16 a))

Distinct-append :
    (ms : List Member) (n : Member)
    → Distinct ms
    → search_activate_obu n.host_obu_name ms ≡ false
    → Distinct (ms ++ (n ∷ []))
unfolding Distinct search_activate_obu
Distinct-append [] n h k = (refl, tt)
Distinct-append (m ∷ ms) n h k = (
  search-append m.host_obu_name ms n h.0
      (same_id-swap m.host_obu_name n.host_obu_name (ground (arith, k))),
  Distinct-append ms n h.1 (ground (arith, k)),
)

Wants-append :
    (t : ℕ) (ms : List Member) (n : Member)
    → All (Wants t) ms
    → Wants t n
    → All (Wants t) (ms ++ (n ∷ []))
Wants-append t [] n h k = (k, tt)
Wants-append t (m ∷ ms) n h k = (h.0, Wants-append t ms n h.1 k)

search-take :
    (name : Bytes) (ms : List Member)
    → search_activate_obu (take 16 name) ms ≡ search_activate_obu name ms
unfolding search_activate_obu
search-take name [] = refl
search-take name (m ∷ ms) =
    let same : same_id m.host_obu_name (take 16 name) ≡ same_id m.host_obu_name name =
      ap (bytes_eq (take 16 m.host_obu_name)) (take-take 16 name) in
    rw same (rw (search-take name ms) refl)

-- The members behind the ended ones are a team still.
pub drop_ended-Team :
    (t : ℕ) (hosts : List EvspHost) (ms : List Member)
    → All (Wants t) ms
    → Distinct ms
    → All (Wants t) (drop_ended hosts ms) × Distinct (drop_ended hosts ms)
unfolding drop_ended Distinct
drop_ended-Team t hosts [] h k = (tt, tt)
drop_ended-Team t hosts (m ∷ ms) h k = elim (Option-cases (host_named m.host_obu_name hosts)) [
  | inl gone ↦ rw (drop_ended, gone) (drop_ended-Team t hosts ms h.1 k.1)
  | inr (host, is) ↦ rw (drop_ended, is) (h, k)
]

pub drop_ended-length :
    (hosts : List EvspHost) (ms : List Member) → length (drop_ended hosts ms) ≤ length ms
unfolding drop_ended
drop_ended-length hosts [] = omega arith
drop_ended-length hosts (m ∷ ms) = elim (Option-cases (host_named m.host_obu_name hosts)) [
  | inl gone ↦ rw (drop_ended, gone) (omega (arith, drop_ended-length hosts ms))
  | inr (host, is) ↦ rw (drop_ended, is) (omega arith)
]

take-named : (xs : Bytes) → 1 ≤ length xs → 1 ≤ length (take 16 xs)
take-named [] h = absurd (omega (arith, h))
take-named (x ∷ xs) h = omega arith

new-Wants :
    (h : EvspHost) (t : ℕ) → 1 ≤ length h.obu_name → t ≡ h.target_phase → Wants t (new_member h)
new-Wants h t named same = (sym same, take-named h.obu_name named)

pub joined-Team :
    (m : Member) (rest : List Member) (h : EvspHost)
    → Team (m ∷ rest)
    → 1 ≤ length h.obu_name
    → m.target_phase ≡ h.target_phase
    → search_activate_obu h.obu_name (m ∷ rest) ≡ false
    → Team ((m ∷ rest) ++ (new_member h ∷ []))
unfolding Team
joined-Team m rest h team named same new = (
  Wants-append m.target_phase (m ∷ rest) (new_member h) team.0
      (new-Wants h m.target_phase named same),
  Distinct-append (m ∷ rest) (new_member h) team.1 (search-take h.obu_name (m ∷ rest) ∙ new),
)

pub add-named :
    (h : EvspHost) (m : Member) (rest : List Member)
    → 1 ≤ length m.host_obu_name
    → add_activate_obu h (m ∷ rest) ≡ some ((m ∷ rest) ++ (new_member h ∷ []))
unfolding add_activate_obu
add-named h m rest named =
    let is : (length m.host_obu_name == 0) ≡ false = ground (arith, named) in rw is refl

pub alone-Team : (h : EvspHost) → 1 ≤ length h.obu_name → Team (new_member h ∷ [])
unfolding Team search_activate_obu
alone-Team h named = ((new-Wants h h.target_phase named refl, tt), (refl, tt))
