-- ===== src/ErrorStatus/Calls.antt =====
-- Any calls of the setting and clearing functions, one after the other.
use vips_adaptive_traffi.Common.{
  ℕ, and_true, Bool-cases, inl, inr, ltb→lt, ==_iff, zero, suc, ◌/◌, ◌%◌, ◌<◌, ◌≡◌, refl, sym, ap,
  ◌∙◌, Bool, true, false, not, ◌&&◌, if◌then◌else◌, ◌==◌, ltb, List, [], ◌∷◌, arith, all,
}
use vips_adaptive_traffi.ErrorStatus.Bits.{
  dsrc_bit_position, set_dsrc_error, clear_dsrc_error, vms_bit_position, set_vms_error,
  clear_vms_error, disk_bit_position, set_disk_error, clear_disk_error, memory_bit_position,
  set_memory_error, clear_memory_error, tcfail_bit_position, set_tsc_5fcc_error,
  clear_tsc_5fcc_error, tc_655xx_err, set_655xx_error, clear_655xx_error,
  cloud_packet_change_strategy_2_phase_weight_err, set_phase_weight_err, clear_phase_weight_err,
}

-- The errors that have a bit.
pub data Fault : Type 0 where
  dsrc vms disk memory tcfail tc_655xx phase_weight : Fault

abbrev pub bit_of : Fault → ℕ
bit_of dsrc = dsrc_bit_position
bit_of vms = vms_bit_position
bit_of disk = disk_bit_position
bit_of memory = memory_bit_position
bit_of tcfail = tcfail_bit_position
bit_of tc_655xx = tc_655xx_err
bit_of phase_weight = cloud_packet_change_strategy_2_phase_weight_err

abbrev pub has : Fault → ℕ → Bool
has e status = (status / bit_of e) % 2 == 1

pub data Call : Type 0 where
  set_it clear_it : Fault → Call

unfoldable pub call : Call → ℕ → ℕ
call (set_it dsrc) s = set_dsrc_error s
call (set_it vms) s = set_vms_error s
call (set_it disk) s = set_disk_error s
call (set_it memory) s = set_memory_error s
call (set_it tcfail) s = set_tsc_5fcc_error s
call (set_it tc_655xx) s = set_655xx_error s
call (set_it phase_weight) s = set_phase_weight_err s
call (clear_it dsrc) s = clear_dsrc_error s
call (clear_it vms) s = clear_vms_error s
call (clear_it disk) s = clear_disk_error s
call (clear_it memory) s = clear_memory_error s
call (clear_it tcfail) s = clear_tsc_5fcc_error s
call (clear_it tc_655xx) s = clear_655xx_error s
call (clear_it phase_weight) s = clear_phase_weight_err s

unfoldable pub calls : List Call → ℕ → ℕ
calls [] s = s
calls (c ∷ cs) s = calls cs (call c s)

abbrev same : Fault → Fault → Bool
same e e' = bit_of e == bit_of e'

-- What the last call for an error did, or else what was there.
abbrev pub last_call : Fault → List Call → Bool → Bool
last_call e [] before = before
last_call e (set_it e' ∷ cs) before = last_call e cs (if same e e' then true else before)
last_call e (clear_it e' ∷ cs) before = last_call e cs (if same e e' then false else before)

abbrev faults : List Fault
faults = dsrc ∷ vms ∷ disk ∷ memory ∷ tcfail ∷ tc_655xx ∷ phase_weight ∷ []

eq_bool : Bool → Bool → Bool
eq_bool true b = b
eq_bool false b = not b

-- One call, looked at through every bit.
right_at : ℕ → Call → Bool
unfolding call eq_bool
right_at s c =
    all (λ e. eq_bool (has e (call c s)) (last_call e (c ∷ []) (has e s))) faults
    && ltb (call c s) 256

below : (ℕ → Bool) → ℕ → Bool
below p zero = true
below p (suc n) = p n && below p n

every : Call → Bool
unfolding right_at below
every c = below (λ s. right_at s c) 256

every-set : (e : Fault) → every (set_it e) ≡ true
unfolding every right_at below call eq_bool set_dsrc_error clear_dsrc_error set_vms_error
    clear_vms_error set_disk_error clear_disk_error set_memory_error clear_memory_error
    set_tsc_5fcc_error clear_tsc_5fcc_error set_655xx_error clear_655xx_error set_phase_weight_err
    clear_phase_weight_err
every-set dsrc = refl
every-set vms = refl
every-set disk = refl
every-set memory = refl
every-set tcfail = refl
every-set tc_655xx = refl
every-set phase_weight = refl

every-clear : (e : Fault) → every (clear_it e) ≡ true
unfolding every right_at below call eq_bool set_dsrc_error clear_dsrc_error set_vms_error
    clear_vms_error set_disk_error clear_disk_error set_memory_error clear_memory_error
    set_tsc_5fcc_error clear_tsc_5fcc_error set_655xx_error clear_655xx_error set_phase_weight_err
    clear_phase_weight_err
every-clear dsrc = refl
every-clear vms = refl
every-clear disk = refl
every-clear memory = refl
every-clear tcfail = refl
every-clear tc_655xx = refl
every-clear phase_weight = refl

every-call : (c : Call) → every c ≡ true
every-call (set_it e) = every-set e
every-call (clear_it e) = every-clear e

below-true : (p : ℕ → Bool) (n s : ℕ) → below p n ≡ true → s < n → p s ≡ true
unfolding below
below-true p zero s h k = absurd (omega (arith, k))
below-true p (suc n) s h k = elim (Bool-cases (s == n)) [
  | inl e ↦ ap p ((==_iff s n).0 e) ∙ (and_true (p n) (below p n) h).0
  | inr e ↦ below-true p n s (and_true (p n) (below p n) h).1 (ground (arith, k, e))
]

all-faults : (p : Fault → Bool) (e : Fault) → all p faults ≡ true → p e ≡ true
all-faults p dsrc h = ground arith
all-faults p vms h = ground arith
all-faults p disk h = ground arith
all-faults p memory h = ground arith
all-faults p tcfail h = ground arith
all-faults p tc_655xx h = ground arith
all-faults p phase_weight h = ground arith

eq_bool-is : (a b : Bool) → eq_bool a b ≡ true → a ≡ b
unfolding eq_bool
eq_bool-is true true h = refl
eq_bool-is true false h = sym h
eq_bool-is false true h = h
eq_bool-is false false h = refl

right-at :
    (c : Call) (s : ℕ)
    → s < 256
    → (call c s < 256) × ((e : Fault) → has e (call c s) ≡ last_call e (c ∷ []) (has e s))
unfolding every right_at
right-at c s h =
    let both =
      and_true (all (λ e. eq_bool (has e (call c s)) (last_call e (c ∷ []) (has e s))) faults)
        (ltb (call c s) 256) (below-true (λ s. right_at s c) 256 s (every-call c) h) in
    (
      ltb→lt (call c s) 256 both.1,
      λ e.
          eq_bool-is (has e (call c s)) (last_call e (c ∷ []) (has e s)) (
            all-faults (λ e. eq_bool (has e (call c s)) (last_call e (c ∷ []) (has e s))) e both.0),
    )

last_call-step :
    (e : Fault) (c : Call) (cs : List Call) (b : Bool)
    → last_call e cs (last_call e (c ∷ []) b) ≡ last_call e (c ∷ cs) b
last_call-step e (set_it e') cs b = refl
last_call-step e (clear_it e') cs b = refl

-- After any calls, the status is a byte, and an error has its bit when the last call for it set it,
-- or when no call was for it and it had its bit before.
pub calls-last_call :
    (cs : List Call) (s : ℕ) (e : Fault)
    → s < 256
    → (calls cs s < 256) × (has e (calls cs s) ≡ last_call e cs (has e s))
unfolding calls
calls-last_call [] s e h = (h, refl)
calls-last_call (c ∷ cs) s e h =
    let one = right-at c s h in
    let rest = calls-last_call cs (call c s) e one.0 in
    (rest.0, rest.1 ∙ ap (last_call e cs) (one.1 e) ∙ last_call-step e c cs (has e s))
