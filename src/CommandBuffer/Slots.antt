-- ===== src/CommandBuffer/Slots.antt =====
-- The array `command_buf[CYCLE_NUM][SUBPHASEID_NUM]` (src/traffic_signal_command_buffer.c).
use vips_adaptive_traffi.Common.{
  ℕ, zero, suc, ◌≤◌, ◌<◌, ◌≡◌, ◌≢◌, refl, ap, ◌⊎◌, inl, inr, List, [], ◌∷◌, length, get_or, set,
  All, arith, get_or-set_self, get_or-set_ne, length-set,
}
use native.Mathlib.Decide.{ℕ_discrete}
use vips_adaptive_traffi.Signal.{CommandObject, zero_object}
use vips_adaptive_traffi.CommandBuffer.State.{
  object_at, set_object, empty_buf, cycle_num, subphaseid_num,
}

abbrev pub Buf : Type 0
Buf = List (List CommandObject)

-- Three cycles of eight subphases.
pub record IsShaped (b : Buf) : Type 0 where
  pub cycles : length b ≡ cycle_num
  pub subphases : All (λ (row : List CommandObject). length row ≡ subphaseid_num) b

-- The cycle and the subphase number of an object of the array.
pub record InRange (c p : ℕ) : Type 0 where
  pub cycle_in : c < cycle_num
  pub phase_pos : 0 < p
  pub phase_in : p ≤ subphaseid_num

pub empty_buf-IsShaped : IsShaped empty_buf
empty_buf-IsShaped = omega arith

length-row :
    (b : Buf) (c : ℕ)
    → All (λ (row : List CommandObject). length row ≡ subphaseid_num) b
    → c < length b
    → length (get_or b c []) ≡ subphaseid_num
length-row [] c h lt = absurd (omega arith)
length-row (row ∷ b) zero h lt = h.0
length-row (row ∷ b) (suc c) h lt = length-row b c h.1 (omega arith)

set_row :
    (b : Buf) (c : ℕ) (row : List CommandObject)
    → All (λ (r : List CommandObject). length r ≡ subphaseid_num) b
    → (c < length b → length row ≡ subphaseid_num)
    → All (λ (r : List CommandObject). length r ≡ subphaseid_num) (set b c row)
set_row [] c row h k = h
set_row (r ∷ b) zero row h k = (k (omega arith), h.1)
set_row (r ∷ b) (suc c) row h k = (h.0, set_row b c row h.1 (λ lt. k (omega arith)))

-- A write keeps the shape, wherever it goes.
pub set_object-IsShaped :
    {b : Buf} (c p : ℕ) (o : CommandObject) → IsShaped b → IsShaped (set_object b c p o)
set_object-IsShaped c zero o h = h
set_object-IsShaped {b} c (suc j) o h = record {
  cycles = omega (arith, length-set b c (set (get_or b c []) j o), h.cycles);
  subphases =
      set_row b c (set (get_or b c []) j o) h.subphases
        (λ lt. omega (arith, length-set (get_or b c []) j o, length-row b c h.subphases lt));
}

-- What is written is read back.
pub object_at-set_object_self :
    {b : Buf} (c p : ℕ) (o : CommandObject)
    → IsShaped b
    → InRange c p
    → object_at (set_object b c p o) c p ≡ o
object_at-set_object_self c zero o h i = absurd (omega arith)
object_at-set_object_self {b} c (suc j) o h i =
    rw (get_or-set_self b c (set (get_or b c []) j o) [] (omega arith)) (
      get_or-set_self (get_or b c []) j o zero_object
        (omega (arith, length-row b c h.subphases (omega arith))))

-- Every other object stays.
pub object_at-set_object_ne :
    {b : Buf} (c p : ℕ) (o : CommandObject) (c' p' : ℕ)
    → IsShaped b
    → InRange c p
    → (c ≢ c') ⊎ (p ≢ p')
    → object_at (set_object b c p o) c' p' ≡ object_at b c' p'
object_at-set_object_ne c p o c' zero h i d = refl
object_at-set_object_ne c zero o c' (suc j') h i d = refl
object_at-set_object_ne {b} c (suc j) o c' (suc j') h i d = elim (ℕ_discrete c c') [
  | no ne ↦ ap (λ r. get_or r j' zero_object) (get_or-set_ne b c c' _ [] ne)
  | yes e ↦ rw (← e) (
      rw (get_or-set_self b c (set (get_or b c []) j o) [] (omega arith)) (
        get_or-set_ne (get_or b c []) j j' o zero_object
          (λ q. elim d [ inl n ↦ n e | inr n ↦ n (ap suc q) ])))
]
