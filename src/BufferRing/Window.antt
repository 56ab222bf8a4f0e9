-- ===== src/BufferRing/Window.antt =====
-- A window of slots that runs round the ring of src/buffer.c.
use vips_adaptive_traffi.Common.{
  ℕ, zero, suc, ◌+◌, ◌-◌, ◌%◌, ◌≤◌, ◌<◌, ◌≡◌, refl, ap, ap₂, ◌∙◌, false, List, [], ◌∷◌, ◌++◌,
  length, get_or, set, arith, ◌==◌, leb, if◌then◌else◌, u8, get_or-set_self, get_or-set_ne, inl,
  inr, Bool-cases,
}
use native.Mathlib.Nat.{mod-eq_of_lt, mod_self}

-- The slot behind a slot.
abbrev pub succ : ℕ → ℕ → ℕ
succ m i = if suc i == m then 0 else suc i

pub mod_succ : (m i : ℕ) → i < m → (i + 1) % m ≡ succ m i
mod_succ m i h = elim (Bool-cases (suc i == m)) [
  | inl e ↦ let last : i + 1 ≡ m = ground arith in rw e (ap (λ k. k % m) last ∙ mod_self m)
  | inr e ↦
      let small : i + 1 < m = ground arith in
      let plus : i + 1 ≡ suc i = omega arith in rw e (mod-eq_of_lt small ∙ plus)
]

-- How many slots lie from a slot on up to another.
abbrev pub distance : ℕ → ℕ → ℕ → ℕ
distance m i j = if leb i j then j - i else j + m - i

-- The pointers in n slots from one on.
abbrev pub window : List ℕ → ℕ → ℕ → ℕ → List ℕ
window slots m zero i = []
window slots m (suc n) i = get_or slots i 0 ∷ window slots m n (succ m i)

pub length-window : (slots : List ℕ) (m n i : ℕ) → length (window slots m n i) ≡ n
length-window slots m zero i = refl
length-window slots m (suc n) i = ap suc (length-window slots m n (succ m i))

-- A slot that the window does not reach may change.
window-set :
    (slots : List ℕ) (m n i l p : ℕ)
    → i < m
    → l < m
    → n ≤ distance m i l
    → window (set slots l p) m n i ≡ window slots m n i
window-set slots m zero i l p h k d = refl
window-set slots m (suc n) i l p h k d =
    ap₂ (λ x xs. x ∷ xs) (get_or-set_ne slots l i p 0 (ground arith))
      (window-set slots m n (succ m i) l p (ground arith) k (ground arith))

-- The window grows at its end.
window-snoc :
    (slots : List ℕ) (m n i l : ℕ)
    → i < m
    → l < m
    → n ≡ distance m i l
    → window slots m (suc n) i ≡ window slots m n i ++ (get_or slots l 0 ∷ [])
window-snoc slots m zero i l h k d = ap (λ j. get_or slots j 0 ∷ []) (ground arith)
window-snoc slots m (suc n) i l h k d =
    ap (λ xs. get_or slots i 0 ∷ xs)
      (window-snoc slots m n (succ m i) l (ground arith) k (ground arith))

distance-succ :
    (m i l : ℕ)
    → i < m
    → l < m
    → (succ m l == i) ≡ false
    → distance m i (succ m l) ≡ suc (distance m i l)
distance-succ m i l h k e = ground arith

pub full_iff : (m i l : ℕ) → i < m → l < m → (succ m l == i) ≡ (suc (distance m i l) == m)
full_iff m i l h k = ground arith

pub succ_in : (m i : ℕ) → i < m → succ m i < m
succ_in m i h = ground arith

pub succ_byte : (m i : ℕ) → i < m → m < 256 → u8 ((i + 1) % m) ≡ succ m i
succ_byte m i h k = let small = succ_in m i h in rw (mod_succ m i h) (omega (arith, small))

-- The window with a buffer put behind it.
pub window-push :
    (slots : List ℕ) (m i l p : ℕ)
    → m ≤ length slots
    → i < m
    → l < m
    → (succ m l == i) ≡ false
    → window (set slots l p) m (distance m i (succ m l)) i
      ≡ window slots m (distance m i l) i ++ (p ∷ [])
window-push slots m i l p fits h k e =
    ap (λ n. window (set slots l p) m n i) (distance-succ m i l h k e)
    ∙ window-snoc (set slots l p) m (distance m i l) i l h k refl
    ∙ ap₂ (λ xs x. xs ++ (x ∷ [])) (window-set slots m (distance m i l) i l p h k (omega arith))
        (get_or-set_self slots l p 0 (omega (arith, fits)))

-- The window without its first buffer.
pub window-pop :
    (slots : List ℕ) (m i l : ℕ)
    → i < m
    → l < m
    → (i == l) ≡ false
    → window slots m (distance m i l) i
      ≡ get_or slots i 0 ∷ window slots m (distance m (succ m i) l) (succ m i)
window-pop slots m i l h k e = ap (λ n. window slots m n i) (nonempty m i l h k e)
  where
    nonempty :
        (m' a b : ℕ)
        → a < m'
        → b < m'
        → (a == b) ≡ false
        → distance m' a b ≡ suc (distance m' (succ m' a) b)
    nonempty m' a b h' k' e' = ground arith
