-- ===== src/Compensation/Order.antt =====
-- The bubble sort of `allocate_remaining_time` (src/traffic_compensation.c).
use vips_adaptive_traffi.Common.{
  ℕ, zero, suc, ◌+◌, ◌-◌, ◌≤◌, ◌<◌, ◌≡◌, refl, ap, ◌∙◌, List, [], ◌∷◌, ◌++◌, length, All, arith,
  ltb, ◌==◌, if◌then◌else◌, Bool-cases, inl, inr,
}
use vips_adaptive_traffi.Compensation.Share.{bubble_pass, bubble_sort}

-- How often a number stands in a list.
abbrev pub count : ℕ → List ℕ → ℕ
count v [] = 0
count v (x ∷ xs) = (if x == v then 1 else 0) + count v xs

All-snoc : (P : ℕ → Type 0) (xs : List ℕ) (m : ℕ) → All P xs → P m → All P (xs ++ (m ∷ []))
All-snoc P [] m h k = (k, tt)
All-snoc P (x ∷ xs) m h k = (h.0, All-snoc P xs m h.1 k)

module _ (key : ℕ → ℕ) where
  -- The longest first.
  abbrev pub IsDescending : List ℕ → Type 0
  IsDescending [] = Unit
  IsDescending (x ∷ xs) = All (λ y. key y ≤ key x) xs × IsDescending xs

  -- A list with its smallest element at the end.
  record SmallestLast (xs zs : List ℕ) : Type 0 where
    pub front : List ℕ
    pub last : ℕ
    pub split : zs ≡ front ++ (last ∷ [])
    pub front_above : All (λ y. key last ≤ key y) front
    pub all_above : All (λ y. key last ≤ key y) xs
    pub front_length : suc (length front) ≡ length xs

  bubble_pass-SmallestLast :
      (n : ℕ) (x : ℕ) (xs : List ℕ)
      → length xs ≡ n
      → SmallestLast (x ∷ xs) (bubble_pass key n (x ∷ xs))
  unfolding bubble_pass
  bubble_pass-SmallestLast zero x [] h = record {
    front = [];
    last = x;
    split = refl;
    front_above = tt;
    all_above = (omega arith, tt);
    front_length = refl;
  }
  bubble_pass-SmallestLast zero x (y ∷ xs) h = absurd (omega arith)
  bubble_pass-SmallestLast (suc n) x [] h = absurd (omega arith)
  bubble_pass-SmallestLast (suc n) x (y ∷ xs) h = elim (Bool-cases (ltb (key x) (key y))) [
    | inl e ↦
        let k = bubble_pass-SmallestLast n x xs (omega (arith, h)) in
        let above : key k.last ≤ key y = ground (arith, k.all_above.0) in
        rw e record {
          front = y ∷ k.front;
          last = k.last;
          split = ap (λ l. y ∷ l) k.split;
          front_above = (above, k.front_above);
          all_above = (k.all_above.0, (above, k.all_above.1));
          front_length = omega (arith, k.front_length);
        }
    | inr e ↦
        let k = bubble_pass-SmallestLast n y xs (omega (arith, h)) in
        let above : key k.last ≤ key x = ground (arith, k.all_above.0) in
        rw e record {
          front = x ∷ k.front;
          last = k.last;
          split = ap (λ l. x ∷ l) k.split;
          front_above = (above, k.front_above);
          all_above = (above, (k.all_above.0, k.all_above.1));
          front_length = omega (arith, k.front_length);
        }
  ]

  -- A pass does not reach what stands behind its last comparison.
  bubble_pass-append :
      (n : ℕ) (xs zs : List ℕ)
      → n < length xs
      → bubble_pass key n (xs ++ zs) ≡ bubble_pass key n xs ++ zs
  unfolding bubble_pass
  bubble_pass-append zero xs zs h = refl
  bubble_pass-append (suc n) [] zs h = absurd (omega arith)
  bubble_pass-append (suc n) (x ∷ []) zs h = absurd (omega arith)
  bubble_pass-append (suc n) (x ∷ y ∷ xs) zs h = elim (Bool-cases (ltb (key x) (key y))) [
    | inl e ↦ rw e (ap (λ l. y ∷ l) (bubble_pass-append n (x ∷ xs) zs (omega (arith, h))))
    | inr e ↦ rw e (ap (λ l. x ∷ l) (bubble_pass-append n (y ∷ xs) zs (omega (arith, h))))
  ]

  length-bubble_pass : (n : ℕ) (xs : List ℕ) → length (bubble_pass key n xs) ≡ length xs
  unfolding bubble_pass
  length-bubble_pass zero xs = refl
  length-bubble_pass (suc n) [] = refl
  length-bubble_pass (suc n) (x ∷ []) = refl
  length-bubble_pass (suc n) (x ∷ y ∷ xs) = elim (Bool-cases (ltb (key x) (key y))) [
    | inl e ↦ rw e (ap suc (length-bubble_pass n (x ∷ xs)))
    | inr e ↦ rw e (ap suc (length-bubble_pass n (y ∷ xs)))
  ]

  bubble_pass-All : (P : ℕ → Type 0) (n : ℕ) (xs : List ℕ) → All P xs → All P (bubble_pass key n xs)
  unfolding bubble_pass
  bubble_pass-All P zero xs h = h
  bubble_pass-All P (suc n) [] h = h
  bubble_pass-All P (suc n) (x ∷ []) h = h
  bubble_pass-All P (suc n) (x ∷ y ∷ xs) h = elim (Bool-cases (ltb (key x) (key y))) [
    | inl e ↦ rw e (h.1.0, bubble_pass-All P n (x ∷ xs) (h.0, h.1.1))
    | inr e ↦ rw e (h.0, bubble_pass-All P n (y ∷ xs) (h.1.0, h.1.1))
  ]

  count-bubble_pass : (v n : ℕ) (xs : List ℕ) → count v (bubble_pass key n xs) ≡ count v xs
  unfolding bubble_pass
  count-bubble_pass v zero xs = refl
  count-bubble_pass v (suc n) [] = refl
  count-bubble_pass v (suc n) (x ∷ []) = refl
  count-bubble_pass v (suc n) (x ∷ y ∷ xs) = elim (Bool-cases (ltb (key x) (key y))) [
    | inl e ↦ rw e (omega (arith, count-bubble_pass v n (x ∷ xs)))
    | inr e ↦ rw e (omega (arith, count-bubble_pass v n (y ∷ xs)))
  ]

  bubble_sort-All : (P : ℕ → Type 0) (n : ℕ) (xs : List ℕ) → All P xs → All P (bubble_sort key n xs)
  unfolding bubble_sort
  bubble_sort-All P zero xs h = h
  bubble_sort-All P (suc n) xs h =
      bubble_sort-All P n (bubble_pass key (suc n) xs) (bubble_pass-All P (suc n) xs h)

  count-bubble_sort : (v n : ℕ) (xs : List ℕ) → count v (bubble_sort key n xs) ≡ count v xs
  unfolding bubble_sort
  count-bubble_sort v zero xs = refl
  count-bubble_sort v (suc n) xs =
      count-bubble_sort v n (bubble_pass key (suc n) xs) ∙ count-bubble_pass v (suc n) xs

  bubble_sort-append :
      (n : ℕ) (xs zs : List ℕ)
      → n < length xs
      → bubble_sort key n (xs ++ zs) ≡ bubble_sort key n xs ++ zs
  unfolding bubble_sort
  bubble_sort-append zero xs zs h = refl
  bubble_sort-append (suc n) xs zs h =
      ap (bubble_sort key n) (bubble_pass-append (suc n) xs zs h)
      ∙ bubble_sort-append n (bubble_pass key (suc n) xs) zs
          (omega (arith, length-bubble_pass (suc n) xs, h))

  IsDescending-snoc :
      (xs : List ℕ) (m : ℕ)
      → IsDescending xs
      → All (λ y. key m ≤ key y) xs
      → IsDescending (xs ++ (m ∷ []))
  IsDescending-snoc [] m h k = (tt, tt)
  IsDescending-snoc (x ∷ xs) m h k =
      (All-snoc (λ y. key y ≤ key x) xs m h.0 k.0, IsDescending-snoc xs m h.1 k.1)

  bubble_sort-IsDescending :
      (n : ℕ) (xs : List ℕ) → length xs ≡ suc n → IsDescending (bubble_sort key n xs)
  unfolding bubble_sort
  bubble_sort-IsDescending n [] h = absurd (omega arith)
  bubble_sort-IsDescending zero (x ∷ []) h = (tt, tt)
  bubble_sort-IsDescending zero (x ∷ y ∷ xs) h = absurd (omega arith)
  bubble_sort-IsDescending (suc n) (x ∷ xs) h =
      let k = bubble_pass-SmallestLast (suc n) x xs (omega (arith, h)) in
      let long : n < length k.front = omega (arith, k.front_length, h) in
      rw k.split (
        rw (bubble_sort-append n k.front (k.last ∷ []) long) (
          IsDescending-snoc (bubble_sort key n k.front) k.last
            (bubble_sort-IsDescending n k.front (omega (arith, k.front_length, h)))
            (bubble_sort-All (λ y. key k.last ≤ key y) n k.front k.front_above)))

  -- The order in which the subphases take the remaining seconds: the sort puts the longest green
  -- time first, and every index stands in it as often as before.
  pub bubble_sort-sorts :
      (xs : List ℕ)
      → IsDescending (bubble_sort key (length xs - 1) xs)
        × ((v : ℕ) → count v (bubble_sort key (length xs - 1) xs) ≡ count v xs)
  unfolding bubble_sort
  bubble_sort-sorts [] = (tt, λ v. refl)
  bubble_sort-sorts (x ∷ xs) = (
    bubble_sort-IsDescending (suc (length xs) - 1) (x ∷ xs) (omega arith),
    λ v. count-bubble_sort v (suc (length xs) - 1) (x ∷ xs),
  )
