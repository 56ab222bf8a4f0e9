-- ===== src/Hosts/ByName.antt =====
-- Lists of objects with a name, of which the first ten characters count (`OBU_NAME_MAX_LEN`).
use vips_adaptive_traffi.Common.{
  ◌≡◌, refl, ◌∙◌, Bool, true, Option, some, none, List, [], ◌∷◌, Bytes, bytes_eq, bytes_eq_iff,
  take, strncmp_eq, arith, if◌then◌else◌, Bool-cases, inl, inr,
}

abbrev pub same_name : Bytes → Bytes → Bool
same_name a b = strncmp_eq a b 10

module _ {A : Type 0} (name : A → Bytes) where
  -- The first object of the name.
  unfoldable pub find : Bytes → List A → Option A
  find n [] = none
  find n (x ∷ xs) = if same_name (name x) n then some x else find n xs

  -- The first object of the name is changed, or a new one appended.
  unfoldable pub change_or_append : Bytes → (A → A) → A → List A → List A
  change_or_append n f new [] = new ∷ []
  change_or_append n f new (x ∷ xs) =
      let rest = change_or_append n f new xs in if same_name (name x) n then f x ∷ xs else x ∷ rest

  -- The first object of the name is taken out.
  unfoldable pub remove : Bytes → List A → List A
  remove n [] = []
  remove n (x ∷ xs) = let rest = remove n xs in if same_name (name x) n then xs else x ∷ rest

  -- Every object stands once.
  unfoldable pub Unique : List A → Type 0
  Unique [] = Unit
  Unique (x ∷ xs) = (find (name x) xs ≡ none) × Unique xs

  -- What the operation makes of the object that is found.
  abbrev pub changed : (A → A) → A → Option A → A
  changed f new none = new
  changed f new (some x) = f x

  pub find-change_or_append :
      (n m : Bytes) (f : A → A) (new : A)
      → ((x : A) → name (f x) ≡ name x)
      → bytes_eq (take 10 (name new)) (take 10 n) ≡ true
      → (l : List A)
      → find m (change_or_append n f new l)
        ≡ (if same_name n m then some (changed f new (find n l)) else find m l)
  unfolding find change_or_append
  find-change_or_append n m f new k e [] = ground (
    arith,
    bytes_eq_iff (take 10 (name new)) (take 10 n),
    bytes_eq_iff (take 10 (name new)) (take 10 m),
    bytes_eq_iff (take 10 n) (take 10 m),
  )
  find-change_or_append n m f new k e (x ∷ xs) = ground (
    arith,
    k x,
    find-change_or_append n m f new k e xs,
    bytes_eq_iff (take 10 (name x)) (take 10 n),
    bytes_eq_iff (take 10 (name x)) (take 10 m),
    bytes_eq_iff (take 10 n) (take 10 m),
  )

  same-none : (n m : Bytes) (l : List A) → same_name n m ≡ true → find n l ≡ none → find m l ≡ none
  unfolding find
  same-none n m [] e h = refl
  same-none n m (x ∷ xs) e h =
      ground (arith, same-none n m xs e, bytes_eq_iff (take 10 n) (take 10 m))

  pub find-remove :
      (n m : Bytes) (l : List A)
      → Unique l
      → find m (remove n l) ≡ (if same_name n m then none else find m l)
  unfolding find remove Unique
  find-remove n m [] h = ground arith
  find-remove n m (x ∷ xs) h = ground (
    arith,
    find-remove n m xs h.1,
    h.0,
    same-none (name x) m xs,
    bytes_eq_iff (take 10 (name x)) (take 10 n),
    bytes_eq_iff (take 10 (name x)) (take 10 m),
    bytes_eq_iff (take 10 n) (take 10 m),
  )

  pub change_or_append-Unique :
      (n : Bytes) (f : A → A) (new : A)
      → ((x : A) → name (f x) ≡ name x)
      → bytes_eq (take 10 (name new)) (take 10 n) ≡ true
      → (l : List A) → Unique l
      → Unique (change_or_append n f new l)
  unfolding change_or_append Unique find
  change_or_append-Unique n f new k e [] h = (refl, tt)
  change_or_append-Unique n f new k e (x ∷ xs) h = elim (Bool-cases (same_name (name x) n)) [
    | inl b ↦ rw b (rw (k x) h.0, h.1)
    | inr b ↦ rw b (
      find-change_or_append n (name x) f new k e xs
          ∙ ground (
            arith,
            b,
            h.0,
            bytes_eq_iff (take 10 (name x)) (take 10 n),
            bytes_eq_iff (take 10 n) (take 10 (name x)),
          ),
      change_or_append-Unique n f new k e xs h.1,
    )
  ]

  pub remove-Unique : (n : Bytes) (l : List A) → Unique l → Unique (remove n l)
  unfolding remove Unique
  remove-Unique n [] h = tt
  remove-Unique n (x ∷ xs) h = elim (Bool-cases (same_name (name x) n)) [
    | inl b ↦ rw b h.1
    | inr b ↦ rw b (
      find-remove n (name x) xs h.1
          ∙ ground (
            arith,
            b,
            h.0,
            bytes_eq_iff (take 10 (name x)) (take 10 n),
            bytes_eq_iff (take 10 n) (take 10 (name x)),
          ),
      remove-Unique n xs h.1,
    )
  ]
