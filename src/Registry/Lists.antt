-- ===== src/Registry/Lists.antt =====
-- One list of callbacks: the order by priority, and the callbacks of an application.
use vips_adaptive_traffi.Common.{
  ℕ, ◌≤◌, ◌≡◌, refl, true, false, List, [], ◌∷◌, All, ltb, arith, Bool-cases, inl, inr,
}
use vips_adaptive_traffi.Registry.Apps.{Callback, insert_by_priority, is_of_app, meets_app, called}

-- No callback stands behind one of a greater priority number.
unfoldable pub InOrder : List Callback → Type 0
InOrder [] = Unit
InOrder (c ∷ cs) = All (λ d. c.priority ≤ d.priority) cs × InOrder cs

insert-All :
    (n : ℕ) (new : Callback) (cs : List Callback)
    → n ≤ new.priority
    → All (λ d. n ≤ d.priority) cs
    → All (λ d. n ≤ d.priority) (insert_by_priority new cs)
unfolding insert_by_priority
insert-All n new [] h k = (h, tt)
insert-All n new (c ∷ cs) h k = elim (Bool-cases (ltb new.priority c.priority)) [
  | inl e ↦ rw e (h, k)
  | inr e ↦ rw e (k.0, insert-All n new cs h k.1)
]

weaken :
    (m n : ℕ) (cs : List Callback)
    → m ≤ n
    → All (λ d. n ≤ d.priority) cs
    → All (λ d. m ≤ d.priority) cs
weaken m n [] h k = tt
weaken m n (c ∷ cs) h k = (omega (arith, h, k.0), weaken m n cs h k.1)

pub insert-InOrder :
    (new : Callback) (cs : List Callback) → InOrder cs → InOrder (insert_by_priority new cs)
unfolding insert_by_priority InOrder
insert-InOrder new [] h = (tt, tt)
insert-InOrder new (c ∷ cs) h = elim (Bool-cases (ltb new.priority c.priority)) [
  | inl e ↦ rw e ((ground (arith, e), weaken new.priority c.priority cs (ground (arith, e)) h.0), h)
  | inr e ↦ rw e (insert-All c.priority new cs (ground (arith, e)) h.0, insert-InOrder new cs h.1)
]

-- A callback that is not of the application changes nothing for it, wherever it stands.
pub called-insert_other :
    (k : ℕ) (new : Callback) (cs : List Callback)
    → is_of_app k new.event_callback_id ≡ false
    → called k (insert_by_priority new cs) ≡ called k cs
unfolding insert_by_priority called
called-insert_other k new [] h = rw h refl
called-insert_other k new (c ∷ cs) h = ground (arith, h, called-insert_other k new cs h)

-- The first callback of an application is the only one called.
pub called-insert_first :
    (k : ℕ) (new : Callback) (cs : List Callback)
    → is_of_app k new.event_callback_id ≡ true
    → called k cs ≡ []
    → called k (insert_by_priority new cs) ≡ (new.callback, new.app_obj) ∷ []
unfolding insert_by_priority called
called-insert_first k new [] h none_yet = rw h refl
called-insert_first k new (c ∷ cs) h none_yet =
    ground (arith, h, none_yet, called-insert_first k new cs h)

pub meets_app-called :
    (k priority : ℕ) (cs : List Callback) → called k cs ≡ [] → meets_app k priority cs ≡ false
unfolding meets_app called
meets_app-called k priority [] h = refl
meets_app-called k priority (c ∷ cs) h = ground (arith, h, meets_app-called k priority cs)
