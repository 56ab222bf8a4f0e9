-- ===== src/Registry/Sound.antt =====
-- What every registration keeps, and what it comes to.
use vips_adaptive_traffi.Common.{
  ℕ, ◌+◌, ◌≡◌, refl, sym, ap, ◌∙◌, ◌⊎◌, false, some, none, List, [], ◌∷◌, ◌++◌, take, bytes_eq_refl,
  ◌==◌, if◌then◌else◌, u8, ℤ, pos, negsuc, arith, Bool-cases, ==_iff, ==_refl, inl, inr,
}
use mathlib.Core.Path.{subst}
use vips_adaptive_traffi.Registry.Apps.{
  called, EventType, App, Registry, same_app_name, is_empty, find_name, get_app_obj_by_app_name,
  get_app_obj_by_app_id, insert_from, app_obj_insert, app_check, registered_events, MsgCallback,
  insert_callbacks, finish_register, app_register,
}
use vips_adaptive_traffi.Registry.Lists.{InOrder}
use vips_adaptive_traffi.Registry.Register.{is_in, own_calls, IsInserted, insert_events-IsInserted}
use vips_adaptive_traffi.Registry.Messages.{IsUncalled, call_on_registration-IsUncalled}

-- What the applications want to be called for an id at an event.
abbrev pub calls_of : ℕ → EventType → List App → List (ℕ × App)
calls_of k e apps = elim (get_app_obj_by_app_id k apps) [
  | none ↦ []
  | some a ↦ if is_in e registered_events then own_calls a e else []
]

-- The lists stand in the order of the priorities, and call for each id what its application wants.
pub record IsRegistry (s : Registry) : Type 0 where
  pub in_order : (e : EventType) → InOrder (s.callback_list e)
  pub calls : (k : ℕ) (e : EventType) → called k (s.callback_list e) ≡ calls_of k e s.app_list

-- The application is new to a list.
record IsNew (app : App) (l : List App) : Type 0 where
  new_name : find_name app.name l ≡ none
  new_id : get_app_obj_by_app_id app.id l ≡ none

insert_from-outcome :
    (num : ℕ) (app : App) (l : List App)
    → ((m : ℕ) × (insert_from num app l ≡ (pos m, l ++ (app ∷ []))) × IsNew app l)
      ⊎ ((m : ℕ) × (insert_from num app l ≡ (negsuc m, l)))
unfolding insert_from find_name get_app_obj_by_app_id
insert_from-outcome num app [] = inl (num, refl, record { new_name = refl; new_id = refl })
insert_from-outcome num app (a ∷ l) = elim (Bool-cases (same_app_name a.name app.name)) [
  | inl e ↦ inr (3, rw e refl)
  | inr e ↦ elim (Bool-cases (a.id == app.id)) [
    | inl i ↦ inr (4, rw e (rw i refl))
    | inr i ↦ elim (insert_from-outcome (u8 (num + 1)) app l) [
      | inl (m, is, new) ↦ inl (
        m,
        rw e (rw i (rw is refl)),
        record { new_name = rw e new.new_name; new_id = rw i new.new_id },
      )
      | inr (m, is) ↦ inr (m, rw e (rw i (rw is refl)))
    ]
  ]
]

app_obj_insert-outcome :
    (n : ℕ) (app : App) (l : List App)
    → ((m : ℕ) × (app_obj_insert (pos n) app l ≡ (pos m, l ++ (app ∷ []))) × IsNew app l)
      ⊎ ((m : ℕ) × (app_obj_insert (pos n) app l ≡ (negsuc m, l)))
unfolding app_obj_insert find_name get_app_obj_by_app_id
app_obj_insert-outcome n app [] = inl (n, refl, record { new_name = refl; new_id = refl })
app_obj_insert-outcome n app (a ∷ l) = insert_from-outcome 0 app (a ∷ l)

find_name-append :
    (app : App) (l : List App)
    → find_name app.name l ≡ none
    → find_name app.name (l ++ (app ∷ [])) ≡ some app
unfolding find_name
find_name-append app [] h = rw (bytes_eq_refl (take 10 app.name)) refl
find_name-append app (a ∷ l) h = elim (Bool-cases (same_app_name a.name app.name)) [
  | inl e ↦ ground (arith, e, h)
  | inr e ↦ rw e (find_name-append app l (ground (arith, e, h)))
]

by_id-append_other :
    (k : ℕ) (app : App) (l : List App)
    → (app.id == k) ≡ false
    → get_app_obj_by_app_id k (l ++ (app ∷ [])) ≡ get_app_obj_by_app_id k l
unfolding get_app_obj_by_app_id
by_id-append_other k app [] h = rw h refl
by_id-append_other k app (a ∷ l) h = ground (arith, by_id-append_other k app l h)

by_id-append_new :
    (app : App) (l : List App)
    → get_app_obj_by_app_id app.id l ≡ none
    → get_app_obj_by_app_id app.id (l ++ (app ∷ [])) ≡ some app
unfolding get_app_obj_by_app_id
by_id-append_new app [] h = rw (==_refl app.id) refl
by_id-append_new app (a ∷ l) h = ground (arith, h, by_id-append_new app l)

-- Behind the insertions for the events, and those for the messages, the calls are those of the longer
-- list.
calls-grown :
    (app : App) (l : List App) (s t u : Registry)
    → IsNew app l
    → ((k : ℕ) (e : EventType) → called k (s.callback_list e) ≡ calls_of k e l)
    → IsInserted app registered_events s t
    → IsUncalled t u
    → (k : ℕ) (e : EventType) → called k (u.callback_list e) ≡ calls_of k e (l ++ (app ∷ []))
calls-grown app l s t u new before a b k e = elim (Bool-cases (app.id == k)) [
  | inr differs ↦
      let same = by_id-append_other k app l differs in
      b.same_calls k e ∙ a.others k e differs ∙ before k e ∙ rw (calls_of, same) refl
  | inl is ↦
      let here = by_id-append_new app l new.new_id in
      subst (λ j. called j (u.callback_list e) ≡ calls_of j e (l ++ (app ∷ [])))
        ((==_iff app.id k).0 is)
        (b.same_calls app.id e ∙ elim (Bool-cases (is_in e registered_events)) [
          | inl q ↦ a.own e q ∙ rw (calls_of, here) (rw q refl)
          | inr q ↦
              let no = new.new_id in
              ap (called app.id) (a.kept e q)
              ∙ before app.id e
              ∙ rw (calls_of, no) (rw (calls_of, here) (rw q refl))
        ])
]

-- The callbacks of a new application that stands last in the list.
insert_callbacks-IsRegistry :
    (registers : ℕ → List MsgCallback) (app : App) (l : List App) (s : Registry)
    → is_empty app.name ≡ false
    → IsNew app l
    → s.app_list ≡ l ++ (app ∷ [])
    → ((e : EventType) → InOrder (s.callback_list e))
    → ((k : ℕ) (e : EventType) → called k (s.callback_list e) ≡ calls_of k e l)
    → (s' : Registry) × (insert_callbacks registers app s ≡ some s')
      × (s'.app_list ≡ l ++ (app ∷ []))
      × IsRegistry s'
unfolding insert_callbacks get_app_obj_by_app_name
insert_callbacks-IsRegistry registers app l s proper new grown ordered before =
    let named_in : get_app_obj_by_app_name app.name (l ++ (app ∷ [])) ≡ some app =
      rw proper (find_name-append app l new.new_name) in
    let named : get_app_obj_by_app_name app.name s.app_list ≡ some app =
      ap (get_app_obj_by_app_name app.name) grown ∙ named_in in
    let none_before =
      λ (e : EventType). before app.id e ∙ (let no = new.new_id in rw (calls_of, no) refl) in
    let events =
      insert_events-IsInserted app registered_events s refl named (λ e h. none_before e) in
    let messages =
      call_on_registration-IsUncalled registers app events.0
        (ap (get_app_obj_by_app_name app.name) events.2.same_apps ∙ named) in
    let list = messages.2.same_list ∙ events.2.same_apps ∙ grown in
    (
      messages.0,
      rw (insert_callbacks, events.1) messages.1,
      list,
      record {
        in_order = λ e. messages.2.still_in_order e (events.2.in_order e (ordered e));
        calls = λ k e.
            calls-grown app l s events.0 messages.0 new before events.2 messages.2 k e
            ∙ ap (calls_of k e) (sym list);
      },
    )

app_check-cases :
    (app : App)
    → ((m : ℕ) × (app_check app ≡ some (negsuc m)))
      ⊎ ((app_check app ≡ none) × (is_empty app.name ≡ false))
app_check-cases app = elim (Bool-cases (is_empty app.name)) [
  | inl e ↦ inl (0, rw e refl)
  | inr e ↦ elim (Bool-cases (app.id == 0)) [
    | inl i ↦ inl (1, rw e (rw i refl))
    | inr i ↦ elim (Bool-cases (app.priority == 0)) [
      | inl p ↦ inl (2, rw e (rw i (rw p refl)))
      | inr p ↦ inr (rw e (rw i (rw p refl)), e)
    ]
  ]
]

-- A refusal: a negative result, and the registry as it was.
abbrev pub IsRefused : Registry → ℤ → Registry → Type 0
IsRefused s ret s' = (n : ℕ) × (ret ≡ negsuc n) × (s' ≡ s)

-- A registration always comes to its end, and keeps a sound registry sound: it is refused, and changes
-- nothing, or the application is the last of the list. The uninitialised result for the first one must
-- not happen to be negative.
pub app_register-IsRegistry :
    (registers : ℕ → List MsgCallback) (n : ℕ) (app : App) (s : Registry)
    → IsRegistry s
    → (ret : ℤ) × (s' : Registry) × (app_register registers (pos n) app s ≡ some (ret, s'))
      × IsRegistry s'
      × (((ret ≡ pos 0) × (s'.app_list ≡ s.app_list ++ (app ∷ []))) ⊎ IsRefused s ret s')
unfolding app_register finish_register
app_register-IsRegistry registers n app s h = elim (app_check-cases app) [
  | inl (m, refused) ↦ (negsuc m, s, rw (app_register, refused) refl, h, inr (m, refl, refl))
  | inr (accepted, proper) ↦ elim (app_obj_insert-outcome n app s.app_list) [
    | inr (m, is) ↦ (
      negsuc m,
      s,
      rw (app_register, accepted) (ap (finish_register registers app s) is),
      h,
      inr (m, refl, refl),
    )
    | inl (m, is, new) ↦
        let listed = record s { app_list = s.app_list ++ (app ∷ []); app_num = u8 (m + 1) } in
        let done =
          insert_callbacks-IsRegistry registers app s.app_list listed proper new refl h.in_order
            h.calls in
        let inserted = done.1 in
        (
          pos 0,
          done.0,
          rw (app_register, accepted)
              (ap (finish_register registers app s) is ∙ rw (finish_register, inserted) refl),
          done.3,
          inl (refl, done.2),
        )
  ]
]
