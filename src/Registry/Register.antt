-- ===== src/Registry/Register.antt =====
-- The callbacks that a registration inserts for its application.
use vips_adaptive_traffi.Common.{
  ℕ, ◌≡◌, refl, sym, ap, ◌∙◌, Bool, true, false, not, ◌&&◌, ◌||◌, some, none, List, [], ◌∷◌, ◌==◌,
  if◌then◌else◌, arith, ==_iff, ==_refl, Bool-cases, Option-cases, inl, inr,
}
use mathlib.Core.Path.{subst}
use vips_adaptive_traffi.Registry.Apps.{
  called, EventType, event_obu_packet_rx, event_obu_packet_tx, event_rsu_packet_rx,
  event_rsu_packet_tx, event_cloud_packet_rx, event_cloud_packet_tx,
  event_traffic_signal_command_tx, event_camera_packet_rx, event_registration,
  event_pedestrian_packet_rx, event_middleware_restart, event_no, App, Registry, Callback, app_id,
  insert_by_priority, get_app_obj_by_app_name, event_callback_new, event_callback_insert,
  insert_event, insert_events, set_callbacks,
}
use vips_adaptive_traffi.Registry.Lists.{
  InOrder, insert-InOrder, called-insert_other, called-insert_first, meets_app-called,
}

event_of : ℕ → EventType
event_of n =
    if n == 0
    then event_obu_packet_rx
    else if n == 1
    then event_obu_packet_tx
    else if n == 2
    then event_rsu_packet_rx
    else if n == 3
    then event_rsu_packet_tx
    else if n == 4
    then event_cloud_packet_rx
    else if n == 5
    then event_cloud_packet_tx
    else if n == 6
    then event_traffic_signal_command_tx
    else if n == 7
    then event_camera_packet_rx
    else if n == 8
    then event_registration
    else if n == 9
    then event_pedestrian_packet_rx
    else event_middleware_restart

event_of-event_no : (e : EventType) → event_of (event_no e) ≡ e
unfolding event_of
event_of-event_no event_obu_packet_rx = refl
event_of-event_no event_obu_packet_tx = refl
event_of-event_no event_rsu_packet_rx = refl
event_of-event_no event_rsu_packet_tx = refl
event_of-event_no event_cloud_packet_rx = refl
event_of-event_no event_cloud_packet_tx = refl
event_of-event_no event_traffic_signal_command_tx = refl
event_of-event_no event_camera_packet_rx = refl
event_of-event_no event_registration = refl
event_of-event_no event_pedestrian_packet_rx = refl
event_of-event_no event_middleware_restart = refl

abbrev pub same_event : EventType → EventType → Bool
same_event e e' = event_no e == event_no e'

pub same_event_iff : (e e' : EventType) → same_event e e' ≡ true → e ≡ e'
same_event_iff e e' h =
    sym (event_of-event_no e)
    ∙ ap event_of ((==_iff (event_no e) (event_no e')).0 h)
    ∙ event_of-event_no e'

abbrev pub is_in : EventType → List EventType → Bool
is_in e [] = false
is_in e (e' ∷ es) = same_event e e' || is_in e es

abbrev pub distinct : List EventType → Bool
distinct [] = true
distinct (e ∷ es) = not (is_in e es) && distinct es

-- What is called for an application at an event.
abbrev pub own_calls : App → EventType → List (ℕ × App)
own_calls app e = elim (app.on e) [ none ↦ [] | some f ↦ (f, app) ∷ [] ]

-- What callbacks of an application at some events make of the registry.
pub record IsInserted (app : App) (es : List EventType) (s s' : Registry) : Type 0 where
  pub same_apps : s'.app_list ≡ s.app_list
  pub in_order : (e : EventType) → InOrder (s.callback_list e) → InOrder (s'.callback_list e)
  pub others :
      (k : ℕ) (e : EventType)
      → (app.id == k) ≡ false
      → called k (s'.callback_list e) ≡ called k (s.callback_list e)
  pub own :
      (e : EventType) → is_in e es ≡ true → called app.id (s'.callback_list e) ≡ own_calls app e
  pub kept : (e : EventType) → is_in e es ≡ false → s'.callback_list e ≡ s.callback_list e

callback_of : App → ℕ → Callback
callback_of app f = record {
  event_callback_id = app_id app.id;
  priority = app.priority;
  callback = f;
  app_obj = app;
}

with_callback : App → EventType → ℕ → Registry → Registry
unfolding callback_of
with_callback app e f s =
    set_callbacks e (insert_by_priority (callback_of app f) (s.callback_list e)) s

insert_event-with_callback :
    (app : App) (e : EventType) (f : ℕ) (s : Registry)
    → get_app_obj_by_app_name app.name s.app_list ≡ some app
    → called app.id (s.callback_list e) ≡ []
    → app.on e ≡ some f
    → insert_event app e s ≡ some (with_callback app e f s)
unfolding insert_event event_callback_insert event_callback_new with_callback callback_of
insert_event-with_callback app e f s named fresh is =
    let free = meets_app-called app.id app.priority (s.callback_list e) fresh in
    rw (insert_event, is) (rw (event_callback_insert, free) (rw (event_callback_new, named) refl))

with_callback-IsInserted :
    (app : App) (e : EventType) (f : ℕ) (s : Registry)
    → called app.id (s.callback_list e) ≡ []
    → app.on e ≡ some f
    → IsInserted app (e ∷ []) s (with_callback app e f s)
unfolding with_callback callback_of
with_callback-IsInserted app e f s fresh is = record {
  same_apps = refl;
  in_order = λ e' h. elim (Bool-cases (same_event e' e)) [
    | inl q ↦ rw q (
        insert-InOrder (callback_of app f) (s.callback_list e)
          (subst (λ x. InOrder (s.callback_list x)) (same_event_iff e' e q) h))
    | inr q ↦ rw q h
  ];
  others = λ k e' h. elim (Bool-cases (same_event e' e)) [
    | inl q ↦ rw q (
        called-insert_other k (callback_of app f) (s.callback_list e) h
        ∙ ap (λ x. called k (s.callback_list x)) (sym (same_event_iff e' e q)))
    | inr q ↦ rw q refl
  ];
  own = λ e' h.
      let q : same_event e' e ≡ true = ground (arith, h) in
      let first =
        called-insert_first app.id (callback_of app f) (s.callback_list e) (==_refl app.id) fresh in
      let handler : app.on e' ≡ some f = ap app.on (same_event_iff e' e q) ∙ is in
      rw q (rw (own_calls, handler) first);
  kept = λ e' h. let q : same_event e' e ≡ false = ground (arith, h) in rw q refl;
}

insert_event-IsInserted :
    (app : App) (e : EventType) (s : Registry)
    → get_app_obj_by_app_name app.name s.app_list ≡ some app
    → called app.id (s.callback_list e) ≡ []
    → (s' : Registry) × (insert_event app e s ≡ some s') × IsInserted app (e ∷ []) s s'
unfolding insert_event
insert_event-IsInserted app e s named fresh = elim (Option-cases (app.on e)) [
  | inl is ↦ (
    s,
    rw (insert_event, is) refl,
    record {
      same_apps = refl;
      in_order = λ e' h. h;
      others = λ k e' h. refl;
      own = λ e' h.
          let same = same_event_iff e' e (ground (arith, h)) in
          subst (λ x. called app.id (s.callback_list x) ≡ own_calls app x) (sym same)
            (rw (own_calls, is) fresh);
      kept = λ e' h. refl;
    },
  )
  | inr (f, is) ↦ (
    with_callback app e f s,
    insert_event-with_callback app e f s named fresh is,
    with_callback-IsInserted app e f s fresh is,
  )
]

-- One insertion after another.
IsInserted-join :
    (app : App) (e : EventType) (es : List EventType) (s t u : Registry)
    → is_in e es ≡ false
    → IsInserted app (e ∷ []) s t
    → IsInserted app es t u
    → IsInserted app (e ∷ es) s u
IsInserted-join app e es s t u apart a b = record {
  same_apps = b.same_apps ∙ a.same_apps;
  in_order = λ e' h. b.in_order e' (a.in_order e' h);
  others = λ k e' h. b.others k e' h ∙ a.others k e' h;
  own = λ e' h. elim (Bool-cases (is_in e' es)) [
    | inl later ↦ b.own e' later
    | inr not_later ↦
        ap (called app.id) (b.kept e' not_later) ∙ a.own e' (ground (arith, h, not_later))
  ];
  kept = λ e' h. b.kept e' (ground (arith, h)) ∙ a.kept e' (ground (arith, h));
}

is_in-apart :
    (e e' : EventType) (es : List EventType)
    → is_in e es ≡ false
    → is_in e' es ≡ true
    → is_in e' (e ∷ []) ≡ false
is_in-apart e e' es apart there = elim (Bool-cases (same_event e' e)) [
  | inl q ↦
      let now : is_in e es ≡ true = subst (λ x. is_in x es ≡ true) (same_event_iff e' e q) there in
      cc
  | inr q ↦ rw q refl
]

pub insert_events-IsInserted :
    (app : App) (es : List EventType) (s : Registry)
    → distinct es ≡ true
    → get_app_obj_by_app_name app.name s.app_list ≡ some app
    → ((e : EventType) → is_in e es ≡ true → called app.id (s.callback_list e) ≡ [])
    → (s' : Registry) × (insert_events app es s ≡ some s') × IsInserted app es s s'
unfolding insert_events
insert_events-IsInserted app [] s apart named fresh = (
  s,
  refl,
  record {
    same_apps = refl;
    in_order = λ e h. h;
    others = λ k e h. refl;
    own = λ e h. cc;
    kept = λ e h. refl;
  },
)
insert_events-IsInserted app (e ∷ es) s apart named fresh =
    let one =
      insert_event-IsInserted app e s named
        (fresh e (let q : same_event e e ≡ true = ==_refl (event_no e) in rw q refl)) in
    let t = one.0 in
    let alone : is_in e es ≡ false = ground (arith, apart) in
    let others =
      insert_events-IsInserted app es t (ground (arith, apart))
        (ap (get_app_obj_by_app_name app.name) one.2.same_apps ∙ named)
        (λ e' there.
          ap (called app.id) (one.2.kept e' (is_in-apart e e' es alone there))
          ∙ fresh e' (ground (arith, there))) in
    (
      others.0,
      rw (insert_events, one.1) others.1,
      IsInserted-join app e es s t others.0 alone one.2 others.2,
    )
