-- ===== src/Registry/Messages.antt =====
-- The callbacks for messages that the function of `on_registration` inserts.
use vips_adaptive_traffi.Common.{
  ℕ, ◌≡◌, refl, sym, ap, ◌∙◌, some, List, [], ◌∷◌, Bool-cases, Option-cases, inl, inr,
}
use mathlib.Core.Path.{subst}
use vips_adaptive_traffi.Registry.Apps.{
  called, EventType, App, Registry, Callback, msg_id, insert_by_priority, set_callbacks,
  get_app_obj_by_app_name, event_callback_new, event_callback_msg_id_insert, MsgCallback,
  on_registration, call_on_registration, event_registration,
}
use vips_adaptive_traffi.Registry.Lists.{InOrder, insert-InOrder, called-insert_other}
use vips_adaptive_traffi.Registry.Register.{same_event, same_event_iff}

-- Callbacks for messages are none of an application's own.
pub record IsUncalled (s s' : Registry) : Type 0 where
  pub same_list : s'.app_list ≡ s.app_list
  pub still_in_order : (e : EventType) → InOrder (s.callback_list e) → InOrder (s'.callback_list e)
  pub same_calls :
      (k : ℕ) (e : EventType) → called k (s'.callback_list e) ≡ called k (s.callback_list e)

msg_callback_of : App → MsgCallback → Callback
msg_callback_of app m = record {
  event_callback_id = msg_id m.msg;
  priority = app.priority;
  callback = m.handler;
  app_obj = app;
}

with_msg : App → MsgCallback → Registry → Registry
unfolding msg_callback_of
with_msg app m s =
    set_callbacks m.event (insert_by_priority (msg_callback_of app m) (s.callback_list m.event)) s

with_msg-IsUncalled : (app : App) (m : MsgCallback) (s : Registry) → IsUncalled s (with_msg app m s)
unfolding with_msg msg_callback_of
with_msg-IsUncalled app m s = record {
  same_list = refl;
  still_in_order = λ e h. elim (Bool-cases (same_event e m.event)) [
    | inl q ↦ rw q (
        insert-InOrder (msg_callback_of app m) (s.callback_list m.event)
          (subst (λ x. InOrder (s.callback_list x)) (same_event_iff e m.event q) h))
    | inr q ↦ rw q h
  ];
  same_calls = λ k e. elim (Bool-cases (same_event e m.event)) [
    | inl q ↦ rw q (
        called-insert_other k (msg_callback_of app m) (s.callback_list m.event) refl
        ∙ ap (λ x. called k (s.callback_list x)) (sym (same_event_iff e m.event q)))
    | inr q ↦ rw q refl
  ];
}

pub on_registration-IsUncalled :
    (app : App) (ms : List MsgCallback) (s : Registry)
    → get_app_obj_by_app_name app.name s.app_list ≡ some app
    → (s' : Registry) × (on_registration app ms s ≡ some s') × IsUncalled s s'
unfolding on_registration with_msg msg_callback_of
on_registration-IsUncalled app [] s named =
    (s, refl, record { same_list = refl; still_in_order = λ e h. h; same_calls = λ k e. refl })
on_registration-IsUncalled app (m ∷ ms) s named =
    let t = with_msg app m s in
    let inserted : event_callback_msg_id_insert m.event app.name app.priority m.msg m.handler s
        ≡ some t =
      rw (event_callback_msg_id_insert, event_callback_new, named) refl in
    let one = with_msg-IsUncalled app m s in
    let others =
      on_registration-IsUncalled app ms t
        (ap (get_app_obj_by_app_name app.name) one.same_list ∙ named) in
    (
      others.0,
      rw (on_registration, inserted) others.1,
      record {
        same_list = others.2.same_list ∙ one.same_list;
        still_in_order = λ e h. others.2.still_in_order e (one.still_in_order e h);
        same_calls = λ k e. others.2.same_calls k e ∙ one.same_calls k e;
      },
    )

pub call_on_registration-IsUncalled :
    (registers : ℕ → List MsgCallback) (app : App) (s : Registry)
    → get_app_obj_by_app_name app.name s.app_list ≡ some app
    → (s' : Registry) × (call_on_registration registers app s ≡ some s') × IsUncalled s s'
unfolding call_on_registration
call_on_registration-IsUncalled registers app s named =
    elim (Option-cases (app.on event_registration)) [
      | inl is ↦ (
        s,
        rw (call_on_registration, is) refl,
        record { same_list = refl; still_in_order = λ e h. h; same_calls = λ k e. refl },
      )
      | inr (f, is) ↦
          let ran = on_registration-IsUncalled app (registers f) s named in
          (ran.0, rw (call_on_registration, is) ran.1, ran.2)
    ]
