-- ===== src/ObuRecord/Granted.antt =====
-- The calls of `special_OBU_list_update_status` that src/traffic_signal_command_buffer.c makes, on
-- the lists of src/OBU_record_processing.c.
use vips_adaptive_traffi.Common.{
  ℕ, zero, suc, ◌<◌, ◌≡◌, ◌≢◌, refl, true, some, List, [], ◌∷◌, ◌++◌, Bytes, bytes_eq_refl, length,
  get_or, set, arith, ◌==◌, if◌then◌else◌, Bool-cases, Option-cases, inl, inr, get_or-set_self,
}
use vips_adaptive_traffi.Signal.{VehicleType, TscCommand, plan_at}
use vips_adaptive_traffi.CommandBuffer.State.{State, Call, command_tx, granted, object_at, cycle_of}
use vips_adaptive_traffi.CommandBuffer.Insert.{
  insert_accept, grant, clamp_command, command_buf_insert_effect_time,
}
use vips_adaptive_traffi.CommandBuffer.Accept.{
  IsValidCommand-validate, MayReplace-decide, insert_of_valid, insert_accept_iff,
}
use vips_adaptive_traffi.CommandBuffer.Outcome.{insert_valid_written}
use vips_adaptive_traffi.ObuRecord.Lists.{
  ObuObject, ObjectStatus, obu_object_unknown, obu_object_granted, type_index, obu_object_search,
  update_found, special_obu_list_search_status, special_obu_list_update_status, may_be_set,
}
use vips_adaptive_traffi.ObuRecord.Find.{search-update_found}

-- The lists after the calls, in their order.
unfoldable pub deliver : List Call → List (List ObuObject) → List (List ObuObject)
deliver [] t = t
deliver (granted name type ∷ cs) t =
    deliver cs (special_obu_list_update_status name type obu_object_granted t).1
deliver (command_tx id arg ∷ cs) t = deliver cs t

deliver-append :
    (xs ys : List Call) (t : List (List ObuObject))
    → deliver (xs ++ ys) t ≡ deliver ys (deliver xs t)
unfolding deliver
deliver-append [] ys t = refl
deliver-append (granted name type ∷ cs) ys t =
    deliver-append cs ys (special_obu_list_update_status name type obu_object_granted t).1
deliver-append (command_tx id arg ∷ cs) ys t = deliver-append cs ys t

found_inside :
    (name : Bytes) (t : List (List ObuObject)) (i : ℕ) (o : ObuObject)
    → obu_object_search name (get_or t i []) ≡ some o
    → i < length t
unfolding obu_object_search
found_inside name [] i o h = ground arith
found_inside name (l ∷ t) zero o h = omega arith
found_inside name (l ∷ t) (suc i) o h = omega (arith, found_inside name t i o h)

update_written :
    (name : Bytes) (type : VehicleType) (status : ObjectStatus) (t : List (List ObuObject)) (i : ℕ)
    (o : ObuObject)
    → may_be_set status ≡ true
    → type_index type ≡ some i
    → obu_object_search name (get_or t i []) ≡ some o
    → (special_obu_list_update_status name type status t).1
      ≡ set t i
          (update_found name (λ (x : ObuObject). record x { status = status }) (get_or t i []))
unfolding special_obu_list_update_status
update_written name type status t i o b e n = rw (special_obu_list_update_status, e, n, b) refl

-- A vehicle that is known takes the status.
update-search :
    (name : Bytes) (type : VehicleType) (status : ObjectStatus) (t : List (List ObuObject))
    → may_be_set status ≡ true
    → special_obu_list_search_status type name t ≢ obu_object_unknown
    → special_obu_list_search_status type name (special_obu_list_update_status name type status t).1
      ≡ status
unfolding special_obu_list_search_status special_obu_list_update_status
update-search name type status t b k = elim (Option-cases (type_index type)) [
  | inl e ↦ absurd (k (rw (special_obu_list_search_status, e) refl))
  | inr (i, e) ↦ elim (Option-cases (obu_object_search name (get_or t i []))) [
    | inl n ↦ absurd (k (rw (special_obu_list_search_status, e, n) refl))
    | inr (o, n) ↦
        let f : ObuObject → ObuObject = λ x. record x { status = status } in
        rw (update_written name type status t i o b e n) (
          rw (special_obu_list_search_status, e)
            (rw
              (
                get_or-set_self t i (update_found name f (get_or t i [])) []
                    (found_inside name t i o n),
                search-update_found f (λ x. refl) name name (get_or t i []),
                bytes_eq_refl name,
                n,
              )
              refl))
  ]
]

insert-calls :
    (c : TscCommand) (s : State)
    → (command_buf_insert_effect_time c s).0 ≡ insert_accept
    → (command_buf_insert_effect_time c s).1.calls ≡ (
        if c.phase == c.target_phase
        then s.calls ++ (granted c.host_obu_name c.vehicle_type ∷ [])
        else s.calls)
unfolding clamp_command grant
insert-calls c s h =
    let (e, may) = (insert_accept_iff c s).0 h in
    let ok =
      MayReplace-decide (object_at s.command_buf (cycle_of s c.cycle) c.phase) (clamp_command c s)
        (plan_at s.signal_status c.phase).pre_time_compensated may in
    rw (insert_of_valid c s (IsValidCommand-validate c e))
      (rw (insert_valid_written (clamp_command c s) s ok) (ground arith))

-- An accepted command for its own phase grants its vehicle the wish: the lists of vehicles, after
-- all calls, have that vehicle as granted, if it is known by then; a command for another phase
-- leaves the status as it is.
pub insert-granted :
    (c : TscCommand) (s : State) (t : List (List ObuObject))
    → (command_buf_insert_effect_time c s).0 ≡ insert_accept
    → special_obu_list_search_status c.vehicle_type c.host_obu_name (deliver s.calls t)
      ≢ obu_object_unknown
    → special_obu_list_search_status c.vehicle_type c.host_obu_name
        (deliver (command_buf_insert_effect_time c s).1.calls t)
      ≡ (if c.phase == c.target_phase
          then obu_object_granted
          else special_obu_list_search_status c.vehicle_type c.host_obu_name (deliver s.calls t))
unfolding deliver may_be_set
insert-granted c s t h k = rw (insert-calls c s h) (elim (Bool-cases (c.phase == c.target_phase)) [
  | inl b ↦ rw b (
      rw (deliver-append s.calls (granted c.host_obu_name c.vehicle_type ∷ []) t) (
        update-search c.host_obu_name c.vehicle_type obu_object_granted (deliver s.calls t) refl k))
  | inr b ↦ rw b refl
])
