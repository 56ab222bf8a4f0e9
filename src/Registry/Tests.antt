-- ===== src/Registry/Tests.antt =====
-- The registration of the bus application, and a packet of the cloud for it.
use vips_adaptive_traffi.Common.{
  ℕ, ◌≡◌, refl, ◌⊎◌, some, none, List, [], ◌∷◌, Bytes, bytes_eq, replicate, ◌==◌, if◌then◌else◌, ℤ,
  pos, ◌>>=◌, arith,
}
use vips_adaptive_traffi.Registry.Apps.{
  called, EventType, event_obu_packet_rx, event_obu_packet_tx, event_rsu_packet_rx,
  event_rsu_packet_tx, event_cloud_packet_rx, event_cloud_packet_tx,
  event_traffic_signal_command_tx, event_camera_packet_rx, event_registration,
  event_pedestrian_packet_rx, event_middleware_restart, event_no, App, Registry, app_id, Callback,
  MsgCallback, app_register, finish_register, insert_callbacks, event_callback_new,
  get_app_obj_by_app_name, find_name, is_empty, app_obj_insert, insert_from, meets_app,
  call_on_registration, event_callback_msg_id_insert, insert_by_priority, event_callback_insert,
  insert_events, insert_event, on_registration, get_app_obj_by_app_id,
}
use vips_adaptive_traffi.ObuRecord.Message.{c_string}
use vips_adaptive_traffi.Registry.Lists.{InOrder}
use vips_adaptive_traffi.Registry.Sound.{IsRegistry, IsRefused, calls_of, app_register-IsRegistry}
use vips_adaptive_traffi.Registry.Cloud.{
  c2r_packet, cloud_packet_rx_event_handler, cloud_packet_rx_event_handler-calls_of,
}

-- TSP with its callbacks, and EVSP of the priority 1.
abbrev tsp : App
tsp = record {
  name = b'T' ∷ b'S' ∷ b'P' ∷ [];
  id = 2;
  priority = 2;
  on = λ e.
      if event_no e == 4
      then some 41
      else if event_no e == 6
      then some 61
      else if event_no e == 8
      then some 81
      else none;
}

abbrev evsp : App
evsp = record {
  name = b'E' ∷ b'V' ∷ b'S' ∷ b'P' ∷ [];
  id = 1;
  priority = 1;
  on = λ e. if event_no e == 4 then some 42 else none;
}

-- TSP asks for the basic safety messages, EVSP for nothing.
abbrev registers : ℕ → List MsgCallback
registers f =
    if f == 81 then record { event = event_obu_packet_rx; msg = 20; handler = 1 } ∷ [] else []

abbrev empty_registry : Registry
empty_registry = record { app_list = []; callback_list = λ e. []; app_num = 0 }

empty-IsRegistry : IsRegistry empty_registry
unfolding InOrder called get_app_obj_by_app_id
empty-IsRegistry = record { in_order = λ e. tt; calls = λ k e. refl }

app_register-IsRegistry_example :
    (ret : ℤ) × (s' : Registry) × (app_register registers (pos 0) tsp empty_registry
      ≡ some (ret, s'))
    × IsRegistry s'
    × (((ret ≡ pos 0) × (s'.app_list ≡ tsp ∷ [])) ⊎ IsRefused empty_registry ret s')
app_register-IsRegistry_example =
    app_register-IsRegistry registers 0 tsp empty_registry empty-IsRegistry

abbrev tsp_callback : Callback
tsp_callback = record { event_callback_id = app_id 2; priority = 2; callback = 41; app_obj = tsp }

abbrev evsp_callback : Callback
evsp_callback = record { event_callback_id = app_id 1; priority = 1; callback = 42; app_obj = evsp }

-- Both are registered; EVSP came last, and stands first.
both_registered :
    (app_register registers (pos 0) tsp empty_registry >>= λ r.
    app_register registers (pos 0) evsp (r.1) >>= λ t.
    some (t.1.callback_list event_cloud_packet_rx))
    ≡ some (evsp_callback ∷ tsp_callback ∷ [])
unfolding app_register finish_register insert_callbacks insert_events insert_event
    event_callback_insert event_callback_new get_app_obj_by_app_name find_name is_empty
    app_obj_insert insert_from bytes_eq meets_app insert_by_priority call_on_registration
    on_registration event_callback_msg_id_insert
both_registered = refl

-- The unit with a TSP alone that only wants the packets of the cloud.
abbrev silent_tsp : App
silent_tsp = record tsp { on = λ e. if event_no e == 4 then some 41 else none }

abbrev silent_registry : Registry
silent_registry = record {
  app_list = silent_tsp ∷ [];
  callback_list =
      λ e. if event_no e == 4 then record tsp_callback { app_obj = silent_tsp } ∷ [] else [];
  app_num = 1;
}

silent-calls :
    (k : ℕ) (e : EventType)
    → called k (silent_registry.callback_list e) ≡ calls_of k e silent_registry.app_list
unfolding called get_app_obj_by_app_id
silent-calls k event_obu_packet_rx = ground arith
silent-calls k event_obu_packet_tx = ground arith
silent-calls k event_rsu_packet_rx = ground arith
silent-calls k event_rsu_packet_tx = ground arith
silent-calls k event_cloud_packet_rx = ground arith
silent-calls k event_cloud_packet_tx = ground arith
silent-calls k event_traffic_signal_command_tx = ground arith
silent-calls k event_camera_packet_rx = ground arith
silent-calls k event_registration = ground arith
silent-calls k event_pedestrian_packet_rx = ground arith
silent-calls k event_middleware_restart = ground arith

silent-InOrder : (e : EventType) → InOrder (silent_registry.callback_list e)
unfolding InOrder
silent-InOrder event_obu_packet_rx = tt
silent-InOrder event_obu_packet_tx = tt
silent-InOrder event_rsu_packet_rx = tt
silent-InOrder event_rsu_packet_tx = tt
silent-InOrder event_cloud_packet_rx = (tt, tt)
silent-InOrder event_cloud_packet_tx = tt
silent-InOrder event_traffic_signal_command_tx = tt
silent-InOrder event_camera_packet_rx = tt
silent-InOrder event_registration = tt
silent-InOrder event_pedestrian_packet_rx = tt
silent-InOrder event_middleware_restart = tt

silent-IsRegistry : IsRegistry silent_registry
silent-IsRegistry = record { in_order = silent-InOrder; calls = silent-calls }

abbrev rsu_name : Bytes
rsu_name = b'R' ∷ b'S' ∷ b'U' ∷ b'0' ∷ b'0' ∷ b'0' ∷ b'0' ∷ b'0' ∷ b'0' ∷ b'1' ∷ []

cloud_packet_rx_event_handler-calls_of_example :
    cloud_packet_rx_event_handler rsu_name silent_registry
      (c2r_packet 37 2 rsu_name (replicate 19 b'0') 2 (4 ∷ 7 ∷ 0 ∷ []))
    ≡ (pos 0, (41, silent_tsp) ∷ [], 4 ∷ 7 ∷ [])
unfolding called get_app_obj_by_app_id bytes_eq c_string
cloud_packet_rx_event_handler-calls_of_example =
    cloud_packet_rx_event_handler-calls_of rsu_name silent_registry 2 rsu_name (replicate 19 b'0') 2
      (4 ∷ 7 ∷ []) (0 ∷ []) silent-IsRegistry (omega arith) refl refl refl (omega arith)
      (omega arith)
