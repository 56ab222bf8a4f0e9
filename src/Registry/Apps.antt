-- ===== src/Registry/Apps.antt =====
-- src/application_registration.c: the list of applications, and the lists of their callbacks by
-- event. A callback function is a number. Allocations succeed, and the printing is left out.
use vips_adaptive_traffi.Common.{
  ℕ, ◌+◌, Bool, true, false, Option, some, none, List, [], ◌∷◌, Bytes, strncmp_eq, ltb, ◌==◌,
  if◌then◌else◌, u8, ℤ, pos, negsuc, ◌>>=◌,
}

-- `event_type_t`.
pub data EventType : Type 0 where
  event_obu_packet_rx event_obu_packet_tx event_rsu_packet_rx event_rsu_packet_tx : EventType
  event_cloud_packet_rx event_cloud_packet_tx event_traffic_signal_command_tx : EventType
  event_camera_packet_rx event_registration event_pedestrian_packet_rx : EventType
  event_middleware_restart : EventType

abbrev pub event_no : EventType → ℕ
event_no event_obu_packet_rx = 0
event_no event_obu_packet_tx = 1
event_no event_rsu_packet_rx = 2
event_no event_rsu_packet_tx = 3
event_no event_cloud_packet_rx = 4
event_no event_cloud_packet_tx = 5
event_no event_traffic_signal_command_tx = 6
event_no event_camera_packet_rx = 7
event_no event_registration = 8
event_no event_pedestrian_packet_rx = 9
event_no event_middleware_restart = 10

-- `app_obj_t`: its callbacks by event, of which NULL is `none`.
pub record App : Type 0 where
  pub name : Bytes
  pub id : ℕ
  pub priority : ℕ
  pub on : EventType → Option ℕ

-- `event_callback_id_t`.
pub data CallbackId : Type 0 where
  app_id msg_id : ℕ → CallbackId

-- `event_callback_t`.
pub record Callback : Type 0 where
  pub event_callback_id : CallbackId
  pub priority : ℕ
  pub callback : ℕ
  pub app_obj : App

-- `app_list`, `callback_list` and `app_num`.
pub record Registry : Type 0 where
  pub app_list : List App
  pub callback_list : EventType → List Callback
  pub app_num : ℕ

abbrev pub same_app_name : Bytes → Bytes → Bool
same_app_name a b = strncmp_eq a b 10

unfoldable pub is_empty : Bytes → Bool
is_empty [] = true
is_empty (b ∷ bs) = false

unfoldable pub find_name : Bytes → List App → Option App
find_name name [] = none
find_name name (a ∷ l) =
    let rest = find_name name l in if same_app_name a.name name then some a else rest

unfoldable pub get_app_obj_by_app_name : Bytes → List App → Option App
unfolding find_name
get_app_obj_by_app_name name l = if is_empty name then none else find_name name l

-- `get_app_obj_by_appID` of src/application_management_helper.c.
unfoldable pub get_app_obj_by_app_id : ℕ → List App → Option App
get_app_obj_by_app_id id [] = none
get_app_obj_by_app_id id (a ∷ l) =
    let rest = get_app_obj_by_app_id id l in if a.id == id then some a else rest

-- The name has no application, and the program exits: `none`.
unfoldable pub event_callback_new : List App → Bytes → ℕ → CallbackId → ℕ → Option Callback
unfolding get_app_obj_by_app_name
event_callback_new apps name priority id callback = do
  app_obj ← get_app_obj_by_app_name name apps
  some
      record { event_callback_id = id; priority = priority; callback = callback; app_obj = app_obj }

-- The new callback stands before the first one of a greater priority number.
unfoldable pub insert_by_priority : Callback → List Callback → List Callback
insert_by_priority new [] = new ∷ []
insert_by_priority new (c ∷ cs) =
    let rest = insert_by_priority new cs in
    if ltb new.priority c.priority then new ∷ c ∷ cs else c ∷ rest

abbrev pub is_of_app : ℕ → CallbackId → Bool
is_of_app k (app_id i) = i == k
is_of_app k (msg_id i) = false

-- The callbacks of an id that a packet is passed to, each with its application, in the order of the
-- list (the loops of src/com_packet_processing.c).
unfoldable pub called : ℕ → List Callback → List (ℕ × App)
called k [] = []
called k (c ∷ cs) =
    let rest = called k cs in
    if is_of_app k c.event_callback_id then (c.callback, c.app_obj) ∷ rest else rest

abbrev pub set_callbacks : EventType → List Callback → Registry → Registry
set_callbacks e cs s = record s {
  callback_list = λ e'. if event_no e' == event_no e then cs else s.callback_list e';
}

unfoldable pub event_callback_msg_id_insert :
    EventType → Bytes → ℕ → ℕ → ℕ → Registry → Option Registry
unfolding event_callback_new insert_by_priority
event_callback_msg_id_insert e name priority id callback s = do
  new ← event_callback_new s.app_list name priority (msg_id id) callback
  some (set_callbacks e (insert_by_priority new (s.callback_list e)) s)

-- Whether the walk meets a callback of the application before the place of a new one: then no new
-- one is made.
unfoldable pub meets_app : ℕ → ℕ → List Callback → Bool
meets_app k priority [] = false
meets_app k priority (c ∷ cs) =
    let rest = meets_app k priority cs in
    if is_of_app k c.event_callback_id
    then true
    else if ltb priority c.priority
    then false
    else rest

unfoldable pub event_callback_insert : EventType → App → ℕ → Registry → Option Registry
unfolding event_callback_new insert_by_priority meets_app
event_callback_insert e app callback s =
    if meets_app app.id app.priority (s.callback_list e) then some s else (do
      new ← event_callback_new s.app_list app.name app.priority (app_id app.id) callback
      some (set_callbacks e (insert_by_priority new (s.callback_list e)) s))

-- The walk of `app_obj_insert` from the application `num` on: the result, and the list behind it.
unfoldable pub insert_from : ℕ → App → List App → ℤ × List App
insert_from num app [] = (pos num, app ∷ [])
insert_from num app (a ∷ l) =
    let rest = insert_from (u8 (num + 1)) app l in
    if same_app_name a.name app.name
    then (negsuc 3, a ∷ l)
    else if a.id == app.id
    then (negsuc 4, a ∷ l)
    else (rest.0, a ∷ rest.1)

-- For an empty list the result `ret` is never set; `junk` is what it holds.
unfoldable pub app_obj_insert : ℤ → App → List App → ℤ × List App
unfolding insert_from
app_obj_insert junk app [] = (junk, app ∷ [])
app_obj_insert junk app (a ∷ l) = insert_from 0 app (a ∷ l)

-- The events of the callbacks that `app_register` inserts, in its order.
abbrev pub registered_events : List EventType
registered_events =
    event_obu_packet_rx ∷ event_obu_packet_tx ∷ event_rsu_packet_rx ∷ event_rsu_packet_tx
    ∷ event_cloud_packet_rx ∷ event_cloud_packet_tx ∷ event_camera_packet_rx
    ∷ event_pedestrian_packet_rx ∷ event_traffic_signal_command_tx ∷ event_registration ∷ []

unfoldable pub insert_event : App → EventType → Registry → Option Registry
unfolding event_callback_insert
insert_event app e s = elim (app.on e) [ none ↦ some s | some f ↦ event_callback_insert e app f s ]

unfoldable pub insert_events : App → List EventType → Registry → Option Registry
unfolding insert_event
insert_events app [] s = some s
insert_events app (e ∷ es) s = do s' ← insert_event app e s; insert_events app es s'

-- A message of an event, and the callback for it: what `on_registration` inserts by
-- `event_callback_msg_id_insert`, under the name and the priority of its application.
pub record MsgCallback : Type 0 where
  pub event : EventType
  pub msg : ℕ
  pub handler : ℕ

unfoldable pub on_registration : App → List MsgCallback → Registry → Option Registry
unfolding event_callback_msg_id_insert
on_registration app [] s = some s
on_registration app (m ∷ ms) s = do
  s' ← event_callback_msg_id_insert m.event app.name app.priority m.msg m.handler s
  on_registration app ms s'

-- `APP_REGISTER_INVALID_APP_NAME` and the others.
abbrev pub app_check : App → Option ℤ
app_check app =
    if is_empty app.name
    then some (negsuc 0)
    else if app.id == 0
    then some (negsuc 1)
    else if app.priority == 0
    then some (negsuc 2)
    else none

-- `registers` is what the function of `on_registration` inserts.
unfoldable pub call_on_registration : (ℕ → List MsgCallback) → App → Registry → Option Registry
unfolding on_registration
call_on_registration registers app s = elim (app.on event_registration) [
  | none ↦ some s
  | some f ↦ on_registration app (registers f) s
]

-- The callbacks of an application in the list.
unfoldable pub insert_callbacks : (ℕ → List MsgCallback) → App → Registry → Option Registry
unfolding insert_events call_on_registration
insert_callbacks registers app s = do
  s' ← insert_events app registered_events s
  call_on_registration registers app s'

-- What `app_register` does with the result of `app_obj_insert`, and the list behind it.
unfoldable pub finish_register :
    (ℕ → List MsgCallback) → App → Registry → ℤ × List App → Option (ℤ × Registry)
unfolding insert_callbacks
finish_register registers app s (negsuc n, apps) = some (negsuc n, record s { app_list = apps })
finish_register registers app s (pos n, apps) = do
  s' ← insert_callbacks registers app record s { app_list = apps; app_num = u8 (n + 1) }
  some (pos 0, s')

unfoldable pub app_register : (ℕ → List MsgCallback) → ℤ → App → Registry → Option (ℤ × Registry)
unfolding app_obj_insert finish_register
app_register registers junk app s = elim (app_check app) [
  | some ret ↦ some (ret, s)
  | none ↦ finish_register registers app s (app_obj_insert junk app s.app_list)
]
