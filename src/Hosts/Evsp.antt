-- ===== src/Hosts/Evsp.antt =====
-- application/EVSP/src/EVSP_OBU_list.c: the emergency vehicles that the unit serves, and those that
-- it shall not serve again for a while; and the timer handlers of EVSP_timer_event.c. A `float` is
-- its 32 bits; a timer is the seconds that it was set to last; a touching area is its id.
-- Allocations succeed.
use vips_adaptive_traffi.Common.{
  ℕ, ◌+◌, Bool, true, false, ◌&&◌, Option, some, none, List, [], ◌∷◌, Bytes, take, ltb, ◌==◌,
  if◌then◌else◌, u8,
}
use vips_adaptive_traffi.Signal.{VehicleType, vehicle_ambulance, Config}
use vips_adaptive_traffi.CommandBuffer.State.{State, command_buf_delete_obu}
use vips_adaptive_traffi.CommandBuffer.Insert.{command_buf_resume_control}
use vips_adaptive_traffi.Hosts.ByName.{same_name, change_or_append}
use vips_adaptive_traffi.Hosts.Links.{Links, init_list_head, list_add_tail, list_del, nodes_of}

-- `EVSP_host_OBU_obj_t`.
pub record EvspHost : Type 0 where
  pub obu_name : Bytes
  pub target_phase : ℕ
  pub distance : ℕ
  pub host_obu_packet_timer : ℕ
  pub host_obu_list_timer : ℕ
  pub touching_area_id : ℕ
  pub lon : ℕ
  pub lat : ℕ
  pub speed : ℕ
  pub direction : ℕ
  pub touched_amount : ℕ
  pub is_activate : ℕ
  pub vehicle_type : VehicleType

abbrev pub name_of : EvspHost → Bytes
name_of h = h.obu_name

-- `EVSP_OBU_update_info_t`.
pub record UpdateInfo : Type 0 where
  pub lat : ℕ
  pub lon : ℕ
  pub speed : ℕ
  pub direction : ℕ
  pub is_touching : ℕ
  pub is_activate : ℕ
  pub vehicle_type : VehicleType

-- The part of `EVSP_config` that is used here.
pub record EvspConfig : Type 0 where
  pub evsp_host_obu_packet_timeout : ℕ
  pub evsp_host_obu_list_timeout : ℕ
  pub cooling_time : ℕ

unfoldable pub evsp_host_obu_obj_new : EvspConfig → Bytes → ℕ → ℕ → EvspHost
evsp_host_obu_obj_new c name target_phase area = record {
  obu_name = take 10 name;
  target_phase = target_phase;
  distance = 0;
  host_obu_packet_timer = c.evsp_host_obu_packet_timeout;
  host_obu_list_timer = c.evsp_host_obu_list_timeout;
  touching_area_id = area;
  lon = 0;
  lat = 0;
  speed = 0;
  direction = 0;
  touched_amount = 0;
  is_activate = 0;
  vehicle_type = vehicle_ambulance;
}

-- The update information may be NULL.
unfoldable pub evsp_host_obu_obj_update : Option UpdateInfo → EvspHost → EvspHost
evsp_host_obu_obj_update none h = h
evsp_host_obu_obj_update (some info) h = record h {
  lat = info.lat;
  lon = info.lon;
  direction = info.direction;
  speed = info.speed;
  vehicle_type = info.vehicle_type;
  touched_amount = if info.is_touching == 1 then u8 (h.touched_amount + 1) else h.touched_amount;
  is_activate = if info.is_activate == 0 then h.is_activate else info.is_activate;
}

unfoldable pub evsp_host_obu_obj_insert :
    EvspConfig → Bytes → ℕ → ℕ → Option UpdateInfo → List EvspHost → List EvspHost
evsp_host_obu_obj_insert c name target_phase area info l =
    change_or_append name_of name (evsp_host_obu_obj_update info)
      (evsp_host_obu_obj_update info (evsp_host_obu_obj_new c name target_phase area)) l

-- The host that is found is updated; the list is the new one.
unfoldable pub evsp_host_obu_obj_search :
    Bytes → Option UpdateInfo → List EvspHost → Option EvspHost × List EvspHost
evsp_host_obu_obj_search name info [] = (none, [])
evsp_host_obu_obj_search name info (h ∷ hs) =
    let rest = evsp_host_obu_obj_search name info hs in
    let h' = evsp_host_obu_obj_update info h in
    if same_name h.obu_name name then (some h', h' ∷ hs) else (rest.0, h ∷ rest.1)

-- The loop of the deletion: the nodes before `current`, and `current` with what follows.
unfoldable pub delete_walk : Bytes → List EvspHost → List EvspHost → List EvspHost × List EvspHost
delete_walk name before [] = (before, [])
delete_walk name before (h ∷ hs) =
    let rest = delete_walk name (h ∷ before) hs in
    if same_name h.obu_name name then (before, h ∷ hs) else rest

-- The nodes before, the last of them first, in front of a list.
unfoldable pub rejoin : List EvspHost → List EvspHost → List EvspHost
rejoin [] l = l
rejoin (h ∷ hs) l = rejoin hs (h ∷ l)

-- The two cases behind the loop. Without a node before it, `current` is the head of the list, and the
-- first case reads its `next`: from the NULL of an empty list, which is `none` here.
unfoldable pub delete_found : List EvspHost → List EvspHost → Option (List EvspHost)
unfolding rejoin
delete_found [] [] = none
delete_found [] (h ∷ hs) = some hs
delete_found (b ∷ bs) [] = some (rejoin (b ∷ bs) [])
delete_found (b ∷ bs) (h ∷ hs) = some (rejoin (b ∷ bs) hs)

unfoldable pub evsp_host_obu_obj_delete : Bytes → List EvspHost → Option (List EvspHost)
unfolding delete_found delete_walk
evsp_host_obu_obj_delete name l = let at = delete_walk name [] l in delete_found at.0 at.1

-- True if no host is left that wants the phase.
unfoldable pub evsp_host_obu_obj_resume : ℕ → List EvspHost → Bool
evsp_host_obu_obj_resume target_phase [] = true
evsp_host_obu_obj_resume target_phase (h ∷ hs) =
    let rest = evsp_host_obu_obj_resume target_phase hs in
    if h.target_phase == target_phase then false else rest

-- `EVSP_cooling_info_t`.
pub record CoolingInfo : Type 0 where
  pub obu_name : Bytes
  pub touching_area_id : ℕ
  pub terminate_time : ℕ

-- The links of the nodes, of which 0 is `EVSP_cooling_list_head`, and what the others hold.
pub record CoolingList : Type 0 where
  pub links : Links
  pub info : ℕ → CoolingInfo

-- The new node is the number `node`. The call is `list_add_tail(&EVSP_cooling_list_head, &node->node)`.
unfoldable pub evsp_cooling_list_insert : ℕ → ℕ → Bytes → ℕ → CoolingList → CoolingList
evsp_cooling_list_insert node now name area c = record {
  links = list_add_tail 0 node (init_list_head node c.links);
  info = λ n.
      if n == node
      then record { obu_name = take 10 name; touching_area_id = area; terminate_time = now }
      else c.info n;
}

-- The loop of the search over the nodes: an old one is taken out, one that matches sets the result.
unfoldable pub cooling_loop :
    EvspConfig → ℕ → Bytes → ℕ → List ℕ → Bool → CoolingList → Bool × CoolingList
cooling_loop e now name area [] ret c = (ret, c)
cooling_loop e now name area (n ∷ ns) ret c =
    let i = c.info n in
    let without = record c { links = list_del n c.links } in
    let old = ltb (i.terminate_time + e.cooling_time) now in
    let match = same_name i.obu_name name && (i.touching_area_id == area) in
    let removed = cooling_loop e now name area ns ret without in
    let kept = cooling_loop e now name area ns (if match then true else ret) c in
    if old then removed else kept

-- True for 1 and false for -1; `none` if the list has no end within the fuel.
unfoldable pub evsp_cooling_list_search :
    ℕ → EvspConfig → ℕ → Bytes → ℕ → CoolingList → Option (Bool × CoolingList)
evsp_cooling_list_search fuel e now name area c = elim (nodes_of fuel c.links 0) [
  | none ↦ none
  | some ns ↦ some (cooling_loop e now name area ns false c)
]

-- The lists of the application and the command buffer.
pub record Evsp : Type 0 where
  pub hosts : List EvspHost
  pub cooling : CoolingList
  pub buffer : State

-- What both timer handlers do with a host, but for reports and message signs; `EVSP_on_OBU_packet_rx`
-- does the same for a host in the terminate area.
unfoldable pub evsp_timeout : Config → ℕ → ℕ → EvspHost → Evsp → Option Evsp
evsp_timeout config node now h t =
    let buffer = command_buf_delete_obu h.obu_name t.buffer in
    let cooling = evsp_cooling_list_insert node now h.obu_name h.touching_area_id t.cooling in
    elim (evsp_host_obu_obj_delete h.obu_name t.hosts) [
      | none ↦ none
      | some hosts ↦ some record {
        hosts = hosts;
        cooling = cooling;
        buffer =
            if evsp_host_obu_obj_resume h.target_phase hosts
            then (command_buf_resume_control config config.evsp.id buffer).1
            else buffer;
      }
    ]
