-- ===== src/Evsp/Receive.antt =====
-- What a message of an emergency vehicle does to the service: EVSP_on_OBU_packet_rx of
-- application/EVSP/src/EVSP.c, from the search for the vehicle's host on, but for the reports and the
-- message signs. `none` stands for a read through NULL, or a cooling list without an end.
use vips_adaptive_traffi.Common.{
  ℕ, ◌+◌, ◌-◌, ◌%◌, Bool, not, ◌&&◌, Option, some, none, List, [], ◌∷◌, Bytes, leb, ◌==◌,
  if◌then◌else◌, u8,
}
use vips_adaptive_traffi.Signal.{Config}
use vips_adaptive_traffi.Hosts.ByName.{same_name}
use vips_adaptive_traffi.Hosts.Evsp.{
  EvspHost, UpdateInfo, EvspConfig, Evsp, evsp_host_obu_obj_search, evsp_host_obu_obj_insert,
  evsp_cooling_list_search, evsp_timeout,
}
use vips_adaptive_traffi.Evsp.Activate.{
  Active, evsp_obu_activation_time_end, evsp_obu_activation_timer_start,
}
use vips_adaptive_traffi.Evsp.Round.{host_named}

-- The lists and the command buffer, and the vehicles that adjust the signal.
pub record Service : Type 0 where
  pub evsp : Evsp
  pub active : Active

-- What comes with a message: the vehicle's name, and the update information without the last two
-- fields; what the memory of its field `is_touching`, which is not set at first, holds; whether a
-- thread can be created; the number of the next node of the cooling list, the time, and the fuel for
-- that list. The geometry of EVSP_touching_area.c is what it finds: `plan_found` is the result of
-- EVSP_plan_table_search; `touch` that of EVSP_activate, the subphase and the area, with `none` for -1;
-- `leaves` is EVSP_terminate for an area.
pub record VehiclePacket : Type 0 where
  pub obu_name : Bytes
  pub distance : ℕ
  pub info : UpdateInfo
  pub junk : ℕ
  pub created : Bool
  pub node : ℕ
  pub now : ℕ
  pub fuel : ℕ
  pub plan_found : Bool
  pub touch : Option (ℕ × ℕ)
  pub leaves : ℕ → Bool

-- The update information with the given marks.
abbrev pub info_with : ℕ → ℕ → VehiclePacket → UpdateInfo
info_with touching activate p = record p.info { is_touching = touching; is_activate = activate }

-- The first host of the name takes note of its distance, and its timer is set again.
unfoldable pub renew : EvspConfig → VehiclePacket → List EvspHost → List EvspHost
renew e p [] = []
renew e p (h ∷ hs) =
    let rest = renew e p hs in
    if same_name h.obu_name p.obu_name
    then record h { host_obu_packet_timer = e.evsp_host_obu_packet_timeout; distance = p.distance }
      ∷ hs
    else h ∷ rest

-- `EVSP_PHASE_MAX`.
abbrev pub is_phase : ℕ → Bool
is_phase n = leb 1 n && leb n 8

abbrev pub touched : EvspConfig → ℕ → ℕ → ℕ → VehiclePacket → Service → Service
touched e phase area activate p t = record t {
  evsp = record (t.evsp) {
    hosts =
        evsp_host_obu_obj_insert e p.obu_name phase area (some (info_with 1 activate p))
          t.evsp.hosts;
  };
}

-- The byte that EVSP.c counts, of the number of 32 bits that main.c has; the low byte comes first.
abbrev pub next_amount : ℕ → ℕ
next_amount n = n - n % 256 + u8 (n + 1)

-- A host that has touched often enough is activated.
unfoldable pub activate_touched : EvspConfig → ℕ → ℕ → VehiclePacket → Service → Option Service
unfolding evsp_obu_activation_timer_start evsp_host_obu_obj_insert
activate_touched e phase area p t =
    let t' = touched e phase area 2 p t in
    elim (evsp_obu_activation_timer_start p.created (host_named p.obu_name t'.evsp.hosts)
      t.active) [
        | none ↦ none
        | some r ↦ some record {
          evsp = record (t'.evsp) {
            buffer = record (t.evsp.buffer) {
              activate_amount = next_amount t.evsp.buffer.activate_amount;
            };
          };
          active = r.1;
        }
      ]

-- A host that is in none of the areas where it ends.
unfoldable pub host_touches : EvspConfig → ℕ → EvspHost → VehiclePacket → Service → Option Service
unfolding activate_touched
host_touches e threshold h p t = if not (p.plan_found) then some t else (elim (p.touch) [
  | none ↦ some t
  | some at ↦
      if not (is_phase at.0)
      then some t
      else if leb threshold (h.touched_amount + 1)
      then activate_touched e at.0 at.1 p t
      else some (touched e at.0 at.1 1 p t)
])

-- A host enters its terminate area, `EVSP_OBU_activation_time_end` first.
unfoldable pub host_leaves : Config → EvspHost → VehiclePacket → Service → Option Service
unfolding evsp_obu_activation_time_end evsp_timeout
host_leaves config h p t = elim (evsp_obu_activation_time_end h.obu_name t.active) [
  | none ↦ none
  | some flag ↦ elim (evsp_timeout config p.node p.now h t.evsp) [
    | none ↦ none
    | some evsp ↦ some record t { evsp = evsp }
  ]
]

unfoldable pub host_packet :
    Config → EvspConfig → ℕ → EvspHost → VehiclePacket → Service → Option Service
unfolding host_leaves host_touches evsp_obu_activation_timer_start
host_packet config e threshold h p t =
    if p.leaves h.touching_area_id
    then host_leaves config h p t
    else if h.is_activate == 2
    then (elim (evsp_obu_activation_timer_start p.created (some h) t.active) [
      | none ↦ none
      | some r ↦ some record t { active = r.1 }
    ])
    else if h.is_activate == 1
    then host_touches e threshold h p t
    else some t

-- A vehicle that is no host yet.
unfoldable pub new_packet : EvspConfig → VehiclePacket → Service → Option Service
unfolding evsp_cooling_list_search evsp_host_obu_obj_insert
new_packet e p t = if not (p.plan_found) then some t else (elim (p.touch) [
  | none ↦ some t
  | some at ↦ elim (evsp_cooling_list_search p.fuel e p.now p.obu_name at.1 t.evsp.cooling) [
    | none ↦ none
    | some c ↦
        let t' = record t { evsp = record (t.evsp) { cooling = c.1 } } in
        if c.0
        then some t'
        else if is_phase at.0
        then some (touched e at.0 at.1 1 p t')
        else some t'
  ]
])

-- `threshold` is `EVSP_config.touching_threshold`. The signal status is the command buffer's.
unfoldable pub evsp_on_obu_packet_rx :
    Config → EvspConfig → ℕ → VehiclePacket → Service → Option Service
unfolding host_packet new_packet renew evsp_host_obu_obj_search
evsp_on_obu_packet_rx config e threshold p t =
    let seen = evsp_host_obu_obj_search p.obu_name (some (info_with p.junk 0 p)) t.evsp.hosts in
    let searched = record t { evsp = record (t.evsp) { hosts = seen.1 } } in
    let renewed = record t { evsp = record (t.evsp) { hosts = renew e p seen.1 } } in
    if t.evsp.buffer.signal_status.sub_phase_id == 0
    then some searched
    else (elim (host_named p.obu_name renewed.evsp.hosts) [
      | none ↦ new_packet e p searched
      | some h ↦ host_packet config e threshold h p renewed
    ])
