-- ===== src/Evsp/Touch.antt =====
-- What a message from a touching area makes of the service: EVSP_on_OBU_packet_rx of
-- application/EVSP/src/EVSP.c, from the search for the host on.
use vips_adaptive_traffi.Common.{
  ℕ, ◌+◌, ◌≡◌, ◌≤◌, refl, ap, ◌∙◌, inl, inr, false, some, none, length, arith, ◌==◌, leb,
  Bool-cases,
}
use vips_adaptive_traffi.Signal.{Config}
use vips_adaptive_traffi.Hosts.Evsp.{
  EvspHost, EvspConfig, CoolingList, evsp_host_obu_obj_new, evsp_host_obu_obj_update,
  evsp_host_obu_obj_search, evsp_cooling_list_search,
}
use vips_adaptive_traffi.Evsp.Round.{host_named}
use vips_adaptive_traffi.Evsp.Running.{IsActive}
use vips_adaptive_traffi.Evsp.Receive.{
  Service, VehiclePacket, info_with, touched, host_packet, evsp_on_obu_packet_rx,
}
use vips_adaptive_traffi.Evsp.Found.{
  on_found, inserted, renewed, named-search, named-insert, named-same,
}
use vips_adaptive_traffi.Evsp.Touching.{
  seen, seen_service, searched_service, rx-new, new-touched, seen-named, rx-host, packet-touch,
  touches-again, name-some,
}
use vips_adaptive_traffi.Evsp.Progress.{
  IsTouch, IsTouched, Touched, seen-Touched, touch-activates, touch-counts, touch-active,
}

-- A touch of a vehicle that is a host.
touch-host :
    (config : Config) (e : EvspConfig) (threshold n : ℕ) (h : EvspHost) (p : VehiclePacket)
    (t : Service)
    → IsTouch p
    → 1 ≤ length h.obu_name
    → (t.evsp.buffer.signal_status.sub_phase_id == 0) ≡ false
    → IsActive t.active
    → host_named p.obu_name t.evsp.hosts ≡ some h
    → threshold ≤ 255
    → 1 ≤ n
    → Touched threshold n h
    → (t' : Service) × (host_packet config e threshold h p t ≡ some t')
      × IsTouched threshold p.obu_name (n + 1) t'
unfolding Touched
touch-host config e threshold n h p t touch named on active found bounded past (inr (many, two)) =
    touch-active config e threshold (n + 1) h p t named touch.creates
      (touch.stays h.touching_area_id) on active found (omega (arith, many)) two
touch-host config e threshold n h p t touch named on active found bounded past
      (inl (few, one, count)) =
    let does =
      packet-touch config e threshold h p t (touch.stays h.touching_area_id) one
      ∙ touches-again e threshold touch.phase touch.area h p t touch.planned touch.touches
          touch.in_phase in
    elim (Bool-cases (leb threshold (h.touched_amount + 1))) [
      | inl enough ↦
          let (t', is, touched_) =
            touch-activates e threshold (n + 1) touch.phase touch.area h p t named touch.creates on
              active found (ground (arith, enough, count, past)) in
          (t', does ∙ rw enough is, touched_)
      | inr few_ ↦ (
        touched e touch.phase touch.area 1 p t,
        does ∙ rw few_ refl,
        touch-counts e threshold n touch.phase touch.area h p t on active found count
            (ground (arith, few_, count, past, few)) bounded,
      )
    ]

pub touch-next :
    (config : Config) (e : EvspConfig) (threshold n : ℕ) (p : VehiclePacket) (t : Service)
    → IsTouch p
    → 1 ≤ length p.obu_name
    → threshold ≤ 255
    → 1 ≤ n
    → IsTouched threshold p.obu_name n t
    → (t' : Service) × (evsp_on_obu_packet_rx config e threshold p t ≡ some t')
      × IsTouched threshold p.obu_name (n + 1) t'
unfolding on_found evsp_host_obu_obj_update
touch-next config e threshold n p t touch named bounded past before =
    let now : host_named p.obu_name (seen_service e p t).evsp.hosts ≡ some (seen e p before.host) =
      seen-named e p t.evsp.hosts
      ∙ ap
          (λ o.
            on_found (renewed e p)
              (on_found (evsp_host_obu_obj_update (some (info_with p.junk 0 p))) o))
          before.found in
    let (t', does, after) =
      touch-host config e threshold n (seen e p before.host) p (seen_service e p t) touch
        (name-some before.host.obu_name p.obu_name named
          (named-same p.obu_name t.evsp.hosts before.host before.found))
        before.connected before.active now bounded past
        (seen-Touched threshold n e p before.host touch.unset before.progress) in
    (t', rx-host config e threshold p t (seen e p before.host) before.connected now ∙ does, after)

pub touch-first :
    (config : Config) (e : EvspConfig) (threshold : ℕ) (p : VehiclePacket) (t : Service)
    (c : CoolingList)
    → (touch : IsTouch p) → (t.evsp.buffer.signal_status.sub_phase_id == 0) ≡ false
    → IsActive t.active
    → host_named p.obu_name t.evsp.hosts ≡ none
    → evsp_cooling_list_search p.fuel e p.now p.obu_name touch.area t.evsp.cooling ≡ some (false, c)
    → (t' : Service) × (evsp_on_obu_packet_rx config e threshold p t ≡ some t')
      × IsTouched threshold p.obu_name 1 t'
unfolding Touched inserted on_found evsp_host_obu_obj_update evsp_host_obu_obj_new
touch-first config e threshold p t c touch on active new cooled =
    let hosts =
      (evsp_host_obu_obj_search p.obu_name (some (info_with p.junk 0 p)) t.evsp.hosts).1 in
    let searched : host_named p.obu_name hosts ≡ none =
      named-search p.obu_name (info_with p.junk 0 p) t.evsp.hosts
      ∙ ap (on_found (evsp_host_obu_obj_update (some (info_with p.junk 0 p)))) new in
    let still : host_named p.obu_name (seen_service e p t).evsp.hosts ≡ none =
      seen-named e p t.evsp.hosts
      ∙ ap
          (λ o.
            on_found (renewed e p)
              (on_found (evsp_host_obu_obj_update (some (info_with p.junk 0 p))) o))
          new in
    (
      touched e touch.phase touch.area 1 p
          record t { evsp = record (t.evsp) { hosts = hosts; cooling = c } },
      rx-new config e threshold p t on still
          ∙ new-touched e touch.phase touch.area p (searched_service p t) c touch.planned
              touch.touches touch.in_phase cooled,
      record {
        active = active;
        connected = on;
        host = inserted e p.obu_name touch.phase touch.area (info_with 1 1 p) none;
        found =
            named-insert e p.obu_name touch.phase touch.area (info_with 1 1 p) hosts
            ∙ ap (λ o. some (inserted e p.obu_name touch.phase touch.area (info_with 1 1 p) o))
                searched;
        progress = inl (ground arith, refl, refl);
      },
    )
