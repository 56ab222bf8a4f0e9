-- ===== src/Evsp/Touching.antt =====
-- The branches of EVSP_on_OBU_packet_rx (application/EVSP/src/EVSP.c) that a touch takes.
use vips_adaptive_traffi.Common.{
  ℕ, ◌+◌, ◌≡◌, ℤ, bytes_eq, ◌≤◌, refl, ap, ◌∙◌, true, false, some, none, List, [], ◌∷◌, Bytes,
  length, arith, ◌==◌, leb, if◌then◌else◌,
}
use vips_adaptive_traffi.Signal.{Config}
use vips_adaptive_traffi.Hosts.ByName.{same_name}
use vips_adaptive_traffi.Hosts.Evsp.{
  EvspHost, EvspConfig, CoolingList, evsp_host_obu_obj_update, evsp_host_obu_obj_search,
  evsp_cooling_list_search,
}
use vips_adaptive_traffi.Evsp.Activate.{Active, evsp_obu_activation_timer_start}
use vips_adaptive_traffi.Evsp.Round.{host_named}
use vips_adaptive_traffi.Evsp.Receive.{
  Service, VehiclePacket, info_with, renew, is_phase, touched, activate_touched, host_touches,
  host_packet, new_packet, evsp_on_obu_packet_rx,
}
use vips_adaptive_traffi.Evsp.Found.{on_found, renewed, named-search, named-renew}

-- What the search and the renewal leave of the host.
pub seen-named :
    (e : EvspConfig) (p : VehiclePacket) (hosts : List EvspHost)
    → host_named p.obu_name
        (renew e p (evsp_host_obu_obj_search p.obu_name (some (info_with p.junk 0 p)) hosts).1)
      ≡ on_found (renewed e p) (
          on_found
            (evsp_host_obu_obj_update (some (info_with p.junk 0 p)))
            (host_named p.obu_name hosts))
seen-named e p hosts =
    named-renew e p (evsp_host_obu_obj_search p.obu_name (some (info_with p.junk 0 p)) hosts).1
    ∙ ap (on_found (renewed e p)) (named-search p.obu_name (info_with p.junk 0 p) hosts)

-- The host as the search and the renewal leave it.
abbrev pub seen : EvspConfig → VehiclePacket → EvspHost → EvspHost
seen e p h = renewed e p (evsp_host_obu_obj_update (some (info_with p.junk 0 p)) h)

abbrev pub seen_service : EvspConfig → VehiclePacket → Service → Service
seen_service e p t = record t {
  evsp = record (t.evsp) {
    hosts =
        renew e p
          (evsp_host_obu_obj_search p.obu_name (some (info_with p.junk 0 p)) t.evsp.hosts).1;
  };
}

pub rx-host :
    (config : Config) (e : EvspConfig) (threshold : ℕ) (p : VehiclePacket) (t : Service)
    (h : EvspHost)
    → (t.evsp.buffer.signal_status.sub_phase_id == 0) ≡ false
    → host_named p.obu_name (seen_service e p t).evsp.hosts ≡ some h
    → evsp_on_obu_packet_rx config e threshold p t
      ≡ host_packet config e threshold h p (seen_service e p t)
unfolding evsp_on_obu_packet_rx
rx-host config e threshold p t h on found =
    rw (evsp_on_obu_packet_rx, on) (rw (evsp_on_obu_packet_rx, found) refl)

pub packet-active :
    (config : Config) (e : EvspConfig) (threshold : ℕ) (h : EvspHost) (p : VehiclePacket)
    (t : Service) (ret : ℤ) (a : Active)
    → p.leaves h.touching_area_id ≡ false
    → h.is_activate ≡ 2
    → evsp_obu_activation_timer_start p.created (some h) t.active ≡ some (ret, a)
    → host_packet config e threshold h p t ≡ some (record t { active = a })
unfolding host_packet
packet-active config e threshold h p t ret a stays two starts =
    let is_two : (h.is_activate == 2) ≡ true = ground (arith, two) in
    simp (stays, is_two, starts) refl

pub packet-touch :
    (config : Config) (e : EvspConfig) (threshold : ℕ) (h : EvspHost) (p : VehiclePacket)
    (t : Service)
    → p.leaves h.touching_area_id ≡ false
    → h.is_activate ≡ 1
    → host_packet config e threshold h p t ≡ host_touches e threshold h p t
unfolding host_packet
packet-touch config e threshold h p t stays one =
    let not_two : (h.is_activate == 2) ≡ false = ground (arith, one) in
    let is_one : (h.is_activate == 1) ≡ true = ground (arith, one) in
    simp (stays, not_two, is_one) refl

pub touches-again :
    (e : EvspConfig) (threshold phase area : ℕ) (h : EvspHost) (p : VehiclePacket) (t : Service)
    → p.plan_found ≡ true
    → p.touch ≡ some (phase, area)
    → is_phase phase ≡ true
    → host_touches e threshold h p t ≡ (
        if leb threshold (h.touched_amount + 1)
        then activate_touched e phase area p t
        else some (touched e phase area 1 p t))
unfolding host_touches
touches-again e threshold phase area h p t planned touches in_phase =
    rw (host_touches, planned) (rw (host_touches, touches) (rw in_phase refl))

pub name-some : (a name : Bytes) → 1 ≤ length name → same_name a name ≡ true → 1 ≤ length a
unfolding bytes_eq
name-some [] [] some_ same = absurd (omega (arith, some_))
name-some [] (x ∷ xs) some_ same = absurd cc
name-some (y ∷ ys) name some_ same = omega arith

abbrev pub searched_service : VehiclePacket → Service → Service
searched_service p t = record t {
  evsp = record (t.evsp) {
    hosts = (evsp_host_obu_obj_search p.obu_name (some (info_with p.junk 0 p)) t.evsp.hosts).1;
  };
}

pub rx-new :
    (config : Config) (e : EvspConfig) (threshold : ℕ) (p : VehiclePacket) (t : Service)
    → (t.evsp.buffer.signal_status.sub_phase_id == 0) ≡ false
    → host_named p.obu_name (seen_service e p t).evsp.hosts ≡ none
    → evsp_on_obu_packet_rx config e threshold p t ≡ new_packet e p (searched_service p t)
unfolding evsp_on_obu_packet_rx
rx-new config e threshold p t on found =
    rw (evsp_on_obu_packet_rx, on) (rw (evsp_on_obu_packet_rx, found) refl)

pub new-touched :
    (e : EvspConfig) (phase area : ℕ) (p : VehiclePacket) (t : Service) (c : CoolingList)
    → p.plan_found ≡ true
    → p.touch ≡ some (phase, area)
    → is_phase phase ≡ true
    → evsp_cooling_list_search p.fuel e p.now p.obu_name area t.evsp.cooling ≡ some (false, c)
    → new_packet e p t
      ≡ some (touched e phase area 1 p record t { evsp = record (t.evsp) { cooling = c } })
unfolding new_packet
new-touched e phase area p t c planned touches in_phase cooled =
    rw (new_packet, planned) (rw (new_packet, touches) (rw (new_packet, cooled) (rw in_phase refl)))
