-- ===== src/Evsp/Progress.antt =====
-- What one touch makes of a vehicle (EVSP_on_OBU_packet_rx of application/EVSP/src/EVSP.c).
use vips_adaptive_traffi.Common.{
  ℕ, ◌+◌, ◌≡◌, ◌≤◌, ◌<◌, refl, ap, ◌∙◌, ◌⊎◌, inl, inr, true, false, Option, some, none, List, [],
  ◌∷◌, Bytes, length, arith, ◌==◌, leb, if◌then◌else◌,
}
use vips_adaptive_traffi.Signal.{Config}
use vips_adaptive_traffi.Hosts.Evsp.{
  EvspHost, EvspConfig, evsp_host_obu_obj_update, evsp_host_obu_obj_insert,
}
use vips_adaptive_traffi.Evsp.Activate.{evsp_obu_activation_timer_start}
use vips_adaptive_traffi.Evsp.Round.{host_named}
use vips_adaptive_traffi.Evsp.Running.{IsActive, evsp_obu_activation_timer_start-IsActive}
use vips_adaptive_traffi.Evsp.Receive.{
  Service, VehiclePacket, info_with, is_phase, touched, next_amount, activate_touched, host_packet,
  evsp_on_obu_packet_rx,
}
use vips_adaptive_traffi.Evsp.Found.{inserted, named-insert}
use vips_adaptive_traffi.Evsp.Touching.{seen, packet-active}

-- The messages, one after the other.
unfoldable pub receive : Config → EvspConfig → ℕ → List VehiclePacket → Service → Option Service
unfolding evsp_on_obu_packet_rx
receive config e threshold [] t = some t
receive config e threshold (p ∷ ps) t = elim (evsp_on_obu_packet_rx config e threshold p t) [
  | none ↦ none
  | some t' ↦ receive config e threshold ps t'
]

-- A message from a touching area: the plan is known, the area belongs to a subphase, no
-- area is left, threads can be created, and the unset field does not hold 1.
pub record IsTouch (p : VehiclePacket) : Type 0 where
  pub planned : p.plan_found ≡ true
  pub phase : ℕ
  pub area : ℕ
  pub touches : p.touch ≡ some (phase, area)
  pub in_phase : is_phase phase ≡ true
  pub stays : (a : ℕ) → p.leaves a ≡ false
  pub unset : (p.junk == 1) ≡ false
  pub creates : p.created ≡ true

abbrev pub TouchOf : Bytes → VehiclePacket → Type 0
TouchOf name p = (p.obu_name ≡ name) × IsTouch p

-- The number of messages that activate.
abbrev pub needed : ℕ → ℕ
needed threshold = if leb threshold 2 then 2 else threshold

-- The host after `n` touches.
unfoldable pub Touched : ℕ → ℕ → EvspHost → Type 0
Touched threshold n h =
    ((n < needed threshold) × (h.is_activate ≡ 1) × (h.touched_amount ≡ n))
    ⊎ ((needed threshold ≤ n) × (h.is_activate ≡ 2))

-- The service after `n` touches of the vehicle.
pub record IsTouched (threshold : ℕ) (name : Bytes) (n : ℕ) (t : Service) : Type 0 where
  pub active : IsActive t.active
  pub connected : (t.evsp.buffer.signal_status.sub_phase_id == 0) ≡ false
  pub host : EvspHost
  pub found : host_named name t.evsp.hosts ≡ some host
  pub progress : Touched threshold n host

pub seen-Touched :
    (threshold n : ℕ) (e : EvspConfig) (p : VehiclePacket) (h : EvspHost)
    → (p.junk == 1) ≡ false
    → Touched threshold n h
    → Touched threshold n (seen e p h)
unfolding Touched evsp_host_obu_obj_update
seen-Touched threshold n e p h unset (inl (few, act, count)) = inl (few, act, rw unset count)
seen-Touched threshold n e p h unset (inr (many, act)) = inr (many, act)

-- The activation by a touch.
pub touch-activates :
    (e : EvspConfig) (threshold n phase area : ℕ) (h : EvspHost) (p : VehiclePacket) (t : Service)
    → 1 ≤ length h.obu_name
    → p.created ≡ true
    → (t.evsp.buffer.signal_status.sub_phase_id == 0) ≡ false
    → IsActive t.active
    → host_named p.obu_name t.evsp.hosts ≡ some h
    → needed threshold ≤ n
    → (t' : Service) × (activate_touched e phase area p t ≡ some t')
      × IsTouched threshold p.obu_name n t'
unfolding activate_touched Touched inserted evsp_host_obu_obj_update
touch-activates e threshold n phase area h p t named creates on active found many =
    let h2 = inserted e p.obu_name phase area (info_with 1 2 p) (some h) in
    let hosts =
      evsp_host_obu_obj_insert e p.obu_name phase area (some (info_with 1 2 p)) t.evsp.hosts in
    let now : host_named p.obu_name hosts ≡ some h2 =
      named-insert e p.obu_name phase area (info_with 1 2 p) t.evsp.hosts
      ∙ ap (λ o. some (inserted e p.obu_name phase area (info_with 1 2 p) o)) found in
    let (ret, a, starts, active', is) =
      evsp_obu_activation_timer_start-IsActive h2 t.active named active in
    let begun : evsp_obu_activation_timer_start p.created (host_named p.obu_name hosts) t.active
        ≡ some (ret, a) =
      ap (λ o. evsp_obu_activation_timer_start p.created o t.active) now
      ∙ (ap (λ c. evsp_obu_activation_timer_start c (some h2) t.active) creates ∙ starts) in
    (
      record {
        evsp = record ((touched e phase area 2 p t).evsp) {
          buffer = record (t.evsp.buffer) {
            activate_amount = next_amount t.evsp.buffer.activate_amount;
          };
        };
        active = a;
      },
      rw (activate_touched, begun) refl,
      record {
        active = active';
        connected = on;
        host = h2;
        found = now;
        progress = inr (many, refl);
      },
    )

-- A touch before the activation.
pub touch-counts :
    (e : EvspConfig) (threshold n phase area : ℕ) (h : EvspHost) (p : VehiclePacket) (t : Service)
    → (t.evsp.buffer.signal_status.sub_phase_id == 0) ≡ false
    → IsActive t.active
    → host_named p.obu_name t.evsp.hosts ≡ some h
    → h.touched_amount ≡ n
    → n + 1 < needed threshold
    → threshold ≤ 255
    → IsTouched threshold p.obu_name (n + 1) (touched e phase area 1 p t)
unfolding Touched inserted evsp_host_obu_obj_update
touch-counts e threshold n phase area h p t on active found count few bounded = record {
  active = active;
  connected = on;
  host = inserted e p.obu_name phase area (info_with 1 1 p) (some h);
  found =
      named-insert e p.obu_name phase area (info_with 1 1 p) t.evsp.hosts
      ∙ ap (λ o. some (inserted e p.obu_name phase area (info_with 1 1 p) o)) found;
  progress = inl (few, refl, ground (arith, count, few, bounded));
}

-- A touch of a vehicle that is activated already.
pub touch-active :
    (config : Config) (e : EvspConfig) (threshold n : ℕ) (h : EvspHost) (p : VehiclePacket)
    (t : Service)
    → 1 ≤ length h.obu_name
    → p.created ≡ true
    → p.leaves h.touching_area_id ≡ false
    → (t.evsp.buffer.signal_status.sub_phase_id == 0) ≡ false
    → IsActive t.active
    → host_named p.obu_name t.evsp.hosts ≡ some h
    → needed threshold ≤ n
    → h.is_activate ≡ 2
    → (t' : Service) × (host_packet config e threshold h p t ≡ some t')
      × IsTouched threshold p.obu_name n t'
unfolding Touched
touch-active config e threshold n h p t named creates stays on active found many two =
    let (ret, a, starts, active', is) =
      evsp_obu_activation_timer_start-IsActive h t.active named active in
    (
      record t { active = a },
      packet-active config e threshold h p t ret a stays two
          (ap (λ c. evsp_obu_activation_timer_start c (some h) t.active) creates ∙ starts),
      record {
        active = active';
        connected = on;
        host = h;
        found = found;
        progress = inr (many, two);
      },
    )
