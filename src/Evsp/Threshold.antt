-- ===== src/Evsp/Threshold.antt =====
-- A vehicle that touches again and again is activated, which EVSP_on_OBU_packet_rx of
-- application/EVSP/src/EVSP.c counts.
use mathlib.Core.Path.{subst}
use vips_adaptive_traffi.Common.{
  ℕ, ◌+◌, ◌≡◌, ◌≤◌, refl, false, some, none, List, [], ◌∷◌, Bytes, length, All, arith, ◌==◌,
}
use vips_adaptive_traffi.Signal.{Config}
use vips_adaptive_traffi.Hosts.Evsp.{EvspConfig, CoolingList, evsp_cooling_list_search}
use vips_adaptive_traffi.Evsp.Round.{host_named}
use vips_adaptive_traffi.Evsp.Running.{IsActive}
use vips_adaptive_traffi.Evsp.Receive.{Service, VehiclePacket, evsp_on_obu_packet_rx}
use vips_adaptive_traffi.Evsp.Progress.{receive, IsTouch, TouchOf, IsTouched}
use vips_adaptive_traffi.Evsp.Touch.{touch-next, touch-first}

touch-of :
    (config : Config) (e : EvspConfig) (threshold n : ℕ) (name : Bytes) (p : VehiclePacket)
    (t : Service)
    → TouchOf name p
    → 1 ≤ length name
    → threshold ≤ 255
    → 1 ≤ n
    → IsTouched threshold name n t
    → (t' : Service) × (evsp_on_obu_packet_rx config e threshold p t ≡ some t')
      × IsTouched threshold name (n + 1) t'
touch-of config e threshold n name p t (same, touch) named bounded past before =
    subst
      (λ nm.
        1 ≤ length nm
        → IsTouched threshold nm n t
        → (t' : Service) × (evsp_on_obu_packet_rx config e threshold p t ≡ some t')
          × IsTouched threshold nm (n + 1) t')
      same (λ k before. touch-next config e threshold n p t touch k bounded past before) named
      before

receive-from :
    (config : Config) (e : EvspConfig) (threshold n : ℕ) (name : Bytes) (ps : List VehiclePacket)
    (t : Service)
    → All (TouchOf name) ps
    → 1 ≤ length name
    → threshold ≤ 255
    → 1 ≤ n
    → IsTouched threshold name n t
    → (t' : Service) × (receive config e threshold ps t ≡ some t')
      × IsTouched threshold name (n + length ps) t'
unfolding receive
receive-from config e threshold n name [] t touches named bounded past before =
    (t, refl, subst (λ k. IsTouched threshold name k t) (omega arith) before)
receive-from config e threshold n name (p ∷ ps) t touches named bounded past before =
    let (t1, does, next) =
      touch-of config e threshold n name p t touches.0 named bounded past before in
    let (t', rest, after) =
      receive-from config e threshold (n + 1) name ps t1 touches.1 named bounded (omega arith)
        next in
    (t', rw (receive, does) rest, subst (λ k. IsTouched threshold name k t') (omega arith) after)

-- A vehicle that is no host and not in its cooling time, and touches with every message, is activated
-- by the message of the number `needed`: the threshold, or the second if that is less. All its messages
-- are served, without a read through NULL. After fewer it is a host whose touches are counted and that
-- is not active; from that number on its host is active, and stays so, whether it could join the
-- vehicles that adjust the signal or not. The threshold is a byte, threads can be created, the
-- controller has sent its status, and the unset field `is_touching` never holds 1.
pub receive-IsTouched :
    (config : Config) (e : EvspConfig) (threshold : ℕ) (p : VehiclePacket) (ps : List VehiclePacket)
    (t : Service) (c : CoolingList)
    → (touch : IsTouch p) → All (TouchOf p.obu_name) ps
    → 1 ≤ length p.obu_name
    → threshold ≤ 255
    → (t.evsp.buffer.signal_status.sub_phase_id == 0) ≡ false
    → IsActive t.active
    → host_named p.obu_name t.evsp.hosts ≡ none
    → evsp_cooling_list_search p.fuel e p.now p.obu_name touch.area t.evsp.cooling ≡ some (false, c)
    → (t' : Service) × (receive config e threshold (p ∷ ps) t ≡ some t')
      × IsTouched threshold p.obu_name (length (p ∷ ps)) t'
unfolding receive
receive-IsTouched config e threshold p ps t c touch touches named bounded on active new cooled =
    let (t1, does, next) = touch-first config e threshold p t c touch on active new cooled in
    let (t', rest, after) =
      receive-from config e threshold 1 p.obu_name ps t1 touches named bounded (omega arith) next in
    (
      t',
      rw (receive, does) rest,
      subst (λ k. IsTouched threshold p.obu_name k t') (omega arith) after,
    )
