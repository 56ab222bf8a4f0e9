-- ===== src/Evsp/Found.antt =====
-- The host that a search finds behind each change of the list by
-- application/EVSP/src/EVSP_OBU_list.c, and by a message.
use vips_adaptive_traffi.Common.{
  ℕ, ◌≡◌, refl, inl, inr, true, Option, some, none, List, [], ◌∷◌, Bytes, take, take-take,
  bytes_eq_iff, arith, Bool-cases,
}
use vips_adaptive_traffi.Hosts.ByName.{same_name, change_or_append}
use vips_adaptive_traffi.Hosts.Evsp.{
  EvspHost, UpdateInfo, EvspConfig, evsp_host_obu_obj_new, evsp_host_obu_obj_update,
  evsp_host_obu_obj_search, evsp_host_obu_obj_insert,
}
use vips_adaptive_traffi.Evsp.Round.{host_named}
use vips_adaptive_traffi.Evsp.Receive.{VehiclePacket, renew}

-- What is found is changed.
unfoldable pub on_found : (EvspHost → EvspHost) → Option EvspHost → Option EvspHost
on_found f none = none
on_found f (some h) = some (f h)

pub named-search :
    (name : Bytes) (info : UpdateInfo) (l : List EvspHost)
    → host_named name (evsp_host_obu_obj_search name (some info) l).1
      ≡ on_found (evsp_host_obu_obj_update (some info)) (host_named name l)
unfolding evsp_host_obu_obj_search evsp_host_obu_obj_update on_found
named-search name info [] = refl
named-search name info (h ∷ hs) = elim (Bool-cases (same_name h.obu_name name)) [
  | inl is ↦ rw (host_named, is) (rw (host_named, is) refl)
  | inr other ↦ rw (host_named, other) (rw (host_named, other) (named-search name info hs))
]

abbrev pub renewed : EvspConfig → VehiclePacket → EvspHost → EvspHost
renewed e p h = record h {
  host_obu_packet_timer = e.evsp_host_obu_packet_timeout;
  distance = p.distance;
}

pub named-renew :
    (e : EvspConfig) (p : VehiclePacket) (l : List EvspHost)
    → host_named p.obu_name (renew e p l) ≡ on_found (renewed e p) (host_named p.obu_name l)
unfolding renew evsp_host_obu_obj_search evsp_host_obu_obj_update on_found
named-renew e p [] = refl
named-renew e p (h ∷ hs) = elim (Bool-cases (same_name h.obu_name p.obu_name)) [
  | inl is ↦ rw (host_named, is) (rw (host_named, is) refl)
  | inr other ↦ rw (host_named, other) (rw (host_named, other) (named-renew e p hs))
]

-- The host that an insertion makes of the one that is found.
unfoldable pub inserted : EvspConfig → Bytes → ℕ → ℕ → UpdateInfo → Option EvspHost → EvspHost
unfolding evsp_host_obu_obj_update evsp_host_obu_obj_new
inserted e name phase area info none =
    evsp_host_obu_obj_update (some info) (evsp_host_obu_obj_new e name phase area)
inserted e name phase area info (some h) = evsp_host_obu_obj_update (some info) h

pub named-insert :
    (e : EvspConfig) (name : Bytes) (phase area : ℕ) (info : UpdateInfo) (l : List EvspHost)
    → host_named name (evsp_host_obu_obj_insert e name phase area (some info) l)
      ≡ some (inserted e name phase area info (host_named name l))
unfolding evsp_host_obu_obj_insert change_or_append evsp_host_obu_obj_search inserted
    evsp_host_obu_obj_update evsp_host_obu_obj_new
named-insert e name phase area info [] =
    let same : same_name (take 10 name) name ≡ true =
      ground (arith, take-take 10 name, bytes_eq_iff (take 10 (take 10 name)) (take 10 name)) in
    rw (host_named, same) refl
named-insert e name phase area info (h ∷ hs) = elim (Bool-cases (same_name h.obu_name name)) [
  | inl is ↦ rw (host_named, is) (rw (host_named, is) refl)
  | inr other ↦
      rw (host_named, other) (rw (host_named, other) (named-insert e name phase area info hs))
]

pub named-same :
    (name : Bytes) (l : List EvspHost) (h : EvspHost)
    → host_named name l ≡ some h
    → same_name h.obu_name name ≡ true
unfolding evsp_host_obu_obj_search evsp_host_obu_obj_update
named-same name [] h found = absurd cc
named-same name (x ∷ xs) h found = ground (arith, found, named-same name xs h)
