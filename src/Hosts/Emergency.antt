-- ===== src/Hosts/Emergency.antt =====
-- The emergency vehicles that the unit serves: the end of their service, and the time after it.
use vips_adaptive_traffi.Common.{
  ℕ, suc, ◌+◌, ◌≡◌, ◌≢◌, refl, ap, false, not, ◌&&◌, Option, some, none, List, [], ◌∷◌, Bytes, take,
  ltb, ◌==◌, ==_refl, arith, Bool-cases, inl, inr,
}
use vips_adaptive_traffi.Hosts.ByName.{same_name, remove}
use vips_adaptive_traffi.Hosts.Links.{
  Links, init_list_head, list_add_tail, list_del, nodes_from, nodes_of,
}
use vips_adaptive_traffi.Hosts.Evsp.{
  EvspHost, EvspConfig, name_of, delete_walk, delete_found, rejoin, evsp_host_obu_obj_delete,
  CoolingInfo, CoolingList, cooling_loop, evsp_cooling_list_insert, evsp_cooling_list_search,
}

-- The deletion of the first object of the name, from a list that is not empty.
abbrev pub remove_from : Bytes → List EvspHost → Option (List EvspHost)
remove_from name [] = none
remove_from name (h ∷ hs) = some (remove name_of name (h ∷ hs))

delete_walk-behind :
    (name : Bytes) (b : EvspHost) (bs l : List EvspHost)
    → delete_found (delete_walk name (b ∷ bs) l).0 (delete_walk name (b ∷ bs) l).1
      ≡ some (rejoin (b ∷ bs) (remove name_of name l))
unfolding delete_walk delete_found rejoin remove
delete_walk-behind name b bs [] = refl
delete_walk-behind name b bs (h ∷ hs) = elim (Bool-cases (same_name h.obu_name name)) [
  | inl e ↦ rw e refl
  | inr e ↦ rw e (delete_walk-behind name h (b ∷ bs) hs)
]

-- The deletion of an emergency vehicle takes the first one of the name out of the list and keeps the
-- others in order, as that of a bus does, whether it stands first, behind or not at all; but on an
-- empty list it reads through a NULL.
pub evsp_host_obu_obj_delete-remove :
    (name : Bytes) (l : List EvspHost) → evsp_host_obu_obj_delete name l ≡ remove_from name l
unfolding evsp_host_obu_obj_delete delete_walk delete_found rejoin remove
evsp_host_obu_obj_delete-remove name [] = refl
evsp_host_obu_obj_delete-remove name (h ∷ hs) = elim (Bool-cases (same_name h.obu_name name)) [
  | inl e ↦ rw e refl
  | inr e ↦ rw e (delete_walk-behind name h [] hs)
]

head_next :
    (node now : ℕ) (name : Bytes) (area : ℕ) (c : CoolingList)
    → (evsp_cooling_list_insert node now name area c).links.next 0 ≡ node
unfolding evsp_cooling_list_insert list_add_tail init_list_head
head_next node now name area c = refl

node_next :
    (node now : ℕ) (name : Bytes) (area : ℕ) (c : CoolingList)
    → node ≢ 0
    → (evsp_cooling_list_insert node now name area c).links.next node ≡ 0
unfolding evsp_cooling_list_insert list_add_tail init_list_head
node_next node now name area c h = ground (arith, h)

nodes_of_one :
    (fuel node : ℕ) (l : Links)
    → l.next 0 ≡ node
    → l.next node ≡ 0
    → node ≢ 0
    → nodes_of (suc (suc fuel)) l 0 ≡ some (node ∷ [])
unfolding nodes_from
nodes_of_one fuel node l e f h =
    let differs : (node == 0) ≡ false = ground (arith, h) in
    rw e (rw (nodes_from, differs) (rw f (ap (λ n. some (n ∷ [])) e)))

-- Behind the insertion the list is the new node alone.
nodes-cooling :
    (fuel node now : ℕ) (name : Bytes) (area : ℕ) (c : CoolingList)
    → node ≢ 0
    → nodes_of (suc (suc fuel)) (evsp_cooling_list_insert node now name area c).links 0
      ≡ some (node ∷ [])
nodes-cooling fuel node now name area c h =
    nodes_of_one fuel node (evsp_cooling_list_insert node now name area c).links
      (head_next node now name area c) (node_next node now name area c h) h

new_info :
    (node now : ℕ) (name : Bytes) (area : ℕ) (c : CoolingList)
    → (evsp_cooling_list_insert node now name area c).info node
      ≡ record { obu_name = take 10 name; touching_area_id = area; terminate_time = now }
unfolding evsp_cooling_list_insert
new_info node now name area c = rw (==_refl node) refl

loop_one :
    (later : ℕ) (e : EvspConfig) (other : Bytes) (at node : ℕ) (i : CoolingInfo) (c : CoolingList)
    → c.info node ≡ i
    → (c' : CoolingList) × (cooling_loop e later other at (node ∷ []) false c ≡ (
      not (ltb (i.terminate_time + e.cooling_time) later)
          && (same_name i.obu_name other && (i.touching_area_id == at)),
      c',
    ))
unfolding cooling_loop
loop_one later e other at node i c same =
    elim (Bool-cases (ltb (i.terminate_time + e.cooling_time) later)) [
      | inl old ↦ (record c { links = list_del node c.links }, rw same (rw old refl))
      | inr old ↦ elim (Bool-cases (same_name i.obu_name other && (i.touching_area_id == at))) [
        | inl m ↦ (c, rw same (rw old (rw m refl)))
        | inr m ↦ (c, rw same (rw old (rw m refl)))
      ]
    ]

-- The cooling list knows only the vehicle that came last: behind an insertion, whatever the list was,
-- a search finds a vehicle exactly if it is that one, at that area, within the cooling time.
pub evsp_cooling_list_search-insert :
    (fuel node now later : ℕ) (e : EvspConfig) (name other : Bytes) (area at : ℕ) (c : CoolingList)
    → node ≢ 0
    → (c' : CoolingList) × (evsp_cooling_list_search
          (suc (suc fuel))
          e
          later
          other
          at
          (evsp_cooling_list_insert node now name area c)
        ≡ some (
          not (ltb (now + e.cooling_time) later)
              && (same_name (take 10 name) other && (area == at)),
          c',
        ))
unfolding evsp_cooling_list_search
evsp_cooling_list_search-insert fuel node now later e name other area at c h =
    let inserted = evsp_cooling_list_insert node now name area c in
    let one =
      loop_one later e other at node
        record { obu_name = take 10 name; touching_area_id = area; terminate_time = now } inserted
        (new_info node now name area c) in
    (
      one.0,
      rw (evsp_cooling_list_search, nodes-cooling fuel node now name area c h) (ap some one.1),
    )
