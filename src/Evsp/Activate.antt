-- ===== src/Evsp/Activate.antt =====
-- The emergency vehicles that adjust the signal together: the list `activate_OBU_head` and its thread
-- (application/EVSP/src/EVSP_subphase_threshold.c). `none` stands for a read through NULL.
use vips_adaptive_traffi.Common.{
  ℕ, zero, suc, ◌+◌, Bool, true, false, not, Option, some, none, List, [], ◌∷◌, ◌++◌, Bytes, take,
  strncmp_eq, length, ◌==◌, if◌then◌else◌, ℤ, pos, negsuc,
}
use vips_adaptive_traffi.Hosts.Evsp.{EvspHost}

-- `EVSP_activate_OBU_t`, as a member of the list.
pub record Member : Type 0 where
  pub host_obu_name : Bytes
  pub control_sub_phase_id : ℕ
  pub target_phase : ℕ

-- The list from `activate_OBU_head` on, of which NULL is `[]`; whether the thread runs; `list_len`;
-- and the thread's own `optim` and `old_list_len`.
pub record Active : Type 0 where
  pub members : List Member
  pub activate_thread : Bool
  pub list_len : ℤ
  pub optim : Bool
  pub old_list_len : ℤ

-- `strncmp(a, b, ID_MAX_LEN + 1) == 0`.
abbrev pub same_id : Bytes → Bytes → Bool
same_id a b = strncmp_eq a b 16

-- The head of `init_activate_OBU_head`.
abbrev pub blank_member : Member
blank_member = record { host_obu_name = []; control_sub_phase_id = 0; target_phase = 0 }

unfoldable pub search_activate_obu : Bytes → List Member → Bool
search_activate_obu name [] = false
search_activate_obu name (m ∷ ms) =
    let rest = search_activate_obu name ms in if same_id m.host_obu_name name then true else rest

abbrev pub new_member : EvspHost → Member
new_member h = record {
  host_obu_name = take 16 h.obu_name;
  control_sub_phase_id = 0;
  target_phase = h.target_phase;
}

-- A head without a name is replaced.
unfoldable pub add_activate_obu : EvspHost → List Member → Option (List Member)
add_activate_obu h [] = none
add_activate_obu h (m ∷ ms) =
    some
      (if length m.host_obu_name == 0 then new_member h ∷ [] else (m ∷ ms) ++ (new_member h ∷ []))

abbrev pub plus_1 : ℤ → ℤ
plus_1 (pos n) = pos (n + 1)
plus_1 (negsuc zero) = pos 0
plus_1 (negsuc (suc n)) = negsuc n

-- The end of EVSP_OBU_activation_timer_start: the vehicle is added, and the first one starts the
-- thread, if `created`.
unfoldable pub add_and_start : Bool → EvspHost → Active → Option (ℤ × Active)
unfolding add_activate_obu
add_and_start created h a = elim (add_activate_obu h a.members) [
  | none ↦ none
  | some ms ↦
      let b = record a { members = ms; list_len = plus_1 a.list_len } in
      if a.activate_thread
      then some (pos 2, b)
      else if created
      then some (pos 1, record b { activate_thread = true; optim = true; old_list_len = pos 0 })
      else some (negsuc 0, b)
]

unfoldable pub evsp_obu_activation_timer_start :
    Bool → Option EvspHost → Active → Option (ℤ × Active)
unfolding add_and_start search_activate_obu
evsp_obu_activation_timer_start created none a = some (negsuc 0, a)
evsp_obu_activation_timer_start created (some h) a =
    if a.activate_thread
    then (elim (a.members) [
      | [] ↦ none
      | (m ∷ ms) ↦
          if not (m.target_phase == h.target_phase)
          then some (negsuc 0, a)
          else if search_activate_obu h.obu_name (m ∷ ms)
          then some (negsuc 0, a)
          else add_and_start created h a
    ])
    else add_and_start created h record a { members = blank_member ∷ [] }

-- The flag for the message signs when a vehicle ends.
unfoldable pub evsp_obu_activation_time_end : Bytes → Active → Option ℕ
evsp_obu_activation_time_end name a = elim (a.members) [
  | [] ↦ none
  | (m ∷ ms) ↦
      let of_head : ℕ = elim ms [ [] ↦ 2 | (n ∷ ns) ↦ 1 ] in
      let flag : ℕ = if same_id name m.host_obu_name then of_head else 0 in
      some (elim (a.list_len) [ pos zero ↦ 2 | pos (suc n) ↦ flag | negsuc n ↦ flag ])
]
