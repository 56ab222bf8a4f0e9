-- ===== src/Hosts/Bus.antt =====
-- The buses that the unit serves: which command their arrival makes, and who is known.
use vips_adaptive_traffi.Common.{
  ℕ, ◌≡◌, refl, true, ◌&&◌, ◌||◌, some, none, [], Bytes, bytes_eq, take-take, bytes_eq_refl, take,
  ltb, ◌==◌, if◌then◌else◌, arith, Bool-cases, Option-cases, inl, inr,
}
use vips_adaptive_traffi.Signal.{Config}
use vips_adaptive_traffi.CommandBuffer.State.{State, empty_buf, command_buf_delete_obu}
use vips_adaptive_traffi.CommandBuffer.Insert.{command_buf_insert_adjustment}
use vips_adaptive_traffi.CommandBuffer.Sound.{
  IsSound, adjustment-IsSound, resume-IsSound, delete-IsSound, empty_buf-IsSoundBuf,
}
use vips_adaptive_traffi.CommandBuffer.Reach.{Step, Step-IsSound}
use vips_adaptive_traffi.Hosts.ByName.{
  same_name, find, change_or_append, Unique, changed, find-change_or_append, find-remove,
  change_or_append-Unique, remove-Unique,
}
use vips_adaptive_traffi.Hosts.Tsp.{
  Tsp, name_of, tsp_host_obu_obj_new, first_command, insert_if, restart,
  tsp_host_obu_obj_first_insert, tsp_host_obu_obj_insert, tsp_host_obu_obj_search,
  tsp_host_obu_obj_delete, tsp_cloud_insert, tsp_cloud_delete,
}

-- The cycle of the next green of a phase: this one if its green is to come or is running in step 1.
abbrev pub next_cycle : ℕ → ℕ → ℕ → ℕ
next_cycle current step target =
    if ltb current target || ((target == current) && (step == 1)) then 0 else 1

-- A bus that arrives makes one command: an adjustment by one second of the next green of its phase,
-- in this cycle if that phase is to come or is in its step 1, and in the next cycle else. There is
-- no command while the controller reports the phase 0.
pub tsp_host_obu_obj_first_insert-once :
    (config : Config) (name : Bytes) (target : ℕ) (s : State)
    → tsp_host_obu_obj_first_insert config name target s ≡ (
        if s.signal_status.sub_phase_id == 0
        then s
        else (command_buf_insert_adjustment config
            (first_command config name target
              (next_cycle s.signal_status.sub_phase_id s.signal_status.step_id target)
              target)
            s).1)
unfolding tsp_host_obu_obj_first_insert insert_if
tsp_host_obu_obj_first_insert-once config name target s = ground arith

first_insert-IsSound :
    (config : Config) (name : Bytes) (target : ℕ) (s : State)
    → IsSound s
    → IsSound (tsp_host_obu_obj_first_insert config name target s)
first_insert-IsSound config name target s h =
    rw (tsp_host_obu_obj_first_insert-once config name target s)
      (elim (Bool-cases (s.signal_status.sub_phase_id == 0)) [
        | inl e ↦ rw e h
        | inr e ↦ rw e (
            adjustment-IsSound config
              (first_command config name target
                (next_cycle s.signal_status.sub_phase_id s.signal_status.step_id target) target)
              s h)
      ])

-- Every bus is known once, and the buffer is sound.
pub record IsSoundTsp (t : Tsp) : Type 0 where
  pub hosts_unique : Unique name_of t.hosts
  pub buffer_sound : IsSound t.buffer

module _ (config : Config) (timeout : ℕ) where
  -- The cloud reports a bus or its end, a bus times out, or the buffer is used elsewhere.
  pub data BusStep : Tsp → Tsp → Type 0 where
    arrives :
        {t : Tsp} (name : Bytes) (target : ℕ)
        → BusStep t (tsp_cloud_insert config timeout name target t)
    leaves : {t : Tsp} (name : Bytes) → BusStep t (tsp_cloud_delete config name t)
    times_out : {t : Tsp} (name : Bytes) → BusStep t (tsp_host_obu_obj_delete name t)
    elsewhere : {t : Tsp} {s : State} → Step config t.buffer s → BusStep t (record t { buffer = s })

  pub data BusReachable : Tsp → Type 0 where
    bus_start :
        {t : Tsp}
        → t.hosts ≡ []
        → t.buffer.command_buf ≡ empty_buf
        → t.buffer.cycle_index ≡ 0
        → t.buffer.prior_cycle_index ≡ 0
        → BusReachable t
    bus_next : {t t' : Tsp} → BusReachable t → BusStep t t' → BusReachable t'

  insert-hosts :
      (name : Bytes) (target : ℕ) (t : Tsp)
      → (tsp_host_obu_obj_insert config timeout name target t).hosts
        ≡ change_or_append name_of name
            (restart timeout)
            (tsp_host_obu_obj_new timeout name target)
            t.hosts
  unfolding tsp_host_obu_obj_insert
  insert-hosts name target t = elim (Option-cases (find name_of name t.hosts)) [
    | inl e ↦ rw (tsp_host_obu_obj_insert, e) refl
    | inr (o, e) ↦ rw (tsp_host_obu_obj_insert, e) refl
  ]

  insert-buffer :
      (name : Bytes) (target : ℕ) (t : Tsp)
      → IsSound t.buffer
      → IsSound (tsp_host_obu_obj_insert config timeout name target t).buffer
  unfolding tsp_host_obu_obj_insert
  insert-buffer name target t h = elim (Option-cases (find name_of name t.hosts)) [
    | inl e ↦ rw (tsp_host_obu_obj_insert, e) (first_insert-IsSound config name target t.buffer h)
    | inr (o, e) ↦ rw (tsp_host_obu_obj_insert, e) h
  ]

  cloud-hosts :
      (name : Bytes) (target : ℕ) (t : Tsp)
      → (tsp_cloud_insert config timeout name target t).hosts
        ≡ (tsp_host_obu_obj_insert config timeout name target t).hosts
  unfolding tsp_cloud_insert
  cloud-hosts name target t = ground arith

  new-named :
      (name : Bytes) (target : ℕ)
      → bytes_eq (take 10 (tsp_host_obu_obj_new timeout name target).obu_name) (take 10 name) ≡ true
  unfolding tsp_host_obu_obj_new
  new-named name target = rw (take-take 10 name) (bytes_eq_refl (take 10 name))

  hosts-Unique :
      (name : Bytes) (target : ℕ) (t : Tsp)
      → Unique name_of t.hosts
      → Unique name_of (tsp_host_obu_obj_insert config timeout name target t).hosts
  hosts-Unique name target t h = rw (insert-hosts name target t) (
      change_or_append-Unique name_of name (restart timeout)
        (tsp_host_obu_obj_new timeout name target) (λ x. refl) (new-named name target) t.hosts h)

  cloud_insert-IsSoundTsp :
      (name : Bytes) (target : ℕ) (t : Tsp)
      → IsSoundTsp t
      → IsSoundTsp (tsp_cloud_insert config timeout name target t)
  unfolding tsp_cloud_insert
  cloud_insert-IsSoundTsp name target t h =
      let hosts = hosts-Unique name target t h.hosts_unique in
      let buffer = insert-buffer name target t h.buffer_sound in
      elim (Bool-cases (config.tsp.dont_send2tc == 0)) [
        | inl e ↦ rw (tsp_cloud_insert, e) record { hosts_unique = hosts; buffer_sound = buffer }
        | inr e ↦ rw (tsp_cloud_insert, e) record { hosts_unique = hosts; buffer_sound = buffer }
      ]

  BusStep-IsSoundTsp : {t t' : Tsp} → BusStep t t' → IsSoundTsp t → IsSoundTsp t'
  unfolding tsp_cloud_delete tsp_host_obu_obj_delete
  BusStep-IsSoundTsp (arrives {t} name target) h = cloud_insert-IsSoundTsp name target t h
  BusStep-IsSoundTsp (leaves {t} name) h = record {
    hosts_unique = remove-Unique name_of name t.hosts h.hosts_unique;
    buffer_sound =
        resume-IsSound config config.tsp.id (command_buf_delete_obu name t.buffer)
          (delete-IsSound name t.buffer h.buffer_sound);
  }
  BusStep-IsSoundTsp (times_out {t} name) h = record {
    hosts_unique = remove-Unique name_of name t.hosts h.hosts_unique;
    buffer_sound = h.buffer_sound;
  }
  BusStep-IsSoundTsp (elsewhere st) h = record {
    hosts_unique = h.hosts_unique;
    buffer_sound = Step-IsSound config st h.buffer_sound;
  }

  BusReachable-IsSoundTsp : {t : Tsp} → BusReachable t → IsSoundTsp t
  unfolding Unique
  BusReachable-IsSoundTsp (bus_start e f g k) = record {
    hosts_unique = rw e tt;
    buffer_sound = rw (f, g, k) (empty_buf-IsSoundBuf (omega arith) (omega arith));
  }
  BusReachable-IsSoundTsp (bus_next r st) = BusStep-IsSoundTsp st (BusReachable-IsSoundTsp r)

  -- The list of buses is a map: in every reachable state a bus that arrives is known then, with its
  -- timer started again and its old phase if it was known before, one that leaves is unknown then, and
  -- every other bus is as known as before. Names are compared by ten characters.
  pub hosts-refine :
      (t : Tsp) (name m : Bytes) (target : ℕ)
      → BusReachable t
      → (tsp_host_obu_obj_search m (tsp_cloud_insert config timeout name target t) ≡ (
          if same_name name m
          then some (
              changed name_of
                (restart timeout)
                (tsp_host_obu_obj_new timeout name target)
                (tsp_host_obu_obj_search name t))
          else tsp_host_obu_obj_search m t))
        × (tsp_host_obu_obj_search m (tsp_cloud_delete config name t)
            ≡ (if same_name name m then none else tsp_host_obu_obj_search m t))
  unfolding tsp_host_obu_obj_search tsp_cloud_delete tsp_host_obu_obj_delete
  hosts-refine t name m target r = (
    rw (cloud-hosts name target t, insert-hosts name target t)
        (find-change_or_append name_of name m (restart timeout)
          (tsp_host_obu_obj_new timeout name target) (λ x. refl) (new-named name target) t.hosts),
    find-remove name_of name m t.hosts (BusReachable-IsSoundTsp r).hosts_unique,
  )
