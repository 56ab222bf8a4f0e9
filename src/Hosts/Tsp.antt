-- ===== src/Hosts/Tsp.antt =====
-- application/TSP/src/TSP_OBU_list.c, the timer handler of TSP_timer_event.c, and the cases 4 and 5
-- of the cloud packets in TSP.c: the buses that ask for priority. An object's name is what is left
-- of it in ten bytes; a timer is the seconds that it was set to last. Allocations succeed.
use vips_adaptive_traffi.Common.{
  ℕ, ◌+◌, Bool, Option, some, none, List, Bytes, take, ltb, ◌==◌, if◌then◌else◌, not, ◌&&◌, u32,
  pos,
}
use vips_adaptive_traffi.Signal.{TscCommand, zero_command, Config}
use vips_adaptive_traffi.CommandBuffer.State.{State, command_buf_delete_obu}
use vips_adaptive_traffi.CommandBuffer.Insert.{
  command_buf_insert_adjustment, command_buf_resume_control,
}
use vips_adaptive_traffi.Hosts.ByName.{find, change_or_append, remove}

-- `TSP_host_OBU_obj_t`.
pub record TspHost : Type 0 where
  pub obu_name : Bytes
  pub passenger : ℕ
  pub target_phase : ℕ
  pub distance : ℕ
  pub host_obu_list_timer : ℕ

abbrev pub name_of : TspHost → Bytes
name_of h = h.obu_name

-- The list of hosts, and the command buffer that the functions insert into.
pub record Tsp : Type 0 where
  pub hosts : List TspHost
  pub buffer : State

unfoldable pub tsp_host_obu_obj_new : ℕ → Bytes → ℕ → TspHost
tsp_host_obu_obj_new timeout name target_phase = record {
  obu_name = take 10 name;
  passenger = 0;
  target_phase = target_phase;
  distance = 0;
  host_obu_list_timer = timeout;
}

-- The command that the first insertion builds, but for its cycle and phase.
abbrev pub first_command : Config → Bytes → ℕ → ℕ → ℕ → TscCommand
first_command config name target_phase cycle phase = record zero_command {
  app_id = config.tsp.id;
  app_priority = config.tsp.priority;
  target_phase = target_phase;
  cycle = cycle;
  phase = phase;
  adjustment = pos 1;
  host_obu_name = take 10 name;
}

-- One of the four insertions of `TSP_host_OBU_obj_first_insert`, under its condition.
unfoldable pub insert_if : Bool → Config → TscCommand → State → State
insert_if b config c s = if b then (command_buf_insert_adjustment config c s).1 else s

-- The four conditions, one after the other, on the status that was read at first.
unfoldable pub tsp_host_obu_obj_first_insert : Config → Bytes → ℕ → State → State
tsp_host_obu_obj_first_insert config name target_phase s =
    let current_phase = s.signal_status.sub_phase_id in
    let current_step = s.signal_status.step_id in
    let command = first_command config name target_phase in
    let now =
      insert_if ((target_phase == current_phase) && (current_step == 1)) config
        (command 0 current_phase) s in
    let next =
      insert_if ((target_phase == current_phase) && not (current_step == 1)) config
        (command 1 target_phase) now in
    let later = insert_if (ltb current_phase target_phase) config (command 0 target_phase) next in
    let passed = insert_if (ltb target_phase current_phase) config (command 1 target_phase) later in
    if current_phase == 0 then s else passed

abbrev pub restart : ℕ → TspHost → TspHost
restart timeout h = record h { host_obu_list_timer = timeout }

-- The loop restarts the timer of a host that is there, and else appends one and makes its first
-- insertion.
unfoldable pub tsp_host_obu_obj_insert : Config → ℕ → Bytes → ℕ → Tsp → Tsp
tsp_host_obu_obj_insert config timeout name target_phase t =
    let hosts =
      change_or_append name_of name (restart timeout)
        (tsp_host_obu_obj_new timeout name target_phase) t.hosts in
    elim (find name_of name t.hosts) [
      | some h ↦ record t { hosts = hosts }
      | none ↦ record {
        hosts = hosts;
        buffer = tsp_host_obu_obj_first_insert config name target_phase t.buffer;
      }
    ]

unfoldable pub tsp_host_obu_obj_search : Bytes → Tsp → Option TspHost
tsp_host_obu_obj_search name t = find name_of name t.hosts

-- Also what `TSP_host_OBU_list_timeout_timer_handler` does for its host's name.
unfoldable pub tsp_host_obu_obj_delete : Bytes → Tsp → Tsp
tsp_host_obu_obj_delete name t = record t { hosts = remove name_of name t.hosts }

-- Case 5: the bus has left.
unfoldable pub tsp_cloud_delete : Config → Bytes → Tsp → Tsp
tsp_cloud_delete config name t =
    let left = tsp_host_obu_obj_delete name t in
    record left {
      buffer =
          (command_buf_resume_control config config.tsp.id
            (command_buf_delete_obu name left.buffer)).1;
    }

-- Case 4: a bus arrives; it is counted if the application may send.
unfoldable pub tsp_cloud_insert : Config → ℕ → Bytes → ℕ → Tsp → Tsp
tsp_cloud_insert config timeout name target_phase t =
    let there = tsp_host_obu_obj_insert config timeout name target_phase t in
    if config.tsp.dont_send2tc == 0
    then record there {
      buffer = record (there.buffer) { activate_amount = u32 (there.buffer.activate_amount + 1) };
    }
    else there
