-- ===== src/CommandBuffer/State.antt =====
-- The globals of src/traffic_signal_command_buffer.c with the parts of other files that its
-- functions change, and its small operations. The mutexes only make each operation atomic.
use vips_adaptive_traffi.Common.{
  ℕ, zero, suc, ◌+◌, ◌-◌, ◌%◌, Bool, List, [], ◌∷◌, map, Bytes, replicate, get_or, set, all, ltb,
  ◌==◌, if◌then◌else◌, strncmp_eq,
}
use vips_adaptive_traffi.Signal.{SignalStatus, CommandObject, zero_object, CommandArg, VehicleType}
use vips_adaptive_traffi.Serial.Tx.{Tx}

abbrev pub subphaseid_num : ℕ
subphaseid_num = 8

abbrev pub cycle_num : ℕ
cycle_num = 3

abbrev pub id_max_len : ℕ
id_max_len = 15

-- "RESUME"
abbrev pub resume_id : Bytes
resume_id = b'R' ∷ b'E' ∷ b'S' ∷ b'U' ∷ b'M' ∷ b'E' ∷ []

-- "COMPENSATION"
abbrev pub compensation_name : Bytes
compensation_name =
    b'C' ∷ b'O' ∷ b'M' ∷ b'P' ∷ b'E' ∷ b'N' ∷ b'S' ∷ b'A' ∷ b'T' ∷ b'I' ∷ b'O' ∷ b'N' ∷ []

abbrev pub compensation_id : ℕ
compensation_id = 99

-- A call out of the component: a callback with its argument, or the status that
-- src/OBU_record_processing.c gives a vehicle (`OBU_object_granted`).
pub data Call : Type 0 where
  command_tx : ℕ → CommandArg → Call
  granted : Bytes → VehicleType → Call

pub record State : Type 0 where
  pub command_buf : List (List CommandObject)
  pub cycle_index : ℕ
  pub prior_cycle_index : ℕ
  pub prior_sub_phase_id : ℕ
  pub prior_step_id : ℕ
  pub prior_step_sec : ℕ
  pub pretimeflag : Bool
  pub ped_countdown : ℕ
  pub activate_amount : ℕ
  pub compensation_buffer : List ℕ
  pub signal_status : SignalStatus
  pub tx : Tx
  pub calls : List Call

-- `command_buf[c][p - 1]` for a subphase number p. Outside the array C reads and writes other
-- memory; here such a read gives zeros and such a write is lost: `InRange` and `Served` exclude a subphase
-- above 8; for the subphase 0 the poll returns before it reads or writes.
abbrev pub object_at : List (List CommandObject) → ℕ → ℕ → CommandObject
object_at b c zero = zero_object
object_at b c (suc j) = get_or (get_or b c []) j zero_object

abbrev pub set_object :
    List (List CommandObject) → ℕ → ℕ → CommandObject → List (List CommandObject)
set_object b c zero o = b
set_object b c (suc j) o = set b c (set (get_or b c []) j o)

abbrev pub empty_buf : List (List CommandObject)
empty_buf = replicate cycle_num (replicate subphaseid_num zero_object)

-- `clear_index_command_buf`, by subphase number.
abbrev pub clear_index_command_buf : List (List CommandObject) → ℕ → ℕ → List (List CommandObject)
clear_index_command_buf b c p = set_object b c p zero_object

unfoldable pub update_cycle_index : State → State
update_cycle_index s = record s { cycle_index = (s.cycle_index + 1) % cycle_num }

unfoldable pub command_buf_clear : State → State
command_buf_clear s = record s { command_buf = empty_buf }

abbrev pub clear_if_host : Bytes → CommandObject → CommandObject
clear_if_host name o = if strncmp_eq o.host_obu_name name (id_max_len + 1) then zero_object else o

unfoldable pub command_buf_delete_obu : Bytes → State → State
command_buf_delete_obu name s = record s {
  command_buf = map (map (clear_if_host name)) s.command_buf;
  activate_amount = if ltb 0 s.activate_amount then s.activate_amount - 1 else s.activate_amount;
}

-- The object that a command for `cycle` cycles ahead refers to.
abbrev pub cycle_of : State → ℕ → ℕ
cycle_of s cycle = (s.cycle_index + cycle) % cycle_num

unfoldable pub command_buf_search : ℕ → ℕ → State → CommandObject
command_buf_search cycle subphase s = object_at s.command_buf (cycle_of s cycle) subphase

unfoldable pub check_command_buf_empty : State → Bool
check_command_buf_empty s = all (all (λ o. o.app_id == 0)) s.command_buf

-- src/traffic_signal_status_updating.c: `set_control_status`.
unfoldable pub set_control_status : ℕ → State → State
set_control_status c s = record s {
  signal_status = record (s.signal_status) { control_status = c };
}

-- src/traffic_compensation.c: `set_compensation_buffer` and `compensation_buffer_clear`.
unfoldable pub set_compensation_buffer : ℕ → State → State
set_compensation_buffer zero s = s
set_compensation_buffer (suc i) s = record s { compensation_buffer = set s.compensation_buffer i 1 }

unfoldable pub compensation_buffer_clear : State → State
compensation_buffer_clear s = record s { compensation_buffer = replicate subphaseid_num 0 }
