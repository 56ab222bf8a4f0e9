-- ===== src/CommandBuffer/Sound.antt =====
-- What every operation of src/traffic_signal_command_buffer.c keeps, in any order.
use vips_adaptive_traffi.Common.{
  ℕ, zero, suc, ◌+◌, ◌<◌, ◌≡◌, ◌≢◌, refl, ◌∙◌, ◌⊎◌, inl, inr, List, [], ◌∷◌, map, All, arith,
  get_or-All, set-All, map-All, length-map, to_u8, ℤ, pos, negsuc, Option-cases, Bool-cases,
  strncmp_eq, get_or, length, ◌==◌, Bytes,
}
use vips_adaptive_traffi.Signal.{CommandObject, zero_object, TscCommand, Config, plan_at}
use vips_adaptive_traffi.CommandBuffer.State.{
  State, object_at, set_object, empty_buf, cycle_num, subphaseid_num, command_buf_delete_obu,
  clear_if_host, id_max_len, cycle_of,
}
use vips_adaptive_traffi.CommandBuffer.Slots.{IsShaped, set_object-IsShaped, Buf}
use vips_adaptive_traffi.CommandBuffer.Insert.{
  Verdict, refuse, accept_app_id, accept_obu_name, accept_effect_time, apply_verdict, put_app_id,
  put_obu_name, put_effect_time, first_insert, grant, insert_valid, clamp_command,
  command_buf_insert_effect_time, decide, validate, command_buf_insert_adjustment,
  command_buf_resume_control, adjust_command, resume_command, get_app_obj_by_app_id,
}
use vips_adaptive_traffi.CommandBuffer.Outcome.{insert_valid_written}
use vips_adaptive_traffi.CommandBuffer.Accept.{insert_of_valid, insert_of_invalid}

-- Both times of an object are bytes.
pub record IsByteObject (o : CommandObject) : Type 0 where
  pub effect_byte : o.effect_time < 256
  pub adjusted_byte : o.adjusted_time < 256

-- The array has its shape and holds byte times, and both indices are those of a cycle.
pub record IsSoundBuf (b : Buf) (i j : ℕ) : Type 0 where
  pub shaped : IsShaped b
  pub bytes : All (All IsByteObject) b
  pub index_in : i < cycle_num
  pub prior_in : j < cycle_num

abbrev pub IsSound : State → Type 0
IsSound s = IsSoundBuf s.command_buf s.cycle_index s.prior_cycle_index

zero_object-IsByteObject : IsByteObject zero_object
zero_object-IsByteObject = omega arith

pub object_at-IsByteObject :
    (b : Buf) (c p : ℕ) → All (All IsByteObject) b → IsByteObject (object_at b c p)
object_at-IsByteObject b c zero h = zero_object-IsByteObject
object_at-IsByteObject b c (suc j) h =
    get_or-All IsByteObject (get_or b c []) j zero_object
      (get_or-All (All IsByteObject) b c [] h tt) zero_object-IsByteObject

pub set_object-IsSoundBuf :
    {b : Buf} {i j : ℕ} (c p : ℕ) (o : CommandObject)
    → IsSoundBuf b i j
    → IsByteObject o
    → IsSoundBuf (set_object b c p o) i j
set_object-IsSoundBuf c zero o h k = h
set_object-IsSoundBuf {b} c (suc q) o h k = record {
  shaped = set_object-IsShaped c (suc q) o h.shaped;
  bytes = set-All (All IsByteObject) b c _ h.bytes (
      set-All IsByteObject (get_or b c []) q o (get_or-All (All IsByteObject) b c [] h.bytes tt) k);
  index_in = h.index_in;
  prior_in = h.prior_in;
}

to_u8_lt : (z : ℤ) → to_u8 z < 256
to_u8_lt (pos n) = omega arith
to_u8_lt (negsuc n) = omega arith

apply_verdict-IsByteObject :
    (v : Verdict) (c : TscCommand) (o : CommandObject)
    → IsByteObject o
    → IsByteObject (apply_verdict v c o)
unfolding apply_verdict put_app_id put_obu_name put_effect_time
apply_verdict-IsByteObject refuse c o h = h
apply_verdict-IsByteObject accept_app_id c o h = omega (arith, to_u8_lt c.effect_time, h)
apply_verdict-IsByteObject accept_obu_name c o h = omega (arith, to_u8_lt c.effect_time, h)
apply_verdict-IsByteObject accept_effect_time c o h = omega (arith, to_u8_lt c.effect_time, h)

first_insert-IsByteObject :
    (pretime : ℕ) (o : CommandObject) → IsByteObject o → IsByteObject (first_insert pretime o)
unfolding first_insert
first_insert-IsByteObject pretime o h = ground (arith, h)

grant-IsSound : (c : TscCommand) (s : State) → IsSound s → IsSound (grant c s)
unfolding grant
grant-IsSound c s h = elim (Bool-cases (c.phase == c.target_phase)) [
  | inl e ↦ rw e h
  | inr e ↦ rw e h
]

verdict_cases : (v : Verdict) → (v ≡ refuse) ⊎ (v ≢ refuse)
verdict_cases refuse = inl refl
verdict_cases accept_app_id = inr (λ e. cc)
verdict_cases accept_obu_name = inr (λ e. cc)
verdict_cases accept_effect_time = inr (λ e. cc)

insert_valid-refuse :
    (c : TscCommand) (s : State)
    → decide
        (object_at s.command_buf (cycle_of s c.cycle) c.phase)
        c
        (plan_at s.signal_status c.phase).pre_time_compensated
      ≡ refuse
    → (insert_valid c s).1 ≡ s
unfolding insert_valid
insert_valid-refuse c s e = rw (e, insert_valid) refl

insert_valid-IsSound : (c : TscCommand) (s : State) → IsSound s → IsSound (insert_valid c s).1
insert_valid-IsSound c s h = elim (verdict_cases v) [
  | inl e ↦ rw (insert_valid-refuse c s e) h
  | inr ne ↦ rw (insert_valid_written c s ne) (
      grant-IsSound c _ (
        set_object-IsSoundBuf (cycle_of s c.cycle) c.phase _ h (
          apply_verdict-IsByteObject v c _ (
            first_insert-IsByteObject pretime o
              (object_at-IsByteObject s.command_buf (cycle_of s c.cycle) c.phase h.bytes)))))
]
  where
    o : CommandObject
    o = object_at s.command_buf (cycle_of s c.cycle) c.phase

    pretime : ℕ
    pretime = (plan_at s.signal_status c.phase).pre_time_compensated

    v : Verdict
    v = decide o c pretime

pub insert-IsSound :
    (c : TscCommand) (s : State) → IsSound s → IsSound (command_buf_insert_effect_time c s).1
insert-IsSound c s h = elim (Option-cases (validate c)) [
  | inl e ↦ rw (insert_of_valid c s e) (insert_valid-IsSound (clamp_command c s) s h)
  | inr (k, e) ↦ rw (insert_of_invalid c s k e) h
]

clear_if_host-IsByteObject :
    (name : Bytes) (o : CommandObject) → IsByteObject o → IsByteObject (clear_if_host name o)
clear_if_host-IsByteObject name o h =
    elim (Bool-cases (strncmp_eq o.host_obu_name name (id_max_len + 1))) [
      | inl e ↦ rw e zero_object-IsByteObject
      | inr e ↦ rw e h
    ]

rows_kept :
    (f : CommandObject → CommandObject) (b : Buf)
    → All (λ (row : List CommandObject). length row ≡ subphaseid_num) b
    → All (λ (row : List CommandObject). length row ≡ subphaseid_num) (map (map f) b)
rows_kept f [] h = h
rows_kept f (row ∷ b) h = (length-map f row ∙ h.0, rows_kept f b h.1)

pub delete-IsSound :
    (name : Bytes) (s : State) → IsSound s → IsSound (command_buf_delete_obu name s)
unfolding command_buf_delete_obu
delete-IsSound name s h = record {
  shaped = record {
    cycles = length-map (map (clear_if_host name)) s.command_buf ∙ h.shaped.cycles;
    subphases = rows_kept (clear_if_host name) s.command_buf h.shaped.subphases;
  };
  bytes =
      map-All (All IsByteObject) (map (clear_if_host name))
        (map-All IsByteObject (clear_if_host name) (clear_if_host-IsByteObject name)) s.command_buf
        h.bytes;
  index_in = h.index_in;
  prior_in = h.prior_in;
}

pub empty_buf-IsSoundBuf : {i j : ℕ} → i < cycle_num → j < cycle_num → IsSoundBuf empty_buf i j
empty_buf-IsSoundBuf h k = omega (arith, h, k)

pub adjustment-IsSound :
    (config : Config) (c : TscCommand) (s : State)
    → IsSound s
    → IsSound (command_buf_insert_adjustment config c s).1
unfolding command_buf_insert_adjustment
adjustment-IsSound config c s h = ground (arith, h, insert-IsSound (adjust_command config c s) s h)

pub resume-IsSound :
    (config : Config) (appid : ℕ) (s : State)
    → IsSound s
    → IsSound (command_buf_resume_control config appid s).1
unfolding command_buf_resume_control
resume-IsSound config appid s h =
    let k = insert-IsSound (resume_command s) s h in
    elim (Option-cases (get_app_obj_by_app_id appid config.app_list)) [
      | inl e ↦ rw (e, command_buf_resume_control) h
      | inr (a, e) ↦ elim (Bool-cases (a.dont_send2tc == 1)) [
        | inl d ↦ rw (e, command_buf_resume_control) (rw d h)
        | inr d ↦ rw (e, command_buf_resume_control) (rw d k)
      ]
    ]
