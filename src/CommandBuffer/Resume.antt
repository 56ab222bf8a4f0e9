-- ===== src/CommandBuffer/Resume.antt =====
-- `command_buf_resume_control` (src/traffic_signal_command_buffer.c).
use vips_adaptive_traffi.Common.{
  ℕ, ◌≡◌, ◌≢◌, false, arith, strncmp_eq, bytes_eq, Option-cases, inl, inr,
}
use vips_adaptive_traffi.Signal.{CommandObject, Config, plan_at}
use vips_adaptive_traffi.CommandBuffer.State.{State, object_at, cycle_of, resume_id}
use vips_adaptive_traffi.CommandBuffer.Insert.{
  insert_accept, clamp_command, resume_command, command_buf_insert_effect_time,
  get_app_obj_by_app_id, command_buf_resume_control,
}
use vips_adaptive_traffi.CommandBuffer.Accept.{
  insert_accept_iff, insert_refused_unchanged, MayReplace, free, over_resume, compensation_again,
  own_resume, same_vehicle, larger_change, higher_priority,
}

-- The object of the running subphase holds the command of an application, which is neither the
-- compensation nor a resume.
pub record IsAppCommand (o : CommandObject) : Type 0 where
  pub in_use : o.app_id ≢ 0
  pub not_99 : o.app_id ≢ 99
  pub not_resume : strncmp_eq o.host_obu_name resume_id 7 ≡ false

resume_refused :
    (s : State) (o : CommandObject) (pretime : ℕ)
    → IsAppCommand o
    → ¬ (MayReplace o (clamp_command (resume_command s) s) pretime)
unfolding clamp_command resume_command bytes_eq
resume_refused s o pretime a (free e) = a.in_use e
resume_refused s o pretime a (over_resume e) = cc
resume_refused s o pretime a (compensation_again e f) = cc
resume_refused s o pretime a (own_resume e f) = a.not_99 f
resume_refused s o pretime a (same_vehicle e f g) = cc
resume_refused s o pretime a (larger_change e f g) = cc
resume_refused s o pretime a (higher_priority e f g) = cc

-- An application that ends cannot take back an application's command for the running subphase, one
-- that is in use and is neither a resume nor under the id 99: as the resume has the id 99, it
-- never meets a command of its own application, so that it is not accepted and the state stays as
-- it is, for every application and configuration.
pub resume_keeps_app_command :
    (config : Config) (appid : ℕ) (s : State)
    → IsAppCommand (object_at s.command_buf (cycle_of s 0) s.signal_status.sub_phase_id)
    → ((command_buf_resume_control config appid s).0 ≢ insert_accept)
      × ((command_buf_resume_control config appid s).1 ≡ s)
unfolding command_buf_resume_control resume_command
resume_keeps_app_command config appid s a =
    let no : (command_buf_insert_effect_time (resume_command s) s).0 ≢ insert_accept =
      λ e. resume_refused s o pretime a ((insert_accept_iff (resume_command s) s).0 e).1 in
    let same = (insert_refused_unchanged (resume_command s) s no).0 in
    elim (Option-cases (get_app_obj_by_app_id appid config.app_list)) [
      | inl e ↦ rw (e, command_buf_resume_control) (ground arith)
      | inr (x, e) ↦ rw (e, command_buf_resume_control) (ground (arith, no, same))
    ]
  where
    o : CommandObject
    o = object_at s.command_buf (cycle_of s 0) s.signal_status.sub_phase_id

    pretime : ℕ
    pretime = (plan_at s.signal_status s.signal_status.sub_phase_id).pre_time_compensated
