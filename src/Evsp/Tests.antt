-- ===== src/Evsp/Tests.antt =====
-- Two ambulances at the sample crossing.
use vips_adaptive_traffi.Common.{
  List, ℕ, ◌+◌, ◌-◌, ◌/◌, ◌≡◌, refl, true, false, some, [], ◌∷◌, Bytes, ltb, pos, ◌-ℤ◌, ◌+ℤ◌,
  bytes_eq, arith,
}
use vips_adaptive_traffi.Signal.{AppObj, vehicle_ambulance}
use vips_adaptive_traffi.CommandBuffer.Sample.{sample_status, idle_state, sample_config}
use vips_adaptive_traffi.Hosts.Evsp.{
  EvspHost, EvspConfig, CoolingList, evsp_cooling_list_search, cooling_loop,
  evsp_host_obu_obj_search, evsp_host_obu_obj_update,
}
use vips_adaptive_traffi.Evsp.Adjust.{Arrival, seek, first_found, evsp_optimization}
use vips_adaptive_traffi.Evsp.Answer.{Answers, evsp_optimization-Answers}
use vips_adaptive_traffi.Evsp.Activate.{Member, Active, search_activate_obu}
use vips_adaptive_traffi.Evsp.Round.{drop_ended}
use vips_adaptive_traffi.Evsp.Team.{Team}
use vips_adaptive_traffi.Evsp.Running.{IsActive, Started, evsp_obu_activation_timer_start-IsActive}
use vips_adaptive_traffi.Evsp.Sound.{Ticks, activation_round-IsActive}
use vips_adaptive_traffi.Hosts.Links.{nodes_from}
use vips_adaptive_traffi.Evsp.Receive.{VehiclePacket, Service}
use vips_adaptive_traffi.Evsp.Progress.{IsTouch, IsTouched, receive}
use vips_adaptive_traffi.Evsp.Threshold.{receive-IsTouched}

-- An arrival in `time` whole seconds.
abbrev whole_seconds : ℕ → Arrival
whole_seconds time = record {
  arrives_before = λ n. ltb time n;
  arrives_after = λ n. ltb n time;
  arrives_later = λ k n. ltb (n + k) time;
  shorten_by = λ n k. pos ((n - time + (k - 1)) / k);
  extend_by = λ n k. pos ((time - n + (k - 1)) / k);
}

-- The subphases of the plan table.
abbrev table_ids : List ℕ
table_ids = 1 ∷ 2 ∷ 3 ∷ 4 ∷ 5 ∷ 6 ∷ 7 ∷ 8 ∷ []

evsp_optimization-Answers_example :
    Answers
      (whole_seconds 60)
      table_ids
      3
      sample_status
      (evsp_optimization (whole_seconds 60) table_ids 3 sample_status)
      (seek 10 (whole_seconds 60) 3 sample_status 0 (first_found sample_status))
evsp_optimization-Answers_example =
    evsp_optimization-Answers (whole_seconds 60) table_ids 3 sample_status (λ n k late. omega arith)
      record {
        running_some = omega arith;
        running_in = omega arith;
        few = omega arith;
        plans_there = refl;
        target_some = omega arith;
        target_in = omega arith;
        table_there = omega arith;
        ids_in = refl;
      }

-- The running subphase lasts 33 seconds yet and the two others 40 each: the third is on in 73 seconds.
evsp_optimization_of_3 : evsp_optimization (whole_seconds 60) table_ids 3 sample_status ≡ pos 23
unfolding evsp_optimization ◌-ℤ◌ ◌+ℤ◌
evsp_optimization_of_3 = refl

abbrev ambulance : Bytes → EvspHost
ambulance name = record {
  obu_name = name;
  target_phase = 3;
  distance = 200;
  host_obu_packet_timer = 5;
  host_obu_list_timer = 60;
  touching_area_id = 1;
  lon = 0;
  lat = 0;
  speed = 0;
  direction = 0;
  touched_amount = 3;
  is_activate = 2;
  vehicle_type = vehicle_ambulance;
}

abbrev member : Bytes → Member
member name = record { host_obu_name = name; control_sub_phase_id = 1; target_phase = 3 }

-- The ambulances `a` and `b` are members.
abbrev two_members : Active
two_members = record {
  members = member (b'a' ∷ []) ∷ member (b'b' ∷ []) ∷ [];
  activate_thread = true;
  list_len = pos 2;
  optim = false;
  old_list_len = pos 2;
}

two_members-Team : Team two_members.members
unfolding Team search_activate_obu bytes_eq
two_members-Team = (((refl, omega arith), ((refl, omega arith), tt)), (refl, (refl, tt)))

two_members-IsActive : IsActive two_members
two_members-IsActive = record { running = λ e. (two_members-Team, refl); stopped = λ e. cc }

evsp_obu_activation_timer_start-IsActive_example : Started (ambulance (b'c' ∷ [])) two_members
evsp_obu_activation_timer_start-IsActive_example =
    evsp_obu_activation_timer_start-IsActive (ambulance (b'c' ∷ [])) two_members (omega arith)
      two_members-IsActive

abbrev evsp : AppObj
evsp = record { id = 1; priority = 1; dont_send2tc = 0 }

-- The ambulance `a` has ended.
activation_round-IsActive_example :
    Ticks evsp
      (λ h. whole_seconds 60)
      (some table_ids)
      sample_status
      (ambulance (b'b' ∷ []) ∷ [])
      two_members
      idle_state
unfolding drop_ended evsp_host_obu_obj_search bytes_eq evsp_host_obu_obj_update
activation_round-IsActive_example =
    activation_round-IsActive evsp (λ h. whole_seconds 60) (some table_ids) sample_status
      (ambulance (b'b' ∷ []) ∷ []) two_members idle_state two_members-IsActive refl
      ((ambulance (b'b' ∷ []), refl), tt)

abbrev evsp_config : EvspConfig
evsp_config = record {
  evsp_host_obu_packet_timeout = 10;
  evsp_host_obu_list_timeout = 120;
  cooling_time = 30;
}

-- The ambulance `d` in an area of the third subphase.
abbrev message : VehiclePacket
message = record {
  obu_name = b'd' ∷ [];
  distance = 150;
  info = record {
    lat = 0;
    lon = 0;
    speed = 0;
    direction = 2;
    is_touching = 0;
    is_activate = 0;
    vehicle_type = vehicle_ambulance;
  };
  junk = 0;
  created = true;
  node = 1;
  now = 100;
  fuel = 3;
  plan_found = true;
  touch = some (3, 1);
  leaves = λ a. false;
}

message-IsTouch : IsTouch message
message-IsTouch = record {
  planned = refl;
  phase = 3;
  area = 1;
  touches = refl;
  in_phase = refl;
  stays = λ a. refl;
  unset = refl;
  creates = refl;
}

abbrev no_cooling : CoolingList
no_cooling = record {
  links = record { next = λ n. n; prev = λ n. n };
  info = λ n. record { obu_name = []; touching_area_id = 0; terminate_time = 0 };
}

abbrev two_in_service : Service
two_in_service = record {
  evsp = record {
    hosts = ambulance (b'a' ∷ []) ∷ ambulance (b'b' ∷ []) ∷ [];
    cooling = no_cooling;
    buffer = idle_state;
  };
  active = two_members;
}

-- The threshold is 3.
receive-IsTouched_example :
    (t' : Service) × (receive
        (sample_config 1)
        evsp_config
        3
        (message ∷ message ∷ message ∷ [])
        two_in_service
      ≡ some t')
    × IsTouched 3 (b'd' ∷ []) 3 t'
unfolding evsp_host_obu_obj_search bytes_eq evsp_cooling_list_search nodes_from cooling_loop
receive-IsTouched_example =
    receive-IsTouched (sample_config 1) evsp_config 3 message (message ∷ message ∷ [])
      two_in_service no_cooling message-IsTouch
      ((refl, message-IsTouch), ((refl, message-IsTouch), tt)) (omega arith) (omega arith) refl
      two_members-IsActive refl refl
