-- ===== src/Hosts/Tests.antt =====
-- A bus that arrives at the sample crossing, and an ambulance that has left it.
use vips_adaptive_traffi.Common.{
  suc, ◌+◌, ◌≡◌, refl, not, ◌&&◌, some, none, [], ◌∷◌, Bytes, take, ltb, ◌==◌, if◌then◌else◌, arith,
}
use vips_adaptive_traffi.CommandBuffer.Insert.{command_buf_insert_adjustment}
use vips_adaptive_traffi.CommandBuffer.Sample.{idle_state, sample_config}
use vips_adaptive_traffi.Hosts.ByName.{same_name, changed}
use vips_adaptive_traffi.Hosts.Tsp.{
  Tsp, name_of, tsp_host_obu_obj_new, first_command, restart, tsp_host_obu_obj_first_insert,
  tsp_host_obu_obj_search, tsp_cloud_insert, tsp_cloud_delete,
}
use vips_adaptive_traffi.Hosts.Bus.{
  next_cycle, tsp_host_obu_obj_first_insert-once, BusReachable, bus_start, bus_next, arrives,
  hosts-refine,
}
use vips_adaptive_traffi.Hosts.Evsp.{
  EvspConfig, CoolingList, evsp_host_obu_obj_delete, evsp_cooling_list_insert,
  evsp_cooling_list_search,
}
use vips_adaptive_traffi.Hosts.Emergency.{
  remove_from, evsp_host_obu_obj_delete-remove, evsp_cooling_list_search-insert,
}

abbrev bus_7 : Bytes
bus_7 = b'b' ∷ b'u' ∷ b's' ∷ b'_' ∷ b'7' ∷ []

abbrev bus_8 : Bytes
bus_8 = b'b' ∷ b'u' ∷ b's' ∷ b'_' ∷ b'8' ∷ []

tsp_host_obu_obj_first_insert-once_example :
    tsp_host_obu_obj_first_insert (sample_config 1) bus_7 3 idle_state ≡ (
      if 1 == 0
      then idle_state
      else (command_buf_insert_adjustment
          (sample_config 1)
          (first_command (sample_config 1) bus_7 3 (next_cycle 1 1 3) 3)
          idle_state).1)
tsp_host_obu_obj_first_insert-once_example =
    tsp_host_obu_obj_first_insert-once (sample_config 1) bus_7 3 idle_state

abbrev no_bus : Tsp
no_bus = record { hosts = []; buffer = idle_state }

abbrev one_bus : Tsp
one_bus = tsp_cloud_insert (sample_config 1) 60 bus_7 3 no_bus

one_bus-BusReachable : BusReachable (sample_config 1) 60 one_bus
one_bus-BusReachable = bus_next (bus_start refl refl refl refl) (arrives bus_7 3)

hosts-refine_example :
    (tsp_host_obu_obj_search bus_7 (tsp_cloud_insert (sample_config 1) 60 bus_8 2 one_bus) ≡ (
      if same_name bus_8 bus_7
      then some (
          changed name_of
            (restart 60)
            (tsp_host_obu_obj_new 60 bus_8 2)
            (tsp_host_obu_obj_search bus_8 one_bus))
      else tsp_host_obu_obj_search bus_7 one_bus))
    × (tsp_host_obu_obj_search bus_7 (tsp_cloud_delete (sample_config 1) bus_8 one_bus)
        ≡ (if same_name bus_8 bus_7 then none else tsp_host_obu_obj_search bus_7 one_bus))
hosts-refine_example = hosts-refine (sample_config 1) 60 one_bus bus_8 bus_7 2 one_bus-BusReachable

evsp_host_obu_obj_delete-remove_example : evsp_host_obu_obj_delete bus_7 [] ≡ remove_from bus_7 []
evsp_host_obu_obj_delete-remove_example = evsp_host_obu_obj_delete-remove bus_7 []

abbrev evsp_config : EvspConfig
evsp_config = record {
  evsp_host_obu_packet_timeout = 10;
  evsp_host_obu_list_timeout = 120;
  cooling_time = 30;
}

-- The ambulance that is node 1 has just left; the one that is node 2 comes next.
abbrev cooling : CoolingList
cooling = evsp_cooling_list_insert 1 100 bus_7 4 record {
  links = record { next = λ n. n; prev = λ n. n };
  info = λ n. record { obu_name = []; touching_area_id = 0; terminate_time = 0 };
}

evsp_cooling_list_search-insert_example :
    (c' : CoolingList) × (evsp_cooling_list_search
        (suc (suc 5))
        evsp_config
        102
        bus_7
        4
        (evsp_cooling_list_insert 2 101 bus_8 4 cooling)
      ≡ some (
        not (ltb (101 + evsp_config.cooling_time) 102)
            && (same_name (take 10 bus_8) bus_7 && (4 == 4)),
        c',
      ))
evsp_cooling_list_search-insert_example =
    evsp_cooling_list_search-insert 5 2 101 102 evsp_config bus_8 bus_7 4 4 cooling (omega arith)
