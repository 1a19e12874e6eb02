-- ===== src/Driver/Tests/Running.antt =====
-- The activation and the discovery thread of the elastic driver, at the hosts of the tests.
use horovod.Common.{
  ℕ, String, ◌≡◌, refl, true, false, none, List, [], ◌∷◌, ◌++◌, arith, host_key, rank_key, slot_key,
}
use horovod.Common.Dict.{Dict, keys, contains, lookup, insert, Nodup}
use horovod.Hosts.{SlotInfo}
use horovod.Hosts.Assign.{
  get_host_assignments, fill_hosts, visit_host, take_slots, take_slot, alloc_list, host_slots,
}
use horovod.Discovery.{new_manager}
use horovod.Registry.{new_registry, reset}
use horovod.Driver.{
  ElasticDriver, ok, driver_assignments, host_list, group, active_slots, local_slots, any_common,
  rank_table, pending_slots, pending_of, update_host_assignments,
}
use horovod.Driver.Wait.{Wakeup, activate_workers}
use horovod.Driver.Activate.{activate_workers_first}
use horovod.Discovery.Manager.{IsIteration, IsValid}
use horovod.Driver.Discover.{
  Found, hosts_and_slots, runtime_error, value_error, discover_hosts, discover_hosts_once,
  discovery_error, died,
}
use horovod.Driver.Alive.{IsAlive, discover_hosts-IsAlive}
use horovod.Driver.Tests.{
  two_hosts, manager, created, slots_a, slots_b, running, two_hosts-Nodup, first_wait,
}

abbrev wakeups : List Wakeup
wakeups =
    record { manager = new_manager; shutdown = false; timed_out = false }
    ∷ record { manager = manager; shutdown = false; timed_out = false }
    ∷ []

activate_workers_first_example :
    (p : ElasticDriver × List SlotInfo) × (activate_workers manager created ≡ ok p)
activate_workers_first_example =
    activate_workers_first created 2 1 wakeups manager first_wait (omega arith) (omega arith)
      two_hosts-Nodup refl

abbrev activated : ElasticDriver
activated = record running { registry = reset 3 (new_registry none) }

activate_run : activate_workers manager created ≡ ok (activated, slots_a ++ slots_b)
unfolding activate_workers update_host_assignments driver_assignments host_list group active_slots
    local_slots any_common rank_table pending_slots pending_of get_host_assignments fill_hosts
    visit_host take_slots take_slot alloc_list host_slots lookup insert contains
activate_run = refl

abbrev in_order : List String → List String
in_order xs = xs

abbrev new_hosts : Dict String ℕ
new_hosts = ("a", 2) ∷ ("c", 1) ∷ []

abbrev findings : List Found
findings = hosts_and_slots new_hosts ∷ runtime_error ∷ []

in_order-IsIteration : IsIteration in_order
in_order-IsIteration = record { same_items = λ xs x. refl; once = λ xs nd. nd }

first_found-Nodup : Nodup (keys two_hosts.host_slots)
unfolding contains
first_found-Nodup = (refl, (refl, tt))

findings-Nodup : Nodup (keys new_hosts)
unfolding contains
findings-Nodup = (refl, (refl, tt))

manager-IsValid : IsValid manager
manager-IsValid = record {
  slots_once = first_found-Nodup;
  order_once = two_hosts-Nodup;
  known = λ h e. e;
}

first_failure :
    discover_hosts in_order true (runtime_error ∷ []) created
    ≡ died (record created { shutdown = true })
unfolding discover_hosts discover_hosts_once discovery_error
first_failure = refl

dies_of_value_error : discover_hosts in_order false (value_error ∷ []) created ≡ died created
unfolding discover_hosts discover_hosts_once
dies_of_value_error = refl

discover_hosts-IsAlive_example :
    IsAlive (discover_hosts in_order true (hosts_and_slots two_hosts.host_slots ∷ findings) created)
discover_hosts-IsAlive_example =
    discover_hosts-IsAlive in_order in_order-IsIteration two_hosts.host_slots findings created
      first_found-Nodup (findings-Nodup, (tt, tt))
      (record { manager = manager-IsValid; limits = omega arith })
