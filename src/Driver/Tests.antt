-- ===== src/Driver/Tests.antt =====
-- Runs of the elastic driver, and its theorems at two hosts, of which one is replaced.
mod Running
use horovod.Common.{
  ℕ, ◌≤◌, String, ◌≡◌, ◌≢◌, refl, true, false, Option, none, some, List, [], ◌∷◌, ◌++◌, not, ◌&&◌,
  eqb, length, arith, host_key, rank_key, slot_key,
}
use horovod.Common.Dict.{Dict, keys, contains, lookup, insert, set_of, Nodup}
use horovod.Hosts.{SlotInfo, not_enough_slots}
use horovod.Hosts.Assign.{
  get_host_assignments, fill_hosts, visit_host, take_slots, take_slot, alloc_list, host_slots,
}
use horovod.Hosts.Columns.{Within}
use horovod.Discovery.{
  DiscoveredHosts, HostManager, new_manager, current_hosts, keep_allowed, is_blacklisted,
}
use horovod.Registry.{new_registry, reset, failure}
use horovod.Rendezvous.{new_server, init}
use horovod.DriverService.{Addresses}
use horovod.Worker.Client.{new_client, probe, answering}
use horovod.Driver.{
  ElasticDriver, ok, err, host_error, driver_assignments, host_list, group, active_slots,
  local_slots, any_common, rank_table, pending_slots, pending_of, update_host_assignments,
  has_rank_assignment, get_slot_info, get_coordinator_info, found, invalid, add_result, stop,
  register_worker_server, get_worker_client,
}
use horovod.Driver.Wait.{Wakeup, enough, enough_hosts, wait_for_available_slots, activate_workers}
use horovod.Driver.Notify.{
  notify_workers_host_changes, next_assignments, same_assignments, sub_assignments, same_slots,
}
use horovod.Driver.Exit.{exit_state, exit_result}
use horovod.Driver.Answers.{
  IsAnswerFor, get_slot_info-update_host_assignments, rank_assignments_full,
}
use horovod.Driver.Pending.{slot_keys, pending-update_host_assignments}
use horovod.Driver.Activate.{activate_workers_first}
use horovod.Driver.World.{notify_workers_host_changes_total}
use horovod.Discovery.Manager.{IsIteration, IsValid}
use horovod.Driver.Discover.{
  Found, hosts_and_slots, runtime_error, discover_hosts, discover_hosts_once, discovery_error,
  looks_on, died,
}
use horovod.Driver.Alive.{IsAlive, discover_hosts-IsAlive}

abbrev two_hosts : DiscoveredHosts
two_hosts = record { host_slots = ("a", 2) ∷ ("b", 1) ∷ []; host_assignment_order = "a" ∷ "b" ∷ [] }

abbrev later_hosts : DiscoveredHosts
later_hosts = record {
  host_slots = ("b", 2) ∷ ("c", 1) ∷ [];
  host_assignment_order = "b" ∷ "c" ∷ [];
}

abbrev manager : HostManager
manager = record { found = two_hosts; states = [] }

abbrev created : ElasticDriver
created = record {
  manager = manager;
  min_np = 2;
  max_np = some 3;
  host_assignments = [];
  rank_assignments = [];
  world_size = 0;
  registry = new_registry none;
  rendezvous = new_server;
  worker_clients = [];
  results = [];
  error_message = none;
  shutdown = false;
}

abbrev slot : String → ℕ → ℕ → ℕ → ℕ → ℕ → SlotInfo
slot host rank local_rank cross_rank local_size cross_size = record {
  hostname = host;
  rank = rank;
  local_rank = local_rank;
  cross_rank = cross_rank;
  size = 3;
  local_size = local_size;
  cross_size = cross_size;
}

abbrev slots_a : List SlotInfo
slots_a = slot "a" 0 0 0 2 2 ∷ slot "a" 1 1 0 2 1 ∷ []

abbrev slots_b : List SlotInfo
slots_b = slot "b" 2 0 1 1 2 ∷ []

abbrev running : ElasticDriver
running = record created {
  host_assignments = ("a", slots_a) ∷ ("b", slots_b) ∷ [];
  rank_assignments =
      (0, slot "a" 0 0 0 2 2) ∷ (1, slot "a" 1 1 0 2 1) ∷ (2, slot "b" 2 0 1 1 2) ∷ [];
  world_size = 3;
  rendezvous = init (slots_a ++ slots_b) new_server;
}

two_hosts-Nodup : Nodup two_hosts.host_assignment_order
unfolding contains
two_hosts-Nodup = (refl, (refl, tt))

later_hosts-Nodup : Nodup later_hosts.host_assignment_order
unfolding contains
later_hosts-Nodup = (refl, (refl, tt))

first_update : update_host_assignments created two_hosts ≡ ok (running, slots_a ++ slots_b)
unfolding update_host_assignments driver_assignments host_list group active_slots local_slots
    any_common rank_table pending_slots pending_of get_host_assignments fill_hosts visit_host
    take_slots take_slot alloc_list host_slots lookup insert contains
first_update = refl

later_run :
    (r : ElasticDriver) × (update_host_assignments running later_hosts
      ≡ ok (r, slot "b" 1 1 0 2 1 ∷ slot "c" 2 0 1 1 2 ∷ []))
unfolding update_host_assignments driver_assignments host_list group active_slots local_slots
    any_common rank_table pending_slots pending_of get_host_assignments fill_hosts visit_host
    take_slots take_slot alloc_list host_slots lookup insert contains
later_run = (_, refl)

first_wait :
    wait_for_available_slots 2 1 (
      record { manager = new_manager; shutdown = false; timed_out = false }
      ∷ record { manager = manager; shutdown = false; timed_out = false }
      ∷ [])
    ≡ enough manager
unfolding wait_for_available_slots enough_hosts current_hosts keep_allowed lookup set_of contains
first_wait = refl

too_late :
    wait_for_available_slots 2 1
      (record { manager = new_manager; shutdown = true; timed_out = false } ∷ [])
    ≢ enough manager
unfolding wait_for_available_slots enough_hosts current_hosts keep_allowed lookup set_of contains
too_late e = cc

asked : get_slot_info running "a" 1 ≡ found (slot "a" 1 1 0 2 1)
unfolding get_slot_info has_rank_assignment is_blacklisted lookup
asked = refl

asked_too_much : get_slot_info running "a" 2 ≡ invalid
unfolding get_slot_info has_rank_assignment is_blacklisted lookup
asked_too_much = refl

exited : exit_state running "b" 0 1 ≡ some failure
unfolding exit_state has_rank_assignment is_blacklisted lookup
exited = refl

first_result_kept :
    (exit_result "b[0]" (0, 9) 0 (add_result "b[0]" (1, 5) (stop none running))).results
    ≡ ("b[0]", (1, 5)) ∷ []
unfolding exit_result add_result stop lookup insert
first_result_kept = refl

abbrev addresses : Addresses
addresses = ("eth0", ("10.0.0.7", 4000) ∷ []) ∷ []

abbrev with_client : ElasticDriver
with_client = record running { worker_clients = (("a", 0), addresses) ∷ [] }

registered :
    register_worker_server
      (λ addr. eqb addr.1 4000)
      "a"
      0
      (("lo", ("127.0.0.1", 4001) ∷ []) ∷ addresses)
      running
    ≡ some with_client
unfolding register_worker_server new_client probe answering insert
registered = refl

no_answer : register_worker_server (λ addr. false) "a" 0 addresses running ≡ none
unfolding register_worker_server new_client probe answering
no_answer = refl

notified : notify_workers_host_changes with_client later_hosts ≡ ok (some addresses)
unfolding notify_workers_host_changes next_assignments driver_assignments host_list group
    same_assignments sub_assignments same_slots get_worker_client get_coordinator_info
    get_host_assignments fill_hosts visit_host take_slots take_slot alloc_list host_slots lookup
    insert contains
notified = refl

not_notified : notify_workers_host_changes with_client two_hosts ≡ ok none
unfolding notify_workers_host_changes next_assignments driver_assignments host_list group
    same_assignments sub_assignments same_slots get_worker_client get_coordinator_info
    get_host_assignments fill_hosts visit_host take_slots take_slot alloc_list host_slots lookup
    insert contains
not_notified = refl

get_slot_info-update_host_assignments_example : IsAnswerFor "b" 0 3 (get_slot_info running "b" 0)
get_slot_info-update_host_assignments_example =
    get_slot_info-update_host_assignments created two_hosts running (slots_a ++ slots_b) "b" 0
      two_hosts-Nodup first_update

white_b : is_blacklisted manager "b" ≡ false
unfolding is_blacklisted lookup
white_b = refl

rank_two : lookup 2 running.rank_assignments ≡ some (slot "b" 2 0 1 1 2)
unfolding lookup
rank_two = refl

pending-update_host_assignments_example :
    contains ("b", 1) (slot_keys (slot "b" 1 1 0 2 1 ∷ slot "c" 2 0 1 1 2 ∷ [])) ≡ (
      contains ("b", 1) (active_slots later_run.0.host_assignments)
      && not (contains ("b", 1) (active_slots running.host_assignments)))
pending-update_host_assignments_example =
    pending-update_host_assignments running later_hosts later_run.0
      (slot "b" 1 1 0 2 1 ∷ slot "c" 2 0 1 1 2 ∷ []) ("b", 1) later_run.1
