-- ===== src/DriverService/Tests.antt =====
-- Runs of the service, and its theorems at a task that moves to another host.
use horovod.Common.{
  ℕ, String, ◌≡◌, refl, true, false, some, [], ◌∷◌, arith, host_key, rank_key, str_iff,
}
use horovod.Common.Dict.{lookup, insert}
use horovod.DriverService.{
  Addresses, BasicDriverService, new_service, RegisterTaskRequest, ok, err, assertion_error,
  find_ip, filter_by_ip, put_in_order, sort, move_index, register_task,
  wait_for_initial_registration, timed_out,
}
use horovod.DriverService.Register.{IsElsewhere, IsConsistent, register_task-IsConsistent}

abbrev addresses : Addresses
addresses = ("lo", ("127.0.0.1", 1) ∷ []) ∷ ("eth0", ("10.0.0.1", 2) ∷ ("10.0.0.2", 3) ∷ []) ∷ []

abbrev request : ℕ → String → RegisterTaskRequest
request index host = record { index = index; task_addresses = addresses; host_hash = host }

abbrev started : BasicDriverService
started = new_service 3

abbrev one_task : BasicDriverService
one_task = record started {
  all_task_addresses = (2, addresses) ∷ [];
  task_addresses_for_driver = (2, ("eth0", ("10.0.0.2", 3) ∷ []) ∷ []) ∷ [];
  task_index_host_hash = (2, "h1") ∷ [];
  task_host_hash_indices = ("h1", 2 ∷ []) ∷ [];
}

first : register_task (request 2 "h1") "10.0.0.2" started ≡ ok one_task
unfolding register_task move_index find_ip filter_by_ip put_in_order sort lookup insert
first = refl

beyond : register_task (request 3 "h1") "10.0.0.2" started ≡ err assertion_error
unfolding register_task
beyond = refl

waited : wait_for_initial_registration ((one_task, false) ∷ (one_task, true) ∷ []) ≡ timed_out
unfolding wait_for_initial_registration
waited = refl

one_task-IsConsistent : IsConsistent one_task
unfolding lookup
one_task-IsConsistent = record { counted = λ i h. ground (arith, str_iff "h1" h) }

two-IsElsewhere : IsElsewhere 2 "h2" one_task
unfolding lookup
two-IsElsewhere = refl

two_known : lookup 2 one_task.task_index_host_hash ≡ some "h1"
unfolding lookup
two_known = refl

register_task-IsConsistent_example :
    (t : BasicDriverService) × (register_task (request 2 "h2") "10.0.0.1" one_task ≡ ok t)
    × IsConsistent t
register_task-IsConsistent_example =
    register_task-IsConsistent (request 2 "h2") "10.0.0.1" one_task (omega arith) two-IsElsewhere
      one_task-IsConsistent
