-- ===== src/Driver/Wait.antt =====
-- horovod/runner/elastic/driver.py: the wait for slots, and the activation of the workers.
use horovod.Common.{
  ℕ, Bool, List, [], ◌∷◌, length, ◌&&◌, leb, if◌then◌else◌, host_key, rank_key, slot_key,
}
use horovod.Common.Dict.{set_of}
use horovod.Hosts.{SlotInfo}
use horovod.Discovery.{HostManager, count_available_slots, current_hosts}
use horovod.Registry.{reset}
use horovod.Driver.{Result, ◌>>=◌, ElasticDriver, update_host_assignments, ok}

-- The kinds of wake-up of `wait_for_available_slots`: what the manager holds then, whether the job
-- was shut down, and whether the time is up after the wait that follows.
pub record Wakeup : Type 0 where
  pub manager : HostManager
  pub shutdown : Bool
  pub timed_out : Bool

pub data Waited : Type 0 where
  -- the current hosts, which the manager holds too
  enough : HostManager → Waited
  was_shut_down : Waited
  timed_out : Waited
  still_waiting : Waited

unfoldable pub enough_hosts : ℕ → ℕ → HostManager → Bool
enough_hosts min_np min_hosts m =
    leb min_np (count_available_slots (current_hosts m).found)
    && leb min_hosts (length (set_of (current_hosts m).found.host_assignment_order))

unfoldable pub wait_for_available_slots : ℕ → ℕ → List Wakeup → Waited
wait_for_available_slots min_np min_hosts [] = still_waiting
wait_for_available_slots min_np min_hosts (w ∷ ws) =
    let rest = wait_for_available_slots min_np min_hosts ws in
    if enough_hosts min_np min_hosts w.manager
    then enough (current_hosts w.manager)
    else if w.shutdown
    then was_shut_down
    else if w.timed_out
    then timed_out
    else rest

-- `_activate_workers`, once the wait is over: the driver and the slots whose processes are started.
unfoldable pub activate_workers :
    HostManager → ElasticDriver → Result (ElasticDriver × List SlotInfo)
activate_workers m d = do
  (d', pending) ← update_host_assignments (record d { manager = m }) m.found
  ok (record d' { registry = reset d'.world_size d'.registry }, pending)
