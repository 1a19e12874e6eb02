-- ===== src/Driver/Notify.antt =====
-- horovod/runner/elastic/driver.py, _notify_workers_host_changes: which worker is told.
use horovod.Common.{
  Bool, true, false, Option, none, some, List, [], ◌∷◌, ◌&&◌, leb, eqb, if◌then◌else◌, ◌=?◌,
  host_key, rank_key, slot_key,
}
use horovod.Common.Dict.{lookup}
use horovod.Hosts.{SlotInfo}
use horovod.Discovery.{DiscoveredHosts, count_available_slots}
use horovod.DriverService.{Addresses}
use horovod.Driver.{
  Result, ◌>>=◌, HostAssignments, ElasticDriver, driver_assignments, get_coordinator_info,
  get_worker_client, ok,
}

-- SlotInfo is a dataclass, compared field by field.
abbrev pub same_slot : SlotInfo → SlotInfo → Bool
same_slot a b =
    (a.hostname =? b.hostname)
    && eqb a.rank b.rank
    && eqb a.local_rank b.local_rank
    && eqb a.cross_rank b.cross_rank
    && eqb a.size b.size
    && eqb a.local_size b.local_size
    && eqb a.cross_size b.cross_size

unfoldable pub same_slots : List SlotInfo → List SlotInfo → Bool
same_slots [] [] = true
same_slots [] (b ∷ bs) = false
same_slots (a ∷ as') [] = false
same_slots (a ∷ as') (b ∷ bs) = same_slot a b && same_slots as' bs

abbrev pub has_slots : Option (List SlotInfo) → List SlotInfo → Bool
has_slots none slots = false
has_slots (some other) slots = same_slots other slots

unfoldable pub sub_assignments : HostAssignments → HostAssignments → Bool
sub_assignments [] b = true
sub_assignments ((h, slots) ∷ a) b = has_slots (lookup h b) slots && sub_assignments a b

-- next_host_assignments == self.host_assignments
unfoldable pub same_assignments : HostAssignments → HostAssignments → Bool
same_assignments a b = sub_assignments a b && sub_assignments b a

-- The notification that `_notify_workers_host_changes` sends to the coordinator, if any. An error of
-- the assignment leaves the method by an exception.
unfoldable pub next_assignments : ElasticDriver → DiscoveredHosts → Result HostAssignments
next_assignments d current =
    if leb d.min_np (count_available_slots current)
    then (do (assignments, slots) ← driver_assignments d current; ok assignments)
    else ok []

abbrev pub client_of : ElasticDriver → Option SlotInfo → Option Addresses
client_of d none = none
client_of d (some s) = get_worker_client d s

unfoldable pub notify_workers_host_changes :
    ElasticDriver → DiscoveredHosts → Result (Option Addresses)
notify_workers_host_changes d current = do
  next ← next_assignments d current
  ok (
      if same_assignments next d.host_assignments
      then none
      else client_of d (get_coordinator_info d))
