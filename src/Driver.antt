-- ===== src/Driver.antt =====
-- horovod/runner/elastic/driver.py: the driver of an elastic job. Threads, timers and the network
-- are outside: a method that waits is given what it sees at each wake-up, and a method that starts
-- threads or sends a message returns what it starts or sends.
pub mod Wait
pub mod Notify
pub mod Exit
pub mod Groups
pub mod Slots
pub mod Answers
pub mod Pending
pub mod Activate
pub mod World
pub mod Discover
pub mod Alive
mod Tests
use horovod.Common.{
  ℕ, suc, String, Bool, true, false, Option, none, some, List, [], ◌∷◌, ◌++◌, length, get_elem?,
  not, ◌&&◌, ◌||◌, ltb, leb, eqb, if◌then◌else◌, Key, ◌=?◌, host_key, rank_key, slot_key, map,
}
use horovod.Common.Dict.{Dict, keys, contains, set_of, lookup, insert}
use horovod.Hosts.{HostInfo, SlotInfo, HostError}
use horovod.Hosts
use horovod.Hosts.Assign.{get_host_assignments}
use horovod.DriverService.{Addresses}
use horovod.Worker.Client.{new_client}
use horovod.Worker.Update.{HostUpdateResult}
use horovod.Discovery.{
  DiscoveredHosts, HostManager, get_slots, count_available_slots, current_hosts, is_blacklisted,
}
use horovod.Registry.{WorkerStateRegistry, WorkerState, success, failure, Slot, reset}
use horovod.Rendezvous.{Server, init}

pub data DriverError : Type 0 where
  host_error : HostError → DriverError
  no_previous_host : DriverError

pub data Result {ℓ} (A : Type ℓ) : Type ℓ where
  ok : A → Result A
  err : DriverError → Result A

infixl 5 ◌>>=◌
abbrev pub ◌>>=◌ {ℓ κ} : {A : Type ℓ} {B : Type κ} → Result A → (A → Result B) → Result B
ok a >>= f = f a
err e >>= f = err e

abbrev pub HostAssignments : Type 0
HostAssignments = Dict String (List SlotInfo)

-- `worker_clients` has the addresses at which a worker is notified; `results` is the ResultsRecorder's
-- dictionary of exit codes and timestamps.
pub record ElasticDriver : Type 0 where
  pub manager : HostManager
  pub min_np : ℕ
  pub max_np : Option ℕ
  pub host_assignments : HostAssignments
  pub rank_assignments : Dict ℕ SlotInfo
  pub world_size : ℕ
  pub registry : WorkerStateRegistry
  pub rendezvous : Server
  pub worker_clients : Dict Slot Addresses
  pub results : Dict String (ℕ × ℕ)
  pub error_message : Option String
  pub shutdown : Bool

abbrev pub slots_or_nil : Option (List SlotInfo) → List SlotInfo
slots_or_nil none = []
slots_or_nil (some slots) = slots

-- host_assignments[slot_info.hostname].append(slot_info), of a `defaultdict(list)`
unfoldable pub group : List SlotInfo → HostAssignments → HostAssignments
group [] d = d
group (s ∷ slots) d =
    group slots (insert s.hostname (slots_or_nil (lookup s.hostname d) ++ s ∷ []) d)

unfoldable pub host_list : DiscoveredHosts → List String → List HostInfo
host_list d [] = []
host_list d (h ∷ hosts) = record { hostname = h; slots = get_slots d h } ∷ host_list d hosts

-- A ValueError of hosts.get_host_assignments is passed on.
abbrev pub lift : Hosts.Result (List SlotInfo) → Result (HostAssignments × List SlotInfo)
lift (Hosts.ok slots) = ok (group slots [], slots)
lift (Hosts.err e) = err (host_error e)

unfoldable pub driver_assignments :
    ElasticDriver → DiscoveredHosts → Result (HostAssignments × List SlotInfo)
driver_assignments d current =
    lift (get_host_assignments (host_list current current.host_assignment_order) d.min_np d.max_np)

-- {(host, slot_info.local_rank) for slot_info in slots}
unfoldable pub local_slots : String → List SlotInfo → List Slot
local_slots host [] = []
local_slots host (s ∷ slots) = (host, s.local_rank) ∷ local_slots host slots

unfoldable pub active_slots : HostAssignments → List Slot
active_slots [] = []
active_slots ((host, slots) ∷ d) = local_slots host slots ++ active_slots d

-- prev_hosts & next_hosts
unfoldable pub any_common : List String → List String → Bool
any_common [] next = false
any_common (h ∷ prev) next = contains h next || any_common prev next

unfoldable pub rank_table : List SlotInfo → Dict ℕ SlotInfo → Dict ℕ SlotInfo
rank_table [] d = d
rank_table (s ∷ slots) d = rank_table slots (insert s.rank s d)

unfoldable pub pending_of : List Slot → String → List SlotInfo → List SlotInfo
pending_of active host [] = []
pending_of active host (s ∷ slots) =
    let rest = pending_of active host slots in
    if contains (host, s.local_rank) active then rest else s ∷ rest

unfoldable pub pending_slots : List Slot → HostAssignments → List SlotInfo
pending_slots active [] = []
pending_slots active ((host, slots) ∷ d) = pending_of active host slots ++ pending_slots active d

abbrev pub is_nil : HostAssignments → Bool
is_nil [] = true
is_nil (e ∷ d) = false

-- `_update_host_assignments`: the driver and the slots that have to be started.
unfoldable pub update_host_assignments :
    ElasticDriver → DiscoveredHosts → Result (ElasticDriver × List SlotInfo)
update_host_assignments d current = do
  (assignments, slots) ← driver_assignments d current
  let active = active_slots d.host_assignments
  if not (is_nil d.host_assignments)
        && not (any_common (keys d.host_assignments) (keys assignments))
      then err no_previous_host
      else ok (
        record d {
          host_assignments = assignments;
          world_size = length slots;
          rendezvous = init slots d.rendezvous;
          rank_assignments = rank_table slots [];
        },
        pending_slots active assignments,
      )

abbrev pub in_bounds : Option (List SlotInfo) → ℕ → Bool
in_bounds none slot = false
in_bounds (some slots) slot = ltb slot (length slots)

unfoldable pub has_rank_assignment : ElasticDriver → String → ℕ → Bool
has_rank_assignment d host slot =
    if is_blacklisted d.manager host then false else in_bounds (lookup host d.host_assignments) slot

-- The slot, INVALID_SLOT_INFO, or an IndexError.
pub data SlotAnswer : Type 0 where
  found : SlotInfo → SlotAnswer
  invalid : SlotAnswer
  index_error : SlotAnswer

abbrev pub item : Option SlotInfo → SlotAnswer
item none = index_error
item (some s) = found s

unfoldable pub get_slot_info : ElasticDriver → String → ℕ → SlotAnswer
get_slot_info d host slot =
    if has_rank_assignment d host slot
    then item (get_elem? (slots_or_nil (lookup host d.host_assignments)) slot)
    else invalid

unfoldable pub get_coordinator_info : ElasticDriver → Option SlotInfo
get_coordinator_info d = lookup 0 d.rank_assignments

-- `answers` tells which addresses answer the client; `none` is its NoValidAddressesFound.
unfoldable pub register_worker_server :
    (String × ℕ → Bool) → String → ℕ → Addresses → ElasticDriver → Option ElasticDriver
register_worker_server answers host slot addresses d = elim (new_client answers addresses) [
  | none ↦ none
  | some client ↦ some (record d { worker_clients = insert (host, slot) client d.worker_clients })
]

unfoldable pub get_worker_client : ElasticDriver → SlotInfo → Option Addresses
get_worker_client d s = lookup (s.hostname, s.local_rank) d.worker_clients

unfoldable pub stop : Option String → ElasticDriver → ElasticDriver
stop message d = record d { error_message = message; shutdown = true }

-- ResultsRecorder.add_result: the first result of a worker is kept.
abbrev pub add_if_absent :
    String → ℕ × ℕ → Option (ℕ × ℕ) → Dict String (ℕ × ℕ) → Dict String (ℕ × ℕ)
add_if_absent k v none results = insert k v results
add_if_absent k v (some w) results = results

unfoldable pub add_result : String → ℕ × ℕ → ElasticDriver → ElasticDriver
add_result k v d = record d { results = add_if_absent k v (lookup k d.results) d.results }
