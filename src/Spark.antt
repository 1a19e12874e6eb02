-- ===== src/Spark.antt =====
-- horovod/spark/driver/driver_service.py, horovod/spark/driver/host_discovery.py and the order of the
-- hosts in horovod/spark/runner.py: the driver of a job that runs in Spark tasks.
pub mod Ranks
pub mod Shift
pub mod Interfaces
mod Tests
use horovod.Common.{
  ℕ, zero, suc, String, Bool, true, false, not, Option, none, some, List, [], ◌∷◌, ◌++◌, length,
  get_elem?, ltb, eqb, if◌then◌else◌, Key, ◌=?◌, host_key, rank_key,
}
use horovod.Common.Dict.{Dict, keys, contains, lookup, insert, erase}
use horovod.DriverService.{
  Addresses, BasicDriverService, new_service, Result, ok, err, key_error, index_error, ◌>>=◌, item,
}

pub record SparkDriverService : Type 0 where
  pub basic : BasicDriverService
  pub initial_np : ℕ
  pub nics : Option (List String)
  pub ranks_to_indices : Dict ℕ ℕ
  pub spark_job_failed : Bool
  pub task_shutdown : Bool

abbrev pub new_spark_service : ℕ → ℕ → Option (List String) → SparkDriverService
new_spark_service initial_np num_proc nics = record {
  basic = new_service num_proc;
  initial_np = initial_np;
  nics = nics;
  ranks_to_indices = [];
  spark_job_failed = false;
  task_shutdown = false;
}

abbrev pub at_index : Option ℕ → Result ℕ
at_index none = err index_error
at_index (some i) = ok i

-- The first rank with the index.
unfoldable pub rank_of : ℕ → Dict ℕ ℕ → Option ℕ
rank_of index [] = none
rank_of index ((rank, i) ∷ d) = if eqb i index then some rank else rank_of index d

abbrev pub without : Option ℕ → Dict ℕ ℕ → Dict ℕ ℕ
without none d = d
without (some rank) d = erase rank d

-- The handler of SetLocalRankToRankRequest: the service, and the index that is answered.
unfoldable pub set_local_rank_to_rank :
    String → ℕ → ℕ → SparkDriverService → Result (SparkDriverService × ℕ)
set_local_rank_to_rank host local_rank rank s = do
  indices ← item (lookup host s.basic.task_host_hash_indices)
  index ← at_index (get_elem? indices local_rank)
  ok (
    record s {
      ranks_to_indices =
          insert rank index (without (rank_of index s.ranks_to_indices) s.ranks_to_indices);
    },
    index,
  )

unfoldable pub task_index_by_rank : ℕ → SparkDriverService → Result ℕ
task_index_by_rank rank s = item (lookup rank s.ranks_to_indices)

unfoldable pub set_ranks_to_indices : Dict ℕ ℕ → SparkDriverService → SparkDriverService
set_ranks_to_indices ranks s = record s { ranks_to_indices = ranks }

unfoldable pub notify_spark_job_failed : SparkDriverService → SparkDriverService
notify_spark_job_failed s = record s { spark_job_failed = true }

unfoldable pub shutdown_tasks : SparkDriverService → SparkDriverService
shutdown_tasks s = record s { task_shutdown = true }

-- What the waiting loop sees at each wake-up, and whether the time is up after the wait.
pub data Waited : Type 0 where
  registered job_failed timed_out still_waiting : Waited

unfoldable pub wait_for_initial_registration : List (SparkDriverService × Bool) → Waited
wait_for_initial_registration [] = still_waiting
wait_for_initial_registration ((s, late) ∷ later) =
    let rest = wait_for_initial_registration later in
    if ltb (length s.basic.all_task_addresses) s.initial_np
    then (if s.spark_job_failed then job_failed else if late then timed_out else rest)
    else registered

-- nics.intersection_update(…)
unfoldable pub intersect : List String → List String → List String
intersect [] names = []
intersect (n ∷ nics) names =
    let rest = intersect nics names in if contains n names then n ∷ rest else rest

unfoldable pub intersect_all : List String → Dict ℕ Addresses → List String
intersect_all nics [] = nics
intersect_all nics ((index, addresses) ∷ tasks) =
    intersect_all (intersect nics (keys addresses)) tasks

unfoldable pub task_interfaces : Dict ℕ Addresses → List String
task_interfaces [] = []
task_interfaces ((index, addresses) ∷ tasks) = intersect_all (keys addresses) tasks

abbrev pub some_interfaces : List String → Option (List String)
some_interfaces [] = none
some_interfaces (n ∷ nics) = some (n ∷ nics)

abbrev pub interfaces_of : Option (List String) → Dict ℕ Addresses → Option (List String)
interfaces_of (some nics) tasks = some nics
interfaces_of none tasks = some_interfaces (task_interfaces tasks)

-- `none` is the exception of no common interface.
unfoldable pub get_common_interfaces : SparkDriverService → Option (List String)
get_common_interfaces s = interfaces_of s.nics s.basic.task_addresses_for_tasks

-- SparkDriverHostDiscovery: the hosts with tasks, and how many.
unfoldable pub find_available_hosts_and_slots : Dict String (List ℕ) → Dict String ℕ
find_available_hosts_and_slots [] = []
find_available_hosts_and_slots ((host, indices) ∷ d) =
    let rest = find_available_hosts_and_slots d in
    if eqb (length indices) 0 then rest else (host, length indices) ∷ rest

-- The loop of `run` that shifts the sorted hosts until the first has the index 0. An empty list is an
-- IndexError, a host that is not in the map a KeyError.
pub data Shifted : Type 0 where
  shifted : List String → Shifted
  raised : Shifted
  no_fuel : Shifted

abbrev pub shift_by : Option (List ℕ) → List String → Shifted → Shifted
shift_by none hosts rest = raised
shift_by (some indices) hosts rest = if contains 0 indices then shifted hosts else rest

unfoldable pub barrel_shift : ℕ → Dict String (List ℕ) → List String → Shifted
barrel_shift fuel indices [] = raised
barrel_shift zero indices (h ∷ hosts) = no_fuel
barrel_shift (suc fuel) indices (h ∷ hosts) =
    let rest = barrel_shift fuel indices (hosts ++ h ∷ []) in
    shift_by (lookup h indices) (h ∷ hosts) rest
