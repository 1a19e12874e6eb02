-- ===== src/Spark/Tests.antt =====
-- Runs of the services of a Spark job, and their theorems at three tasks on two hosts.
use horovod.Common.{
  ℕ, String, ◌≡◌, refl, true, false, none, some, List, [], ◌∷◌, ◌++◌, arith, host_key, rank_key,
  All,
}
use horovod.Common.Dict.{Dict, lookup, insert, erase, contains, Nodup}
use horovod.DriverService.{BasicDriverService, ok, err, index_error, new_service}
use horovod.Spark.{
  SparkDriverService, new_spark_service, rank_of, set_local_rank_to_rank, intersect, intersect_all,
  task_interfaces, some_interfaces, get_common_interfaces, find_available_hosts_and_slots, shifted,
  raised, barrel_shift, wait_for_initial_registration, job_failed, notify_spark_job_failed,
}
use horovod.Spark.Ranks.{values, IsRankSet, set_local_rank_to_rank-IsRankSet}
use horovod.Spark.Interfaces.{in_all, get_common_interfaces_all}
use horovod.Spark.Shift.{has_zero, is_known, barrel_shift-shifted}

abbrev hosts_indices : Dict String (List ℕ)
hosts_indices = ("h1", 1 ∷ []) ∷ ("h2", 0 ∷ 2 ∷ []) ∷ ("h3", []) ∷ []

abbrev tasks : BasicDriverService
tasks = record (new_service 3) {
  task_host_hash_indices = hosts_indices;
  task_addresses_for_tasks =
      (0, ("lo", []) ∷ ("eth0", []) ∷ []) ∷ (2, ("eth0", []) ∷ ("ib0", []) ∷ []) ∷ [];
}

abbrev service : SparkDriverService
service = record (new_spark_service 3 3 none) {
  basic = tasks;
  ranks_to_indices = (0, 1) ∷ (1, 2) ∷ [];
}

moved :
    set_local_rank_to_rank "h2" 1 2 service
    ≡ ok (record service { ranks_to_indices = (0, 1) ∷ (2, 2) ∷ [] }, 2)
unfolding set_local_rank_to_rank rank_of erase insert lookup
moved = refl

no_such_task : set_local_rank_to_rank "h2" 2 2 service ≡ err index_error
unfolding set_local_rank_to_rank lookup
no_such_task = refl

common : get_common_interfaces service ≡ some ("eth0" ∷ [])
unfolding get_common_interfaces task_interfaces intersect_all intersect contains
common = refl

slots : find_available_hosts_and_slots hosts_indices ≡ ("h1", 1) ∷ ("h2", 2) ∷ []
unfolding find_available_hosts_and_slots
slots = refl

failed : wait_for_initial_registration ((notify_spark_job_failed service, false) ∷ []) ≡ job_failed
unfolding wait_for_initial_registration notify_spark_job_failed
failed = refl

nobody_has_zero : barrel_shift 5 (("h1", 1 ∷ []) ∷ []) ("h1" ∷ "h4" ∷ []) ≡ raised
unfolding barrel_shift lookup contains
nobody_has_zero = refl

service-Nodup : Nodup (values service.ranks_to_indices)
unfolding contains
service-Nodup = (refl, (refl, tt))

set_local_rank_to_rank-IsRankSet_example :
    IsRankSet "h2" 1 2 service (set_local_rank_to_rank "h2" 1 2 service)
set_local_rank_to_rank-IsRankSet_example =
    set_local_rank_to_rank-IsRankSet "h2" 1 2 service service-Nodup

get_common_interfaces_all_example :
    (nics : List String) × (get_common_interfaces service ≡ some_interfaces nics)
    × ((n : String) → contains n nics ≡ in_all n service.basic.task_addresses_for_tasks)
get_common_interfaces_all_example = get_common_interfaces_all service refl

h1_known : All (λ x. is_known (lookup x hosts_indices) ≡ true) ("h1" ∷ [])
unfolding lookup
h1_known = (refl, tt)

h1_without : All (λ x. has_zero (lookup x hosts_indices) ≡ false) ("h1" ∷ [])
unfolding lookup contains
h1_without = (refl, tt)

h2_zero : has_zero (lookup "h2" hosts_indices) ≡ true
unfolding lookup contains
h2_zero = refl

barrel_shift-shifted_example :
    barrel_shift 2 hosts_indices (("h1" ∷ []) ++ "h2" ∷ "h3" ∷ [])
    ≡ shifted (("h2" ∷ "h3" ∷ []) ++ "h1" ∷ [])
barrel_shift-shifted_example =
    barrel_shift-shifted 2 hosts_indices ("h1" ∷ []) ("h3" ∷ []) "h2" (omega arith) h1_known
      h1_without h2_zero
