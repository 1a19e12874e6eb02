-- ===== src/Spark/Interfaces.antt =====
-- horovod/spark/driver/driver_service.py, get_common_interfaces.
use horovod.Common.{
  ℕ, String, ◌≡◌, refl, ◌∙◌, Bool, true, false, ◌&&◌, none, List, [], ◌∷◌, arith, host_key, str_iff,
}
use horovod.Common.Dict.{Dict, keys, contains}
use horovod.DriverService.{Addresses}
use horovod.Spark.{
  SparkDriverService, intersect, intersect_all, task_interfaces, some_interfaces,
  get_common_interfaces,
}

abbrev pub in_each : String → Dict ℕ Addresses → Bool
in_each n [] = true
in_each n ((i, a) ∷ tasks) = contains n (keys a) && in_each n tasks

-- There is a task, and each has the interface.
abbrev pub in_all : String → Dict ℕ Addresses → Bool
in_all n [] = false
in_all n (t ∷ tasks) = in_each n (t ∷ tasks)

contains-intersect :
    (n : String) (nics names : List String)
    → contains n (intersect nics names) ≡ (contains n nics && contains n names)
unfolding intersect contains
contains-intersect n [] names = refl
contains-intersect n (m ∷ nics) names = ground (arith, contains-intersect n nics names, str_iff m n)

contains-intersect_all :
    (n : String) (nics : List String) (tasks : Dict ℕ Addresses)
    → contains n (intersect_all nics tasks) ≡ (contains n nics && in_each n tasks)
unfolding intersect_all
contains-intersect_all n nics [] = ground arith
contains-intersect_all n nics ((i, a) ∷ tasks) =
    contains-intersect_all n (intersect nics (keys a)) tasks
    ∙ ground (arith, contains-intersect n nics (keys a))

contains-task_interfaces :
    (n : String) (tasks : Dict ℕ Addresses) → contains n (task_interfaces tasks) ≡ in_all n tasks
unfolding task_interfaces contains
contains-task_interfaces n [] = refl
contains-task_interfaces n ((i, a) ∷ tasks) = contains-intersect_all n (keys a) tasks

-- When no interfaces were given, the answer is an interface list that has exactly the names that all
-- registered tasks have, and the exception where there is none.
pub get_common_interfaces_all :
    (s : SparkDriverService)
    → s.nics ≡ none
    → (nics : List String) × (get_common_interfaces s ≡ some_interfaces nics)
      × ((n : String) → contains n nics ≡ in_all n s.basic.task_addresses_for_tasks)
unfolding get_common_interfaces
get_common_interfaces_all s e =
    let tasks = s.basic.task_addresses_for_tasks in
    (task_interfaces tasks, rw e refl, λ n. contains-task_interfaces n tasks)
