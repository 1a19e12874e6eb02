-- ===== src/DriverService.antt =====
-- horovod/runner/common/service/driver_service.py: the service with which the tasks of a job
-- register. The condition variable makes each method one step.
pub mod Counts
pub mod Register
mod Tests
use horovod.Common.{
  ℕ, zero, suc, String, Bool, true, false, not, Option, none, some, List, [], ◌∷◌, ◌++◌, length,
  ltb, leb, eqb, if◌then◌else◌, Key, ◌=?◌, host_key, rank_key,
}
use horovod.Common.Dict.{Dict, keys, contains, lookup, insert}

-- A map of interfaces to lists of addresses and ports.
abbrev pub Addresses : Type 0
Addresses = Dict String (List (String × ℕ))

pub record BasicDriverService : Type 0 where
  pub num_proc : ℕ
  pub all_task_addresses : Dict ℕ Addresses
  pub task_addresses_for_driver : Dict ℕ Addresses
  pub task_addresses_for_tasks : Dict ℕ Addresses
  pub task_index_host_hash : Dict ℕ String
  pub task_host_hash_indices : Dict String (List ℕ)

abbrev pub new_service : ℕ → BasicDriverService
new_service num_proc = record {
  num_proc = num_proc;
  all_task_addresses = [];
  task_addresses_for_driver = [];
  task_addresses_for_tasks = [];
  task_index_host_hash = [];
  task_host_hash_indices = [];
}

pub data TaskError : Type 0 where
  assertion_error key_error value_error index_error : TaskError

pub data Result {ℓ} (A : Type ℓ) : Type ℓ where
  ok : A → Result A
  err : TaskError → Result A

infixl 5 ◌>>=◌
abbrev pub ◌>>=◌ {ℓ κ} : {A : Type ℓ} {B : Type κ} → Result A → (A → Result B) → Result B
ok a >>= f = f a
err e >>= f = err e

-- d[k]
abbrev pub item {ℓ} : {A : Type ℓ} → Option A → Result A
item none = err key_error
item (some a) = ok a

-- The first pair of an interface with the address.
unfoldable pub find_ip : String → List (String × ℕ) → Option (String × ℕ)
find_ip target [] = none
find_ip target ((ip, port) ∷ pairs) = if ip =? target then some (ip, port) else find_ip target pairs

unfoldable pub filter_by_ip : Addresses → String → Addresses
filter_by_ip [] target = []
filter_by_ip ((intf, pairs) ∷ addresses) target =
    let rest = filter_by_ip addresses target in
    elim (find_ip target pairs) [ none ↦ rest | some pair ↦ (intf, pair ∷ []) ∷ [] ]

-- list.remove: the first occurrence, or a ValueError.
unfoldable pub remove : ℕ → List ℕ → Result (List ℕ)
remove i [] = err value_error
remove i (j ∷ js) =
    let rest = remove i js in if eqb j i then ok js else (rest >>= λ ks. ok (j ∷ ks))

-- list.sort, by insertion
unfoldable pub put_in_order : ℕ → List ℕ → List ℕ
put_in_order i [] = i ∷ []
put_in_order i (j ∷ js) = let rest = put_in_order i js in if leb i j then i ∷ j ∷ js else j ∷ rest

unfoldable pub sort : List ℕ → List ℕ
sort [] = []
sort (i ∷ is) = put_in_order i (sort is)

pub record RegisterTaskRequest : Type 0 where
  pub index : ℕ
  pub task_addresses : Addresses
  pub host_hash : String

abbrev pub indices_or_nil : Option (List ℕ) → List ℕ
indices_or_nil none = []
indices_or_nil (some is) = is

-- The index leaves the list of another host under which it was registered before.
abbrev pub leave : ℕ → String → Option String → Dict String (List ℕ) → Result (Dict String (List ℕ))
leave index host_hash none indices = ok indices
leave index host_hash (some earlier) indices = if earlier =? host_hash then ok indices else (do
  old ← item (lookup earlier indices)
  new ← remove index old
  ok (insert earlier new indices))

unfoldable pub move_index : ℕ → String → BasicDriverService → Result (Dict String (List ℕ))
move_index index host_hash s = do
  left ← leave index host_hash (lookup index s.task_index_host_hash) s.task_host_hash_indices
  ok (insert host_hash (sort (indices_or_nil (lookup host_hash left) ++ index ∷ [])) left)

-- The service with the request written down.
abbrev pub with_task :
    RegisterTaskRequest → String → Dict String (List ℕ) → BasicDriverService → BasicDriverService
with_task req client indices s = record s {
  all_task_addresses = insert req.index req.task_addresses s.all_task_addresses;
  task_addresses_for_driver =
      insert req.index (filter_by_ip req.task_addresses client) s.task_addresses_for_driver;
  task_index_host_hash = insert req.index req.host_hash s.task_index_host_hash;
  task_host_hash_indices = indices;
}

-- The handler of RegisterTaskRequest; what an exception leaves of the service is not described.
unfoldable pub register_task :
    RegisterTaskRequest → String → BasicDriverService → Result BasicDriverService
register_task req client s =
    if ltb req.index s.num_proc
    then (do indices ← move_index req.index req.host_hash s; ok (with_task req client indices s))
    else err assertion_error

unfoldable pub register_task_to_task_addresses :
    ℕ → Addresses → BasicDriverService → Result BasicDriverService
register_task_to_task_addresses index addresses s =
    if ltb index s.num_proc
    then ok
        (record s { task_addresses_for_tasks = insert index addresses s.task_addresses_for_tasks })
    else err assertion_error

unfoldable pub all_task_addresses : ℕ → BasicDriverService → Result Addresses
all_task_addresses index s = item (lookup index s.all_task_addresses)

unfoldable pub task_addresses_for_driver : ℕ → BasicDriverService → Result Addresses
task_addresses_for_driver index s = item (lookup index s.task_addresses_for_driver)

unfoldable pub task_addresses_for_tasks : ℕ → BasicDriverService → Result Addresses
task_addresses_for_tasks index s = item (lookup index s.task_addresses_for_tasks)

unfoldable pub task_indices : BasicDriverService → List ℕ
task_indices s = keys s.task_index_host_hash

unfoldable pub task_index_host_hash : ℕ → BasicDriverService → Result String
task_index_host_hash index s =
    if ltb index s.num_proc then item (lookup index s.task_index_host_hash) else err assertion_error

-- What the waiting loops see at each wake-up, and whether the time is up after the wait.
pub data Waited : Type 0 where
  registered timed_out still_waiting : Waited

unfoldable pub wait_for_initial_registration : List (BasicDriverService × Bool) → Waited
wait_for_initial_registration [] = still_waiting
wait_for_initial_registration ((s, late) ∷ later) =
    let rest = wait_for_initial_registration later in
    if ltb (length s.all_task_addresses) s.num_proc
    then (if late then timed_out else rest)
    else registered

unfoldable pub wait_for_task_to_task_address_updates : List (BasicDriverService × Bool) → Waited
wait_for_task_to_task_address_updates [] = still_waiting
wait_for_task_to_task_address_updates ((s, late) ∷ later) =
    let rest = wait_for_task_to_task_address_updates later in
    if ltb (length s.task_addresses_for_tasks) s.num_proc
    then (if late then timed_out else rest)
    else registered
