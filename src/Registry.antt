-- ===== src/Registry.antt =====
-- horovod/runner/elastic/registration.py: the states that workers report, the barrier at which the
-- reporting threads meet, and what is decided when all have met.
-- `threading.Barrier` is modelled by its parties and its waiting threads.
pub mod Decide
pub mod States
pub mod Failures
pub mod Report
pub mod Rejoin
pub mod Once
pub mod Race
mod Tests
use horovod.Common.{
  ℕ, suc, ◌+◌, String, Bool, true, false, Option, none, some, List, [], ◌∷◌, ◌++◌, length, not,
  ◌&&◌, ◌||◌, leb, eqb, if◌then◌else◌, Key, slot_key,
}
use horovod.Common.Dict.{Dict, keys, contains, lookup, insert}
use horovod.Discovery.{HostManager, blacklist, is_blacklisted}

pub data WorkerState : Type 0 where
  ready success failure : WorkerState

abbrev pub Slot : Type 0
Slot = String × ℕ

-- A thread in `_wait`, with the rendezvous id that it will return.
pub record Waiter : Type 0 where
  pub slot : Slot
  pub state : WorkerState
  pub rendezvous_id : ℕ

pub record Barrier : Type 0 where
  pub parties : ℕ
  pub waiting : List Waiter

-- `_workers` is a set for each state.
pub record Workers : Type 0 where
  pub ready : List Slot
  pub success : List Slot
  pub failure : List Slot

pub record WorkerStateRegistry : Type 0 where
  pub reset_limit : Option ℕ
  pub reset_count : ℕ
  pub states : Dict Slot WorkerState
  pub workers : Workers
  pub barrier : Option Barrier
  pub rendezvous_id : ℕ
  pub size : ℕ

abbrev pub no_workers : Workers
no_workers = record { ready = []; success = []; failure = [] }

abbrev pub new_registry : Option ℕ → WorkerStateRegistry
new_registry reset_limit = record {
  reset_limit = reset_limit;
  reset_count = 0;
  states = [];
  workers = no_workers;
  barrier = none;
  rendezvous_id = 0;
  size = 0;
}

abbrev pub get : Workers → WorkerState → List Slot
get w ready = w.ready
get w success = w.success
get w failure = w.failure

abbrev pub add : Slot → List Slot → List Slot
add k set = if contains k set then set else k ∷ set

-- self._workers[state].add(key)
abbrev pub add_worker : Slot → WorkerState → Workers → Workers
add_worker k ready w = record w { ready = add k w.ready }
add_worker k success w = record w { success = add k w.success }
add_worker k failure w = record w { failure = add k w.failure }

unfoldable pub reset : ℕ → WorkerStateRegistry → WorkerStateRegistry
reset size r = record r {
  states = [];
  workers = no_workers;
  barrier = some (record { parties = size; waiting = [] });
  rendezvous_id = suc r.rendezvous_id;
  size = size;
}

abbrev pub same_state : WorkerState → WorkerState → Bool
same_state ready ready = true
same_state success success = true
same_state failure failure = true
same_state ready _ = false
same_state success _ = false
same_state failure _ = false

abbrev pub is_some : Option WorkerState → Bool
is_some none = false
is_some (some s) = true

-- self._barrier.reset(): the waiting threads leave with BrokenBarrierError.
abbrev pub empty_barrier : Option Barrier → Option Barrier
empty_barrier none = none
empty_barrier (some b) = some (record b { waiting = [] })

abbrev pub waiting_at : Option Barrier → List Waiter
waiting_at none = []
waiting_at (some b) = b.waiting

-- self._states[key] = state; self._workers[state].add(key)
abbrev pub store : Slot → WorkerState → WorkerStateRegistry → WorkerStateRegistry
store k s r = record r { states = insert k s r.states; workers = add_worker k s r.workers }

-- The block of `_record_state` under the lock: the registry and the threads that it wakes.
unfoldable pub record_locked :
    Slot → WorkerState → WorkerStateRegistry → WorkerStateRegistry × List Waiter
record_locked k s r =
    let known = is_some (lookup k r.states) in
    let failed = same_state s failure in
    if known
    then (if failed
        then (store k s (record r { barrier = empty_barrier r.barrier }), waiting_at r.barrier)
        else (r, []))
    else (store k s r, [])

-- What a call of `_record_state` does before it waits.
pub data Recorded : Type 0 where
  -- returns the rendezvous id at once
  ignored : ℕ → Recorded
  -- goes on to wait, after the named threads were woken
  waits : Waiter → List Waiter → Recorded

unfoldable pub record_state :
    Bool → HostManager → Slot → WorkerState → WorkerStateRegistry → WorkerStateRegistry × Recorded
record_state finished m k s r =
    if finished
    then (r, ignored r.rendezvous_id)
    else if is_blacklisted m k.0
    then (r, ignored r.rendezvous_id)
    else (let (r', woken) = record_locked k s r in
        (r', waits (record { slot = k; state = s; rendezvous_id = r'.rendezvous_id }) woken))

-- self._barrier.wait(): a thread joins, and the last one lets all of them go.
pub data Joined : Type 0 where
  no_barrier : Joined
  blocked : Joined
  tripped : List Waiter → Joined

abbrev pub join_barrier :
    Waiter → WorkerStateRegistry → Option Barrier → WorkerStateRegistry × Joined
join_barrier w r none = (r, no_barrier)
join_barrier w r (some b) =
    let all = b.waiting ++ w ∷ [] in
    if eqb (length all) b.parties
    then (record r { barrier = some (record b { waiting = [] }) }, tripped all)
    else (record r { barrier = some (record b { waiting = all }) }, blocked)

unfoldable pub join : Waiter → WorkerStateRegistry → WorkerStateRegistry × Joined
join w r = join_barrier w r r.barrier

abbrev pub state_or : WorkerState → Option WorkerState → WorkerState
state_or s none = s
state_or s (some t) = t

-- The handler of BrokenBarrierError: `none` is the RuntimeError of an overridden state; else the
-- thread waits again, with the rendezvous id of now.
unfoldable pub wake : Waiter → WorkerStateRegistry → Option Waiter
wake w r =
    if same_state (state_or w.state (lookup w.slot r.states)) w.state
    then some (record w { rendezvous_id = r.rendezvous_id })
    else none

-- How `_on_workers_recorded` ends: driver.stop(), with the limit in its message, or driver.resume().
pub data Decision : Type 0 where
  stop : Decision
  stop_limit : ℕ → Decision
  resume : Decision

unfoldable pub blacklist_all : List Slot → HostManager → HostManager
blacklist_all [] m = m
blacklist_all (k ∷ ks) m = blacklist_all ks (blacklist m k.0)

unfoldable pub all_blacklisted : HostManager → List Slot → Bool
all_blacklisted m [] = true
all_blacklisted m (k ∷ ks) = is_blacklisted m k.0 && all_blacklisted m ks

abbrev pub is_empty : List Slot → Bool
is_empty [] = true
is_empty (k ∷ ks) = false

-- The last test and the count of resets.
abbrev pub decide_reset : Option ℕ → WorkerStateRegistry → WorkerStateRegistry × Decision
decide_reset none r = (record r { reset_count = r.reset_count + 1 }, resume)
decide_reset (some limit) r =
    if leb limit r.reset_count
    then (r, stop_limit limit)
    else (record r { reset_count = r.reset_count + 1 }, resume)

pub record Outcome : Type 0 where
  pub registry : WorkerStateRegistry
  pub manager : HostManager
  pub decision : Decision

unfoldable pub on_workers_recorded : WorkerStateRegistry → HostManager → Outcome
on_workers_recorded r m =
    if not (is_empty r.workers.success)
    then record { registry = r; manager = m; decision = stop }
    else if eqb (length r.workers.failure) r.size
    then record { registry = r; manager = m; decision = stop }
    else (let m' = blacklist_all r.workers.failure m in
        if all_blacklisted m' (keys r.states)
        then record { registry = r; manager = m'; decision = stop }
        else (let (r', d) = decide_reset r.reset_limit r in
            record { registry = r'; manager = m'; decision = d }))
