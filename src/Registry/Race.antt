-- ===== src/Registry/Race.antt =====
-- The lock is released before the thread waits, so a report and its wait are two steps: a failure
-- that is reported between them is counted together with the report that it replaces.
use horovod.Common.{suc, ◌≡◌, false, [], ◌∷◌, arith, slot_key}
use horovod.Common.Dict.{lookup, insert}
use horovod.Discovery.{HostManager, is_blacklisted}
use horovod.Registry.{
  Slot, WorkerState, ready, failure, Waiter, WorkerStateRegistry, reset, record_locked,
  record_state, tripped, join,
}

abbrev pub thread : Slot → WorkerState → WorkerStateRegistry → Waiter
thread k s r = record { slot = k; state = s; rendezvous_id = suc r.rendezvous_id }

-- A worker is recorded as ready and then as failed before either thread waits.
abbrev pub both_recorded : HostManager → Slot → WorkerStateRegistry → WorkerStateRegistry
both_recorded m k r =
    (record_state false m k failure (record_state false m k ready (reset 2 r)).0).0

-- In a job of two processes, when a worker fails between its report and its wait, its two threads
-- alone trip the barrier: the other worker is not awaited.
pub two_threads_of_one_worker :
    (m : HostManager) (k : Slot) (r : WorkerStateRegistry)
    → is_blacklisted m k.0 ≡ false
    → (join (thread k failure r) (join (thread k ready r) (both_recorded m k r)).0).1
      ≡ tripped (thread k ready r ∷ thread k failure r ∷ [])
unfolding join record_state record_locked reset lookup insert
two_threads_of_one_worker m k r ok = ground (arith, ok, slot_key.same_iff k k)
