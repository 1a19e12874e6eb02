-- ===== src/Registry/Tests.antt =====
-- Runs of the registry, and its theorems at concrete workers.
use horovod.Common.{◌≡◌, refl, ◌↔◌, false, none, some, [], ◌∷◌, arith, host_key, slot_key, rank_key}
use horovod.Common.Dict.{lookup, insert, contains}
use horovod.Discovery.{new_manager, blacklist, is_blacklisted}
use horovod.Registry.{
  Slot, ready, failure, WorkerStateRegistry, new_registry, reset, record_locked, record_state, join,
  on_workers_recorded, blacklist_all, all_blacklisted, resume, stop, tripped,
}
use horovod.Registry.Decide.{CanResume, on_workers_recorded-resume, WithinLimit}
use horovod.Registry.States.{IsConsistent, report, clear, here, next, Reach-IsConsistent}
use horovod.Registry.Report.{IsOrderly, Met, report as report_and_wake}
use horovod.Registry.Once.{first, report-Met}
use horovod.Registry.Race.{thread, both_recorded, two_threads_of_one_worker}

abbrev started : WorkerStateRegistry
started = reset 2 (new_registry (some 3))

abbrev slot_a : Slot
slot_a = ("a", 0)

abbrev slot_b : Slot
slot_b = ("b", 0)

abbrev one_failed : WorkerStateRegistry
one_failed =
    (record_state false new_manager slot_b ready
      (record_state false new_manager slot_a failure started).0).0

goes_on : (on_workers_recorded one_failed new_manager).decision ≡ resume
unfolding on_workers_recorded record_state record_locked reset lookup insert is_blacklisted
    blacklist blacklist_all all_blacklisted contains
goes_on = refl

all_failed :
    (on_workers_recorded
      (record_state false new_manager slot_b failure one_failed).0
      new_manager).decision
    ≡ stop
unfolding on_workers_recorded record_state record_locked reset lookup insert is_blacklisted
    blacklist blacklist_all all_blacklisted contains
all_failed = refl

on_workers_recorded-resume_example :
    ((on_workers_recorded one_failed new_manager).decision ≡ resume)
    ↔ CanResume one_failed new_manager
on_workers_recorded-resume_example = on_workers_recorded-resume one_failed new_manager

started-WithinLimit : WithinLimit one_failed.reset_limit one_failed.reset_count
unfolding record_state record_locked reset lookup insert is_blacklisted
started-WithinLimit = omega arith

new_registry-IsConsistent : IsConsistent (new_registry none)
unfolding lookup contains
new_registry-IsConsistent = record {
  listed = λ k s e. ground arith;
  known = λ k s e. ground arith;
  failed = λ k e. ground arith;
}

Reach-IsConsistent_example :
    IsConsistent (record_state false new_manager slot_a failure (reset 2 (new_registry none))).0
Reach-IsConsistent_example =
    Reach-IsConsistent
      (next (next here (clear 2 (new_registry none)))
        (report false new_manager slot_a failure (reset 2 (new_registry none))))
      new_registry-IsConsistent

not_banned : is_blacklisted new_manager "a" ≡ false
unfolding is_blacklisted lookup
not_banned = refl

started-IsOrderly : IsOrderly started
unfolding reset
started-IsOrderly = record {
  barrier = record { parties = 2; waiting = [] };
  has_barrier = refl;
  parties = refl;
  room = omega arith;
  distinct = tt;
  recorded = tt;
}

nothing_recorded : lookup slot_a started.states ≡ none
unfolding reset lookup
nothing_recorded = refl

report-Met_example :
    Met (report_and_wake slot_a ready started).0 (report_and_wake slot_a ready started).1
report-Met_example = report-Met slot_a ready started started-IsOrderly (first nothing_recorded)

two_threads_of_one_worker_example :
    (join
      (thread slot_a failure (new_registry none))
      (join
        (thread slot_a ready (new_registry none))
        (both_recorded new_manager slot_a (new_registry none))).0).1
    ≡ tripped
        (thread slot_a ready (new_registry none) ∷ thread slot_a failure (new_registry none) ∷ [])
two_threads_of_one_worker_example =
    two_threads_of_one_worker new_manager slot_a (new_registry none) not_banned
