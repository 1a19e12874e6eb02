-- ===== src/Registry/Failures.antt =====
-- A failure that was recorded stays recorded.
use horovod.Common.{◌≡◌, Bool, false, some, List, [], ◌∷◌, arith, slot_key}
use horovod.Common.Dict.{lookup, lookup-insert}
use horovod.Discovery.{HostManager, is_blacklisted}
use horovod.Registry.{Slot, WorkerState, failure, WorkerStateRegistry, record_locked, record_state}
use horovod.Registry.States.{same_state_iff}

-- The reports that arrive one after the other, with the state of the driver and of the hosts then.
abbrev pub Report : Type 0
Report = Bool × HostManager × Slot × WorkerState

abbrev pub reports : List Report → WorkerStateRegistry → WorkerStateRegistry
reports [] r = r
reports ((finished, m, k, s) ∷ rs) r = reports rs (record_state finished m k s r).0

record_state_keeps_failure :
    (finished : Bool) (m : HostManager) (k j : Slot) (s : WorkerState) (r : WorkerStateRegistry)
    → lookup k r.states ≡ some failure
    → lookup k (record_state finished m j s r).0.states ≡ some failure
unfolding record_state record_locked
record_state_keeps_failure finished m k j s r e =
    ground (arith, lookup-insert j k s r.states, slot_key.same_iff j k, same_state_iff s failure)

reports_keep_failure :
    (rs : List Report) (k : Slot) (r : WorkerStateRegistry)
    → lookup k r.states ≡ some failure
    → lookup k (reports rs r).states ≡ some failure
reports_keep_failure [] k r e = e
reports_keep_failure ((finished, m, j, s) ∷ rs) k r e =
    reports_keep_failure rs k (record_state finished m j s r).0
      (record_state_keeps_failure finished m k j s r e)

-- A failure that is reported while the driver runs and the host is not blacklisted stays the
-- recorded state of the worker, whatever is reported afterwards.
failure_is_final :
    (m : HostManager) (k : Slot) (r : WorkerStateRegistry) (rs : List Report)
    → is_blacklisted m k.0 ≡ false
    → lookup k (reports rs (record_state false m k failure r).0).states ≡ some failure
unfolding record_state record_locked
failure_is_final m k r rs ok =
    reports_keep_failure rs k (record_state false m k failure r).0
      (ground (arith, ok, lookup-insert k k failure r.states, slot_key.same_iff k k))
