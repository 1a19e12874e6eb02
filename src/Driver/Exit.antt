-- ===== src/Driver/Exit.antt =====
-- horovod/runner/elastic/driver.py, _handle_worker_exit: the end of a worker process.
use horovod.Common.{
  ℕ, String, Option, none, some, ◌&&◌, eqb, if◌then◌else◌, host_key, rank_key, slot_key,
}
use horovod.Registry.{WorkerState, success, failure}
use horovod.Driver.{ElasticDriver, has_rank_assignment, add_result}

-- `_handle_worker_exit`: the state that is reported, if the slot has a rank.
unfoldable pub exit_state : ElasticDriver → String → ℕ → ℕ → Option WorkerState
exit_state d host slot exit_code =
    if has_rank_assignment d host slot
    then some (if eqb exit_code 0 then success else failure)
    else none

-- Its end, when the report has returned with a rendezvous id.
unfoldable pub exit_result : String → ℕ × ℕ → ℕ → ElasticDriver → ElasticDriver
exit_result name result rendezvous_id d =
    if d.shutdown && eqb d.registry.rendezvous_id rendezvous_id then add_result name result d else d
