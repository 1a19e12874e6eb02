-- ===== src/Driver/Discover.antt =====
-- horovod/runner/elastic/driver.py, _discover_hosts: the thread that looks for hosts.
use horovod.Common.{
  ℕ, String, Bool, true, false, Option, none, List, [], ◌∷◌, if◌then◌else◌, host_key,
}
use horovod.Common.Dict.{Dict}
use horovod.DriverService.{Addresses}
use horovod.Worker.Update.{HostUpdateResult, no_update, same_update}
use horovod.Discovery.{HostManager, update_available_hosts, current_hosts}
use horovod.Driver.{ElasticDriver, host_error, no_previous_host, Result, ok, err}
use horovod.Driver.Notify.{notify_workers_host_changes}

-- What the discovery of the user returns, or what it raises: a RuntimeError, or a ValueError, as of a
-- script that prints a line without a number of slots behind the colon.
pub data Found : Type 0 where
  hosts_and_slots : Dict String ℕ → Found
  runtime_error : Found
  value_error : Found

-- A turn of the loop: the driver and the worker that is notified, or the end of the thread by an
-- exception.
pub data Looked : Type 0 where
  looks_on : ElasticDriver → Option Addresses → Looked
  died : ElasticDriver → Looked

-- `except RuntimeError`
unfoldable pub discovery_error : Bool → ElasticDriver → Looked
discovery_error first_update d =
    if first_update then died (record d { shutdown = true }) else looks_on d none

-- The ValueError of the assignment is not caught.
abbrev pub after_notice : Bool → ElasticDriver → Result (Option Addresses) → Looked
after_notice first_update d (ok notified) = looks_on d notified
after_notice first_update d (err (host_error e)) = died d
after_notice first_update d (err no_previous_host) = discovery_error first_update d

abbrev pub after_update : Bool → ElasticDriver → HostManager × HostUpdateResult → Looked
after_update first_update d (m, result) =
    if same_update result no_update
    then looks_on (record d { manager = m }) none
    else (let changed = record d { manager = current_hosts m } in
        after_notice first_update changed
          (notify_workers_host_changes changed changed.manager.found))

abbrev pub and_look : Looked → (ElasticDriver → Looked) → Looked
and_look (looks_on d notified) rest = rest d
and_look (died d) rest = died d

module _ (iteration : List String → List String) where
  unfoldable pub discover_hosts_once : Bool → Found → ElasticDriver → Looked
  discover_hosts_once first_update (hosts_and_slots slots) d =
      after_update first_update d (update_available_hosts iteration slots d.manager)
  discover_hosts_once first_update runtime_error d = discovery_error first_update d
  discover_hosts_once first_update value_error d = died d

  -- The loop, over what the discovery finds from turn to turn; it ends at the shutdown.
  unfoldable pub discover_hosts : Bool → List Found → ElasticDriver → Looked
  discover_hosts first_update [] d = looks_on d none
  discover_hosts first_update (found ∷ later) d =
      if d.shutdown
      then looks_on d none
      else and_look (discover_hosts_once first_update found d) (λ e. discover_hosts false later e)
