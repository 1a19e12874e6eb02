-- ===== src/Driver/Alive.antt =====
-- horovod/runner/elastic/driver.py, _discover_hosts: the thread survives.
use horovod.Common.{
  ℕ, String, ◌≡◌, Bool, true, false, none, List, [], ◌∷◌, if◌then◌else◌, host_key, Bool-cases, inl,
  inr, All,
}
use horovod.Common.Dict.{Dict, Nodup, keys}
use horovod.Worker.Update.{HostUpdateResult, no_update, same_update}
use horovod.Hosts.Columns.{Within}
use horovod.Discovery.{HostManager, update_available_hosts, current_hosts}
use horovod.Discovery.Manager.{IsIteration, IsValid, discover, read, Step-IsValid}
use horovod.Driver.{ElasticDriver}
use horovod.Driver.World.{notify_workers_host_changes_total}
use horovod.Driver.Discover.{
  Found, hosts_and_slots, runtime_error, value_error, Looked, looks_on, died, discovery_error,
  after_update, discover_hosts_once, and_look, discover_hosts,
}

-- The discovery raises nothing but a RuntimeError; a dictionary has a key once.
abbrev pub IsRegular : Found → Type 0
IsRegular (hosts_and_slots slots) = Nodup (keys slots)
IsRegular runtime_error = Unit
IsRegular value_error = false ≡ true

-- The manager is well formed, and the limits make sense.
pub record IsSound (d : ElasticDriver) : Type 0 where
  pub manager : IsValid d.manager
  pub limits : Within d.max_np d.min_np

-- The thread goes on, with a sound driver.
abbrev pub IsAlive : Looked → Type 0
IsAlive (looks_on d notified) = IsSound d
IsAlive (died d) = false ≡ true

after_update-IsAlive :
    (first_update : Bool) (d : ElasticDriver) (m : HostManager) (result : HostUpdateResult)
    (iteration : List String → List String)
    → IsIteration iteration
    → IsValid m
    → Within d.max_np d.min_np
    → IsAlive (after_update first_update d (m, result))
after_update-IsAlive first_update d m result iteration fair v w =
    elim (Bool-cases (same_update result no_update)) [
      | inl same ↦ rw same (record { manager = v; limits = w })
      | inr news ↦
          let v' = Step-IsValid iteration fair (read m) v in
          let changed : ElasticDriver = record d { manager = current_hosts m } in
          let (answer, e) =
            notify_workers_host_changes_total changed (current_hosts m).found v'.order_once w in
          rw (news, e) (record { manager = v'; limits = w })
    ]

either-IsAlive : (b : Bool) (x y : Looked) → IsAlive x → IsAlive y → IsAlive (if b then x else y)
either-IsAlive true x y ax ay = ax
either-IsAlive false x y ax ay = ay

module _ (iteration : List String → List String) (fair : IsIteration iteration) where
  found-IsAlive :
      (first_update : Bool) (slots : Dict String ℕ) (d : ElasticDriver)
      → Nodup (keys slots)
      → IsSound d
      → IsAlive (discover_hosts_once iteration first_update (hosts_and_slots slots) d)
  unfolding discover_hosts_once
  found-IsAlive first_update slots d dict sound =
      let (m, result) = update_available_hosts iteration slots d.manager in
      after_update-IsAlive first_update d m result iteration fair
        (Step-IsValid iteration fair (discover d.manager slots dict) sound.manager) sound.limits

  and_look-IsAlive :
      (looked : Looked) (rest : ElasticDriver → Looked)
      → IsAlive looked
      → ((d : ElasticDriver) → IsSound d → IsAlive (rest d))
      → IsAlive (and_look looked rest)
  and_look-IsAlive (looks_on d notified) rest alive f = f d alive
  and_look-IsAlive (died d) rest alive f = cc

  later-IsAlive :
      (later : List Found) (d : ElasticDriver)
      → All IsRegular later
      → IsSound d
      → IsAlive (discover_hosts iteration false later d)
  unfolding discover_hosts discover_hosts_once discovery_error
  later-IsAlive [] d dicts sound = sound
  later-IsAlive (found ∷ later) d (dict, dicts) sound =
      either-IsAlive d.shutdown (looks_on d none)
        (and_look (discover_hosts_once iteration false found d)
          (λ e. discover_hosts iteration false later e))
        sound
        (and_look-IsAlive (discover_hosts_once iteration false found d)
          (λ e. discover_hosts iteration false later e) (once found dict)
          (λ e ok. later-IsAlive later e dicts ok))
    where
      once :
          (found : Found) → IsRegular found → IsAlive (discover_hosts_once iteration false found d)
      once (hosts_and_slots slots) dict = found-IsAlive false slots d dict sound
      once runtime_error dict = sound
      once value_error dict = cc

  -- When the first discovery succeeds, no later one raises anything but a RuntimeError, the manager is
  -- well formed, and the minimum of processes is not above their maximum, then the thread does not end
  -- by an exception, whatever is found or fails later: no notification raises, and the manager stays
  -- well formed.
  pub discover_hosts-IsAlive :
      (slots : Dict String ℕ) (later : List Found) (d : ElasticDriver)
      → Nodup (keys slots)
      → All IsRegular later
      → IsSound d
      → IsAlive (discover_hosts iteration true (hosts_and_slots slots ∷ later) d)
  unfolding discover_hosts
  discover_hosts-IsAlive slots later d dict dicts sound =
      either-IsAlive d.shutdown (looks_on d none)
        (and_look (discover_hosts_once iteration true (hosts_and_slots slots) d)
          (λ e. discover_hosts iteration false later e))
        sound
        (and_look-IsAlive (discover_hosts_once iteration true (hosts_and_slots slots) d)
          (λ e. discover_hosts iteration false later e) (found-IsAlive true slots d dict sound)
          (λ e ok. later-IsAlive later e dicts ok))
