-- ===== src/Discovery/Tests.antt =====
-- Runs of the host manager, and its theorems at concrete hosts.
use horovod.Common.{
  ℕ, String, ◌≡◌, refl, true, false, List, [], ◌∷◌, ◌++◌, not, ◌&&◌, host_key, rank_key,
  IsSubsequence,
}
use horovod.Common.Dict.{Dict, keys, Nodup, contains, lookup}
use horovod.Worker.Update.{mixed, ◌∪◌}
use horovod.Discovery.{
  HostManager, new_manager, keep_known, add_new, order_available_hosts, check_update, removed_hosts,
  changed_hosts, update_available_hosts, blacklist, is_blacklisted, current_hosts, get_host_event,
  is_fired, state_of,
}
use horovod.Discovery.Order.{order_available_hosts_stable}
use horovod.Discovery.Manager.{IsIteration, IsValid, here, next, discover, ban, read, Reach-IsValid}
use horovod.Discovery.Blacklist.{blacklist_forever, get_host_event_fires}

abbrev first : Dict String ℕ
first = ("a", 2) ∷ ("b", 4) ∷ []

abbrev second : Dict String ℕ
second = ("c", 1) ∷ ("b", 3) ∷ ("a", 2) ∷ []

first-Nodup : Nodup (keys first)
unfolding contains
first-Nodup = (refl, (refl, tt))

second-Nodup : Nodup (keys second)
unfolding contains
second-Nodup = (refl, (refl, (refl, tt)))

reorder : order_available_hosts ("c" ∷ "b" ∷ "a" ∷ []) ("a" ∷ "d" ∷ "b" ∷ []) ≡ "a" ∷ "b" ∷ "c" ∷ []
unfolding order_available_hosts keep_known add_new contains
reorder = refl

mixed_update : check_update second first ≡ mixed
unfolding check_update removed_hosts changed_hosts lookup ◌∪◌
mixed_update = refl

abbrev in_order : List String → List String
in_order xs = xs

in_order-IsIteration : IsIteration in_order
in_order-IsIteration = record { same_items = λ xs x. refl; once = λ xs nd. nd }

new_manager-IsValid : IsValid new_manager
unfolding contains
new_manager-IsValid = record { slots_once = tt; order_once = tt; known = λ h e. e }

abbrev one_found : HostManager
one_found = (update_available_hosts in_order first new_manager).0

order_available_hosts_stable_example :
    (old new : List String) × (order_available_hosts (keys second) ("a" ∷ "d" ∷ "b" ∷ [])
      ≡ old ++ new)
    × IsSubsequence old ("a" ∷ "d" ∷ "b" ∷ [])
    × ((x : String)
        → contains x old ≡ (contains x ("a" ∷ "d" ∷ "b" ∷ []) && contains x (keys second)))
    × ((x : String)
        → contains x new ≡ (contains x (keys second) && not (contains x ("a" ∷ "d" ∷ "b" ∷ []))))
order_available_hosts_stable_example =
    order_available_hosts_stable (keys second) ("a" ∷ "d" ∷ "b" ∷ [])

Reach-IsValid_example : IsValid (current_hosts (blacklist one_found "a"))
Reach-IsValid_example =
    Reach-IsValid in_order in_order-IsIteration
      (next (next (next here (discover new_manager first first-Nodup)) (ban one_found "a"))
        (read (blacklist one_found "a")))
      new_manager-IsValid

abbrev banned : HostManager
banned = blacklist one_found "b"

blacklist_forever_example :
    (is_blacklisted (update_available_hosts in_order second banned).0 "b" ≡ true)
    × (contains "b"
          (current_hosts
            (update_available_hosts in_order second banned).0).found.host_assignment_order
        ≡ false)
blacklist_forever_example =
    blacklist_forever in_order one_found (update_available_hosts in_order second banned).0 "b"
      (next here (discover banned second second-Nodup))

get_host_event_fires_example :
    (is_fired
        (state_of (get_host_event one_found "b").0.states "b")
        (get_host_event one_found "b").1
      ≡ false)
    × (is_fired
          (state_of (blacklist (get_host_event one_found "b").0 "b").states "b")
          (get_host_event one_found "b").1
        ≡ true)
get_host_event_fires_example =
    get_host_event_fires in_order one_found (get_host_event one_found "b").0
      (blacklist (get_host_event one_found "b").0 "b") "b"
      (next here (discover new_manager first first-Nodup)) here here
