-- ===== src/Discovery/Manager.antt =====
-- What every sequence of calls of a `HostManager` keeps.
use horovod.Common.{
  ℕ, String, ◌≡◌, refl, true, List, [], ◌∷◌, arith, not, host_key, str_iff, Bool-cases, inl, inr,
  ◌&&◌,
}
use horovod.Common.Dict.{Dict, keys, contains, Nodup}
use horovod.Discovery.{
  HostStates, state_of, HostManager, keep_allowed, current_hosts, blacklist, get_host_event,
  same_dict, update_available_hosts,
}
use horovod.Discovery.Order.{contains-order_available_hosts, Nodup-order_available_hosts}

pub contains-keep_allowed :
    (states : HostStates) (x : String) (hosts : List String)
    → contains x (keep_allowed states hosts)
      ≡ (contains x hosts && not (state_of states x).blacklisted)
unfolding contains keep_allowed
contains-keep_allowed states x [] = refl
contains-keep_allowed states x (h ∷ hosts) =
    ground (arith, str_iff h x, contains-keep_allowed states x hosts)

Nodup-keep_allowed :
    (states : HostStates) (hosts : List String) → Nodup hosts → Nodup (keep_allowed states hosts)
unfolding keep_allowed
Nodup-keep_allowed states [] nd = tt
Nodup-keep_allowed states (h ∷ hosts) (c, nd) =
    ground (arith, contains-keep_allowed states h hosts, Nodup-keep_allowed states hosts nd)

-- The interpreter may iterate over a set in any order, but visits each item once.
pub record IsIteration (iteration : List String → List String) : Type 0 where
  pub same_items : (xs : List String) (x : String) → contains x (iteration xs) ≡ contains x xs
  pub once : (xs : List String) → Nodup xs → Nodup (iteration xs)

-- The order has no repetition, and each host in it has a number of slots.
pub record IsValid (m : HostManager) : Type 0 where
  pub slots_once : Nodup (keys m.found.host_slots)
  pub order_once : Nodup m.found.host_assignment_order
  pub known :
      (h : String)
      → contains h m.found.host_assignment_order ≡ true
      → contains h (keys m.found.host_slots) ≡ true

-- The calls that change a manager.
pub data Step (iteration : List String → List String) : HostManager → HostManager → Type 0 where
  discover :
      (m : HostManager) (slots : Dict String ℕ)
      → Nodup (keys slots)
      → Step iteration m (update_available_hosts iteration slots m).0
  read : (m : HostManager) → Step iteration m (current_hosts m)
  ban : (m : HostManager) (h : String) → Step iteration m (blacklist m h)
  event : (m : HostManager) (h : String) → Step iteration m (get_host_event m h).0

pub data Reach (iteration : List String → List String) (m : HostManager)
    : HostManager → Type 0 where
  here : Reach iteration m m
  next : {n k : HostManager} → Reach iteration m n → Step iteration n k → Reach iteration m k

module _ (iteration : List String → List String) (fair : IsIteration iteration) where
  discover-IsValid :
      (m : HostManager) (slots : Dict String ℕ)
      → Nodup (keys slots)
      → IsValid m
      → IsValid (update_available_hosts iteration slots m).0
  unfolding update_available_hosts
  discover-IsValid m slots ns v =
      let allowed = keep_allowed m.states (keys slots) in
      let prev = m.found.host_assignment_order in
      elim (Bool-cases (same_dict m.found.host_slots slots)) [
        | inl same ↦ rw same v
        | inr changed ↦ rw changed (record {
          slots_once = ns;
          order_once =
              Nodup-order_available_hosts (iteration allowed) prev
                (fair.once allowed (Nodup-keep_allowed m.states (keys slots) ns)) v.order_once;
          known = λ h e. ground (
            arith,
            contains-order_available_hosts h (iteration allowed) prev,
            fair.same_items allowed h,
            contains-keep_allowed m.states h (keys slots),
            e,
          );
        })
      ]

  pub Step-IsValid : {m n : HostManager} → Step iteration m n → IsValid m → IsValid n
  unfolding current_hosts blacklist get_host_event
  Step-IsValid (discover m slots ns) v = discover-IsValid m slots ns v
  Step-IsValid (read m) v = record {
    slots_once = v.slots_once;
    order_once = Nodup-keep_allowed m.states m.found.host_assignment_order v.order_once;
    known = λ h e.
        v.known h
          (ground (arith, contains-keep_allowed m.states h m.found.host_assignment_order, e));
  }
  Step-IsValid (ban m h) v = record {
    slots_once = v.slots_once;
    order_once = v.order_once;
    known = v.known;
  }
  Step-IsValid (event m h) v = record {
    slots_once = v.slots_once;
    order_once = v.order_once;
    known = v.known;
  }

  -- Every reachable manager lists each host once, and only hosts with slots.
  pub Reach-IsValid : {m n : HostManager} → Reach iteration m n → IsValid m → IsValid n
  Reach-IsValid here v = v
  Reach-IsValid (next r s) v = Step-IsValid s (Reach-IsValid r v)
