-- ===== src/Discovery.antt =====
-- horovod/runner/elastic/discovery.py: the hosts that are found, their order and the blacklist.
-- A missing entry of the `defaultdict` of host states reads as a fresh HostState; that a read also
-- stores it cannot be observed, since the program never iterates over that dictionary.
pub mod Order
pub mod Changes
pub mod Notice
pub mod Manager
pub mod Blacklist
mod Tests
use horovod.Common.{
  ℕ, suc, ◌+◌, String, Bool, true, false, Option, none, some, List, [], ◌∷◌, ◌++◌, not, ◌&&◌, ltb,
  if◌then◌else◌, Key, ◌=?◌, host_key, rank_key, eqb,
}
use horovod.Common.Dict.{Dict, keys, contains, lookup, insert}
use horovod.Worker.Update.{HostUpdateResult, no_update, removed, added, ◌∪◌}

-- An Event is an object, known by its number among those of the host, in the order in which they are
-- created: `event` is the one that `_event` refers to, and `set_events` are those that have been set.
-- A later event is another object: that it is set says nothing of an earlier one.
pub record HostState : Type 0 where
  pub event : ℕ
  pub set_events : List ℕ
  pub blacklisted : Bool

abbrev pub new_state : HostState
new_state = record { event = 0; set_events = []; blacklisted = false }

-- A set event is replaced by a new one.
unfoldable pub get_event : HostState → HostState × ℕ
get_event s =
    if contains s.event s.set_events
    then (record s { event = suc s.event }, suc s.event)
    else (s, s.event)

abbrev pub set_event : HostState → HostState
set_event s = record s { set_events = s.event ∷ s.set_events }

abbrev pub blacklist_state : HostState → HostState
blacklist_state s = set_event (record s { blacklisted = true })

-- event.is_set() of the event that was handed out as number `g`
unfoldable pub is_fired : HostState → ℕ → Bool
is_fired s g = contains g s.set_events

pub record DiscoveredHosts : Type 0 where
  pub host_slots : Dict String ℕ
  pub host_assignment_order : List String

abbrev pub slots_or_zero : Option ℕ → ℕ
slots_or_zero none = 0
slots_or_zero (some n) = n

abbrev pub get_slots : DiscoveredHosts → String → ℕ
get_slots d host = slots_or_zero (lookup host d.host_slots)

abbrev pub sum_slots : DiscoveredHosts → List String → ℕ
sum_slots d [] = 0
sum_slots d (h ∷ hosts) = get_slots d h + sum_slots d hosts

abbrev pub count_available_slots : DiscoveredHosts → ℕ
count_available_slots d = sum_slots d d.host_assignment_order

abbrev pub HostStates : Type 0
HostStates = Dict String HostState

abbrev pub state_or_new : Option HostState → HostState
state_or_new none = new_state
state_or_new (some s) = s

-- hosts_state[host]
abbrev pub state_of : HostStates → String → HostState
state_of states host = state_or_new (lookup host states)

-- the hosts of a list that are not blacklisted
unfoldable pub keep_allowed : HostStates → List String → List String
keep_allowed states [] = []
keep_allowed states (h ∷ hosts) =
    let rest = keep_allowed states hosts in
    if (state_of states h).blacklisted then rest else h ∷ rest

-- DiscoveredHosts.update
abbrev pub update : HostStates → DiscoveredHosts → DiscoveredHosts
update states d = record d { host_assignment_order = keep_allowed states d.host_assignment_order }

pub record HostManager : Type 0 where
  pub found : DiscoveredHosts
  pub states : HostStates

abbrev pub new_manager : HostManager
new_manager = record { found = record { host_slots = []; host_assignment_order = [] }; states = [] }

-- The property `current_hosts` updates the object that it returns.
unfoldable pub current_hosts : HostManager → HostManager
current_hosts m = record m { found = update m.states m.found }

unfoldable pub is_blacklisted : HostManager → String → Bool
is_blacklisted m host = (state_of m.states host).blacklisted

unfoldable pub blacklist : HostManager → String → HostManager
blacklist m host = record m {
  states = insert host (blacklist_state (state_of m.states host)) m.states;
}

unfoldable pub get_host_event : HostManager → String → HostManager × ℕ
get_host_event m host =
    let (s, event) = get_event (state_of m.states host) in
    (record m { states = insert host s m.states }, event)

-- [host for host in prev if host in available]
unfoldable pub keep_known : List String → List String → List String
keep_known available [] = []
keep_known available (h ∷ prev) =
    let rest = keep_known available prev in if contains h available then h ∷ rest else rest

-- for host in available_hosts: if host not in known_hosts: append(host)
unfoldable pub add_new : List String → List String → List String
add_new known [] = []
add_new known (h ∷ hosts) =
    let rest = add_new known hosts in if contains h known then rest else h ∷ rest

-- `available` lists a set in the order in which the interpreter iterates over it.
unfoldable pub order_available_hosts : List String → List String → List String
order_available_hosts available prev =
    let known = keep_known available prev in known ++ add_new known available

abbrev pub key_update : Option ℕ → HostUpdateResult
key_update none = removed
key_update (some n) = no_update

-- for prev_h in prev_host_slots
unfoldable pub removed_hosts : Dict String ℕ → Dict String ℕ → HostUpdateResult
removed_hosts cur [] = no_update
removed_hosts cur ((h, n) ∷ prev) = key_update (lookup h cur) ∪ removed_hosts cur prev

abbrev pub slot_update : ℕ → Option ℕ → HostUpdateResult
slot_update n none = added
slot_update n (some m) = if ltb m n then added else if ltb n m then removed else no_update

-- for h in cur_host_slots
unfoldable pub changed_hosts : Dict String ℕ → Dict String ℕ → HostUpdateResult
changed_hosts prev [] = no_update
changed_hosts prev ((h, n) ∷ cur) = slot_update n (lookup h prev) ∪ changed_hosts prev cur

unfoldable pub check_update : Dict String ℕ → Dict String ℕ → HostUpdateResult
check_update cur prev = removed_hosts cur prev ∪ changed_hosts prev cur

abbrev pub has_value : Option ℕ → ℕ → Bool
has_value none n = false
has_value (some m) n = eqb m n

unfoldable pub sub_dict : Dict String ℕ → Dict String ℕ → Bool
sub_dict [] b = true
sub_dict ((h, n) ∷ a) b = has_value (lookup h b) n && sub_dict a b

-- a == b, which does not look at the order
unfoldable pub same_dict : Dict String ℕ → Dict String ℕ → Bool
same_dict a b = sub_dict a b && sub_dict b a

-- `iteration` is the order in which the interpreter iterates over a set of hosts; `host_slots` is
-- what the discovery found.
unfoldable pub update_available_hosts :
    (List String → List String) → Dict String ℕ → HostManager → HostManager × HostUpdateResult
update_available_hosts iteration host_slots m =
    let prev = m.found in
    if same_dict prev.host_slots host_slots then (m, no_update) else (
      record m {
        found = record {
          host_slots = host_slots;
          host_assignment_order =
              order_available_hosts (iteration (keep_allowed m.states (keys host_slots)))
                prev.host_assignment_order;
        };
      },
      check_update host_slots prev.host_slots,
    )
