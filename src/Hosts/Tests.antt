-- ===== src/Hosts/Tests.antt =====
-- Runs of `get_host_assignments`, and its theorems at concrete hosts.
use horovod.Common.{
  ℕ, String, ◌≡◌, refl, none, some, List, [], ◌∷◌, ◌++◌, ltb, if◌then◌else◌, All, rank_key,
  host_key, slot_key,
}
use horovod.Common.Dict.{Nodup, contains, lookup, insert}
use horovod.Hosts.{HostInfo, SlotInfo, ok, err, not_enough_slots}
use horovod.Hosts.Assign.{
  get_host_assignments, fill_hosts, visit_host, take_slots, take_slot, alloc_list, host_slots,
}
use horovod.Hosts.Filling.{names}
use horovod.Hosts.Spec.{world_of, assignment}
use horovod.Hosts.Refine.{get_host_assignments-eq-assignment}
use horovod.Hosts.Ranks.{InRange, InRange-get_host_assignments}
use horovod.Hosts.Stable.{Seat, seats, get_host_assignments_stable}

abbrev two_hosts : List HostInfo
two_hosts = record { hostname = "a"; slots = 2 } ∷ record { hostname = "b"; slots = 1 } ∷ []

abbrev third_host : List HostInfo
third_host = record { hostname = "c"; slots = 2 } ∷ []

abbrev slot : String → ℕ → ℕ → ℕ → ℕ → ℕ → ℕ → SlotInfo
slot hostname rank local_rank cross_rank size local_size cross_size = record {
  hostname = hostname;
  rank = rank;
  local_rank = local_rank;
  cross_rank = cross_rank;
  size = size;
  local_size = local_size;
  cross_size = cross_size;
}

abbrev two_slots : List SlotInfo
two_slots = slot "a" 0 0 0 3 2 2 ∷ slot "a" 1 1 0 3 2 1 ∷ slot "b" 2 0 1 3 1 2 ∷ []

abbrev four_slots : List SlotInfo
four_slots =
    slot "a" 0 0 0 4 2 3 ∷ slot "a" 1 1 0 4 2 1 ∷ slot "b" 2 0 1 4 1 3 ∷ slot "c" 3 0 2 4 1 3 ∷ []

two_hosts-Nodup : Nodup (names two_hosts)
unfolding contains
two_hosts-Nodup = (refl, (refl, tt))

three_hosts-Nodup : Nodup (names (two_hosts ++ third_host))
unfolding contains
three_hosts-Nodup = (refl, (refl, (refl, tt)))

run_two : get_host_assignments two_hosts 2 (some 4) ≡ ok two_slots
unfolding get_host_assignments fill_hosts visit_host take_slots take_slot alloc_list host_slots
    lookup insert
run_two = refl

run_four : get_host_assignments (two_hosts ++ third_host) 2 (some 4) ≡ ok four_slots
unfolding get_host_assignments fill_hosts visit_host take_slots take_slot alloc_list host_slots
    lookup insert
run_four = refl

get_host_assignments-eq-assignment_example : get_host_assignments two_hosts 4 none ≡ (
    if ltb (world_of two_hosts none) 4
    then err not_enough_slots
    else ok (assignment two_hosts none))
get_host_assignments-eq-assignment_example =
    get_host_assignments-eq-assignment two_hosts 4 none two_hosts-Nodup

InRange-get_host_assignments_example : All (InRange (world_of two_hosts (some 4))) two_slots
InRange-get_host_assignments_example =
    InRange-get_host_assignments two_hosts 2 (some 4) two_slots two_hosts-Nodup run_two

get_host_assignments_stable_example :
    (rest : List Seat) × (seats four_slots ≡ seats two_slots ++ rest)
get_host_assignments_stable_example =
    get_host_assignments_stable two_hosts third_host 2 (some 4) two_slots four_slots two_hosts-Nodup
      three_hosts-Nodup run_two run_four
