-- ===== src/Ray/Tests.antt =====
-- Three workers on two nodes, the ranks given out in turn.
use horovod.Common.{ℕ, ◌≡◌, refl, some, List, [], ◌∷◌, All, arith, rank_key, host_key}
use horovod.Common.Dict.{Dict, keys, contains, lookup, insert, Nodup}
use horovod.Hosts.{SlotInfo, ok}
use horovod.Ray.{
  Coordinator, new_coordinator, register, Place, count_nodes, count_node, place_nodes, place_node,
  finalize_registration, host_alloc_plan, sum_lengths, world_size, node_id_string, node_strings,
}
use horovod.Common.Text.{any_code, str}
use horovod.Hosts.Parse.{join}
use horovod.Hosts.Print.{IsClean}
use horovod.Ray.Counting.{all_ranks}
use horovod.Ray.Finalize.{place_at}
use horovod.Ray.Plan.{IsToldTo, finalize_registration-host_alloc_plan}

abbrev three : Coordinator
three = record {
  node_id_by_rank = ("a", 0 ∷ 2 ∷ []) ∷ ("b", 1 ∷ []) ∷ [];
  hostnames = "h1" ∷ "h2" ∷ [];
}

registered : register "h1" "a" 2 (register "h2" "b" 1 (register "h1" "a" 0 new_coordinator)) ≡ three
unfolding register contains lookup insert
registered = refl

size : world_size three ≡ 3
unfolding world_size sum_lengths
size = refl

finalized :
    finalize_registration three
    ≡ some ((0, place_at 0 2 0 2) ∷ (2, place_at 0 1 1 2) ∷ (1, place_at 1 2 0 1) ∷ [])
unfolding finalize_registration count_nodes count_node place_nodes place_node lookup insert
finalized = refl

nodes_differ : Nodup (keys three.node_id_by_rank)
unfolding contains
nodes_differ = (refl, (refl, tt))

ranks_differ : Nodup (all_ranks three.node_id_by_rank)
unfolding contains all_ranks
ranks_differ = (refl, (refl, (refl, tt)))

names-IsClean : All IsClean (keys three.node_id_by_rank)
unfolding any_code
names-IsClean = ((refl, refl, refl), ((refl, refl, refl), tt))

two_nodes : node_id_string three ≡ "a:2,b:1"
unfolding node_id_string node_strings join str
two_nodes = refl

finalize_registration-host_alloc_plan_example :
    (plan : List SlotInfo) × (p : Dict ℕ Place) × (host_alloc_plan three ≡ some (ok plan))
    × (finalize_registration three ≡ some p)
    × All (IsToldTo three p) plan
finalize_registration-host_alloc_plan_example =
    finalize_registration-host_alloc_plan three (omega arith) names-IsClean nodes_differ
      ranks_differ
