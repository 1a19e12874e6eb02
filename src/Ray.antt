-- ===== src/Ray.antt =====
-- horovod/ray/runner.py, Coordinator: the workers register with their node, and each of them gets
-- its place in the environment; the rendezvous server gets a plan of its own for the same nodes.
mod Counting
mod Finalize
mod Names
mod Plan
mod Tests
use horovod.Common.{
  ℕ, zero, suc, ◌+◌, String, Bool, true, false, Option, none, some, List, [], ◌∷◌, ◌++◌, length,
  map, if◌then◌else◌, Key, rank_key, host_key,
}
use horovod.Common.Dict.{Dict, contains, lookup, insert}
use horovod.Hosts.{HostInfo, SlotInfo, Result}
use horovod.Hosts.Assign.{get_host_assignments}
use horovod.Hosts.Parse.{parse_hosts, join}
use horovod.Common.Text.{◌+++◌, str}

-- `hostnames` is a set.
pub record Coordinator : Type 0 where
  pub node_id_by_rank : Dict String (List ℕ)
  pub hostnames : List String

abbrev pub new_coordinator : Coordinator
new_coordinator = record { node_id_by_rank = []; hostnames = [] }

abbrev pub or_nil : Option (List ℕ) → List ℕ
or_nil none = []
or_nil (some ranks) = ranks

abbrev pub or_zero : Option ℕ → ℕ
or_zero none = 0
or_zero (some n) = n

unfoldable pub sum_lengths : Dict String (List ℕ) → ℕ
sum_lengths [] = 0
sum_lengths ((node, ranks) ∷ nodes) = length ranks + sum_lengths nodes

unfoldable pub world_size : Coordinator → ℕ
world_size c = sum_lengths c.node_id_by_rank

unfoldable pub node_strings : Dict String (List ℕ) → List String
node_strings [] = []
node_strings ((node, ranks) ∷ nodes) = (node +++ (":" +++ str (length ranks))) ∷ node_strings nodes

unfoldable pub node_id_string : Coordinator → String
node_id_string c = join "," (node_strings c.node_id_by_rank)

unfoldable pub register : String → String → ℕ → Coordinator → Coordinator
register hostname node rank c = record {
  hostnames = if contains hostname c.hostnames then c.hostnames else c.hostnames ++ hostname ∷ [];
  node_id_by_rank =
      insert node (or_nil (lookup node c.node_id_by_rank) ++ rank ∷ []) c.node_id_by_rank;
}

-- cross_sizes and cross_ranks
abbrev pub Crosses : Type 0
Crosses = Dict ℕ ℕ × Dict ℕ ℕ

-- The inner loop over the ranks of a node, from local rank l on.
unfoldable pub count_node : ℕ → List ℕ → Crosses → Crosses
count_node l [] s = s
count_node l (rank ∷ ranks) (sizes, crosses) =
    let n = or_zero (lookup l sizes) in
    count_node (suc l) ranks (insert l (n + 1) sizes, insert rank n crosses)

unfoldable pub count_nodes : Dict String (List ℕ) → Crosses → Crosses
count_nodes [] s = s
count_nodes ((node, ranks) ∷ nodes) s = count_nodes nodes (count_node 0 ranks s)

-- HOROVOD_CROSS_RANK and so on
pub record Place : Type 0 where
  pub cross_rank : ℕ
  pub cross_size : ℕ
  pub local_rank : ℕ
  pub local_size : ℕ

infixl 5 ◌>>=◌
abbrev ◌>>=◌ {ℓ κ} : {A : Type ℓ} {B : Type κ} → Option A → (A → Option B) → Option B
none >>= f = none
some a >>= f = f a

-- `none` is a KeyError.
unfoldable pub place_node : Crosses → ℕ → ℕ → List ℕ → Dict ℕ Place → Option (Dict ℕ Place)
place_node s size l [] places = some places
place_node s size l (rank ∷ ranks) places = do
  cross ← lookup rank s.1
  place_node s size (suc l) ranks (
      insert rank
        (record {
          cross_rank = cross;
          cross_size = or_zero (lookup l s.0);
          local_rank = l;
          local_size = size;
        })
        places)

unfoldable pub place_nodes : Crosses → Dict String (List ℕ) → Dict ℕ Place → Option (Dict ℕ Place)
place_nodes s [] places = some places
place_nodes s ((node, ranks) ∷ nodes) places = do
  placed ← place_node s (length ranks) 0 ranks places
  place_nodes s nodes placed

unfoldable pub finalize_registration : Coordinator → Option (Dict ℕ Place)
finalize_registration c = place_nodes (count_nodes c.node_id_by_rank ([], [])) c.node_id_by_rank []

-- The plan with which `establish_rendezvous` initialises the server; `none` where the string of the
-- nodes is not parsed.
unfoldable pub host_alloc_plan : Coordinator → Option (Result (List SlotInfo))
host_alloc_plan c = elim (parse_hosts (node_id_string c)) [
  | none ↦ none
  | some hosts ↦ some (get_host_assignments hosts (world_size c) none)
]
