-- ===== src/Hosts/Assign.antt =====
-- `get_host_assignments` of horovod/runner/common/util/hosts.py.
use horovod.Common.{
  ℕ, zero, suc, ◌+◌, String, Bool, true, false, Option, none, some, List, [], ◌∷◌, ◌++◌, length,
  ltb, eqb, if◌then◌else◌, rank_key, host_key,
}
use horovod.Common.Dict.{Dict, lookup, insert}
use horovod.Hosts.{HostInfo, SlotInfo, Result, ok, err, not_enough_slots, key_error}

infixl 5 ◌>>=◌
abbrev pub ◌>>=◌ {ℓ κ} : {A : Type ℓ} {B : Type κ} → Result A → (A → Result B) → Result B
ok a >>= f = f a
err e >>= f = err e

-- The variables that the loops change.
pub record Alloc : Type 0 where
  pub rank : ℕ
  pub ranks : List ℕ
  pub cross_ranks : Dict ℕ (Dict String ℕ)

-- cross_ranks[local_rank], of a `defaultdict(dict)`
abbrev pub or_empty : Option (Dict String ℕ) → Dict String ℕ
or_empty none = []
or_empty (some d) = d

abbrev pub at_local : Dict ℕ (Dict String ℕ) → ℕ → Dict String ℕ
at_local cross l = or_empty (lookup l cross)

-- rank =? max_np, where `max_np` may be None
abbrev pub at_limit : Option ℕ → ℕ → Bool
at_limit none rank = false
at_limit (some m) rank = eqb rank m

-- the body of the inner loop behind its test
unfoldable pub take_slot : String → ℕ → Alloc → Alloc
take_slot hostname local_rank s =
    let at = at_local s.cross_ranks local_rank in
    record {
      rank = s.rank + 1;
      ranks = s.ranks ++ s.rank ∷ [];
      cross_ranks = insert local_rank (insert hostname (length at) at) s.cross_ranks;
    }

-- for local_rank in range(host_info.slots), with the rounds left first
unfoldable pub take_slots : Option ℕ → String → ℕ → ℕ → Alloc → Alloc
take_slots max_np hostname zero local_rank s = s
take_slots max_np hostname (suc n) local_rank s = elim (at_limit max_np s.rank) [
  | true ↦ s
  | false ↦ take_slots max_np hostname n (suc local_rank) (take_slot hostname local_rank s)
]

abbrev pub HostRanks : Type 0
HostRanks = List (HostInfo × List ℕ)

-- for host_info in hosts: the final rank and cross_ranks, and host_ranks
pub record Plan : Type 0 where
  pub world_size : ℕ
  pub host_ranks : HostRanks
  pub cross : Dict ℕ (Dict String ℕ)

abbrev pub opening : Plan → Alloc
opening p = record { rank = p.world_size; ranks = []; cross_ranks = p.cross }

-- the body of the outer loop
unfoldable pub visit_host : Option ℕ → Plan → HostInfo → Plan
visit_host max_np p h =
    let s = take_slots max_np h.hostname h.slots 0 (opening p) in
    record {
      world_size = s.rank;
      host_ranks = p.host_ranks ++ (h, s.ranks) ∷ [];
      cross = s.cross_ranks;
    }

unfoldable pub fill_hosts : Option ℕ → List HostInfo → Plan → Plan
fill_hosts max_np [] p = p
fill_hosts max_np (h ∷ hosts) p = fill_hosts max_np hosts (visit_host max_np p h)

-- cross_ranks_at_local[hostname] raises KeyError on a missing key
abbrev pub get_item : Option ℕ → Result ℕ
get_item none = err key_error
get_item (some c) = ok c

-- for local_rank, rank in enumerate(ranks)
unfoldable pub host_slots : Plan → String → ℕ → ℕ → List ℕ → Result (List SlotInfo)
host_slots p hostname local_size local_rank [] = ok []
host_slots p hostname local_size local_rank (rank ∷ ranks) = do
  let at = at_local p.cross local_rank
  cross_rank ← get_item (lookup hostname at)
  rest ← host_slots p hostname local_size (suc local_rank) ranks
  ok (
      record {
        hostname = hostname;
        rank = rank;
        local_rank = local_rank;
        cross_rank = cross_rank;
        size = p.world_size;
        local_size = local_size;
        cross_size = length at;
      }
      ∷ rest)

-- for host_info, ranks in host_ranks
unfoldable pub alloc_list : Plan → HostRanks → Result (List SlotInfo)
alloc_list p [] = ok []
alloc_list p ((h, ranks) ∷ host_ranks) = do
  slots ← host_slots p h.hostname (length ranks) 0 ranks
  rest ← alloc_list p host_ranks
  ok (slots ++ rest)

abbrev pub no_plan : Plan
no_plan = record { world_size = 0; host_ranks = []; cross = [] }

unfoldable pub get_host_assignments : List HostInfo → ℕ → Option ℕ → Result (List SlotInfo)
get_host_assignments hosts min_np max_np =
    let p = fill_hosts max_np hosts no_plan in
    if ltb p.world_size min_np then err not_enough_slots else alloc_list p p.host_ranks
