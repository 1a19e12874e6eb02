-- ===== src/Hosts/Spec.antt =====
-- What `get_host_assignments` promises, with no dictionary: each host takes the next ranks, and its
-- cross rank at a local rank counts the hosts before it that have such a slot.
use horovod.Common.{ℕ, suc, String, Option, List, [], ◌∷◌, ◌++◌, length}
use horovod.Hosts.{HostInfo, SlotInfo}
use horovod.Hosts.Assign.{HostRanks}
use horovod.Hosts.Columns.{room, column}
use horovod.Hosts.Filling.{filling, total_slots}

module _ (world : ℕ) (all : HostRanks) where
  abbrev pub spec_host : HostRanks → String → ℕ → ℕ → List ℕ → List SlotInfo
  spec_host before hostname local_size l [] = []
  spec_host before hostname local_size l (r ∷ ranks) =
      record {
        hostname = hostname;
        rank = r;
        local_rank = l;
        cross_rank = length (column l before);
        size = world;
        local_size = local_size;
        cross_size = length (column l all);
      }
      ∷ spec_host before hostname local_size (suc l) ranks

  abbrev pub spec_list : HostRanks → HostRanks → List SlotInfo
  spec_list before [] = []
  spec_list before ((h, ranks) ∷ hr) =
      spec_host before h.hostname (length ranks) 0 ranks ++ spec_list (before ++ (h, ranks) ∷ []) hr

-- The number of ranks: all slots, or `max_np` of them.
abbrev pub world_of : List HostInfo → Option ℕ → ℕ
world_of hosts max_np = room max_np 0 (total_slots hosts)

abbrev pub assignment : List HostInfo → Option ℕ → List SlotInfo
assignment hosts max_np =
    let hr = filling max_np 0 hosts in spec_list (world_of hosts max_np) hr [] hr
