-- ===== src/Ray/Names.antt =====
-- horovod/ray/runner.py, node_id_string: the hosts that the string stands for.
use horovod.Common.{
  ℕ, ◌+◌, ◌<◌, ◌≡◌, refl, ap, some, String, List, [], ◌∷◌, length, map, All, arith,
}
use horovod.Common.Dict.{Dict, keys}
use horovod.Common.Text.{◌+++◌, str}
use horovod.Hosts.{HostInfo}
use horovod.Hosts.Filling.{total_slots, names}
use horovod.Hosts.Parse.{parse_hosts, join}
use horovod.Hosts.Print.{IsClean, host_string, parse_hosts-hosts_string}
use horovod.Ray.{node_strings, sum_lengths}

-- The hosts that the string of the nodes stands for.
unfoldable pub node_hosts : Dict String (List ℕ) → List HostInfo
node_hosts [] = []
node_hosts ((node, ranks) ∷ nodes) =
    record { hostname = node; slots = length ranks } ∷ node_hosts nodes

map-host_string :
    (nodes : Dict String (List ℕ)) → map host_string (node_hosts nodes) ≡ node_strings nodes
unfolding node_hosts node_strings
map-host_string [] = refl
map-host_string ((node, ranks) ∷ nodes) =
    ap (λ t. (node +++ (":" +++ str (length ranks))) ∷ t) (map-host_string nodes)

All-node_hosts :
    (nodes : Dict String (List ℕ))
    → All IsClean (keys nodes)
    → All (λ h. IsClean h.hostname) (node_hosts nodes)
unfolding node_hosts
All-node_hosts [] a = tt
All-node_hosts ((node, ranks) ∷ nodes) (clean, a) = (clean, All-node_hosts nodes a)

pub parse_hosts-node_strings :
    (nodes : Dict String (List ℕ))
    → 0 < length nodes
    → All IsClean (keys nodes)
    → parse_hosts (join "," (node_strings nodes)) ≡ some (node_hosts nodes)
unfolding node_hosts node_strings
parse_hosts-node_strings [] h a = absurd (omega arith)
parse_hosts-node_strings ((node, ranks) ∷ nodes) h a =
    let first : HostInfo = record { hostname = node; slots = length ranks } in
    rw (← map-host_string nodes)
      (parse_hosts-hosts_string first (node_hosts nodes) (All-node_hosts ((node, ranks) ∷ nodes) a))

pub total_slots-node_hosts :
    (nodes : Dict String (List ℕ)) → total_slots (node_hosts nodes) ≡ sum_lengths nodes
unfolding node_hosts sum_lengths
total_slots-node_hosts [] = refl
total_slots-node_hosts ((node, ranks) ∷ nodes) =
    ap (λ n. length ranks + n) (total_slots-node_hosts nodes)

pub names-node_hosts : (nodes : Dict String (List ℕ)) → names (node_hosts nodes) ≡ keys nodes
unfolding node_hosts
names-node_hosts [] = refl
names-node_hosts ((node, ranks) ∷ nodes) = ap (λ ns. node ∷ ns) (names-node_hosts nodes)
