-- ===== src/Ray/Plan.antt =====
-- horovod/ray/runner.py: the places that the workers are told and the plan of the rendezvous server
-- are the same.
use horovod.Common.{
  ℕ, suc, ◌+◌, ◌<◌, ◌≡◌, refl, sym, ap, ◌∙◌, String, true, false, none, some, List, [], ◌∷◌, ◌++◌,
  length, get_elem?, get_elem?-below, ltb, length-range_from, ◌=?◌, rank_key, host_key, arith, All,
  All-append, append_assoc, same_refl, Bool-cases, inl, inr, str_iff,
}
use horovod.Common.Dict.{Dict, keys, contains, lookup, Nodup}
use horovod.Hosts.{SlotInfo, ok}
use horovod.Hosts.Assign.{HostRanks}
use horovod.Hosts.Columns.{column}
use horovod.Hosts.Filling.{filling}
use horovod.Hosts.Spec.{spec_host, spec_list, world_of, assignment}
use horovod.Hosts.Refine.{get_host_assignments-eq-assignment}
use horovod.Ray.{
  Coordinator, or_nil, sum_lengths, world_size, node_id_string, Place, finalize_registration,
  host_alloc_plan,
}
use horovod.Hosts.Print.{IsClean}
use horovod.Ray.Names.{
  node_hosts, parse_hosts-node_strings, total_slots-node_hosts, names-node_hosts,
}
use horovod.Ray.Counting.{tall, all_ranks}
use horovod.Ray.Finalize.{place_at, finalize_registration-place, finalize_registration_total}

-- The same nodes with as many ranks each.
abbrev IsAlike : HostRanks → Dict String (List ℕ) → Type 0
IsAlike [] [] = Unit
IsAlike ((h, rs) ∷ hr) ((node, ranks) ∷ nodes) =
    (h.hostname ≡ node) × (length rs ≡ length ranks) × IsAlike hr nodes
IsAlike hr nodes = ⊥

column-tall :
    (l : ℕ) (hr : HostRanks) (nodes : Dict String (List ℕ))
    → IsAlike hr nodes
    → length (column l hr) ≡ tall l nodes
unfolding tall
column-tall l [] [] a = refl
column-tall l [] (n ∷ nodes) a = absurd a
column-tall l (h ∷ hr) [] a = absurd a
column-tall l ((h, rs) ∷ hr) ((node, ranks) ∷ nodes) (_, e, a) =
    ground (arith, column-tall l hr nodes a, e)

filling-IsAlike :
    (start : ℕ) (nodes : Dict String (List ℕ))
    → IsAlike (filling none start (node_hosts nodes)) nodes
unfolding node_hosts
filling-IsAlike start [] = tt
filling-IsAlike start ((node, ranks) ∷ nodes) =
    (refl, length-range_from start (length ranks), filling-IsAlike (start + length ranks) nodes)

-- The slot says of the worker at its node and local rank what this worker is told.
abbrev pub IsToldTo : Coordinator → Dict ℕ Place → SlotInfo → Type 0
IsToldTo c p s =
    (rank : ℕ) × (get_elem? (or_nil (lookup s.hostname c.node_id_by_rank)) s.local_rank ≡ some rank)
    × (lookup rank p ≡ some (place_at s.cross_rank s.cross_size s.local_rank s.local_size))

contains_middle :
    (node : String) (ranks : List ℕ) (before after : Dict String (List ℕ))
    → contains node (keys (before ++ (node, ranks) ∷ after)) ≡ true
unfolding contains
contains_middle node ranks [] after = ground (arith, same_refl node)
contains_middle node ranks (n ∷ before) after =
    ground (arith, contains_middle node ranks before after)

lookup_middle :
    (node : String) (ranks : List ℕ) (before after : Dict String (List ℕ))
    → Nodup (keys (before ++ (node, ranks) ∷ after))
    → lookup node (before ++ (node, ranks) ∷ after) ≡ some ranks
unfolding lookup contains
lookup_middle node ranks [] after nd = ground (arith, same_refl node)
lookup_middle node ranks ((n, rs) ∷ before) after (c, nd) = elim (Bool-cases (n =? node)) [
  | inl e ↦
      let there = contains_middle node ranks before after in
      let here : n ≡ node = (str_iff n node).0 e in
      let gone : contains node (keys (before ++ (node, ranks) ∷ after)) ≡ false = rw here at c in cc
  | inr e ↦ rw (e) (lookup_middle node ranks before after nd)
]

module _ (world : ℕ) (all : HostRanks) where
  -- What holds of the slot at every position of a host holds of all of them.
  All-spec_host :
      (P : SlotInfo → Type 0) (before : HostRanks) (node : String) (n l : ℕ) (ranks : List ℕ)
      → ((i r : ℕ)
          → i < length ranks
          → P (record {
            hostname = node;
            rank = r;
            local_rank = l + i;
            cross_rank = length (column (l + i) before);
            size = world;
            local_size = n;
            cross_size = length (column (l + i) all);
          }))
      → All P (spec_host world all before node n l ranks)
  All-spec_host P before node n l [] f = tt
  All-spec_host P before node n l (r ∷ ranks) f =
      let z : l + 0 ≡ l = omega arith in
      (
        (rw z at (f 0 r (omega arith))),
        All-spec_host P before node n (suc l) ranks (λ i r' h.
            let moved : l + suc i ≡ suc l + i = omega arith in
            rw moved at (f (suc i) r' (omega arith))),
      )

IsAlike-append :
    (hr hr' : HostRanks) (nodes nodes' : Dict String (List ℕ))
    → IsAlike hr nodes
    → IsAlike hr' nodes'
    → IsAlike (hr ++ hr') (nodes ++ nodes')
IsAlike-append [] hr' [] nodes' a b = b
IsAlike-append [] hr' (n ∷ nodes) nodes' a b = absurd a
IsAlike-append (h ∷ hr) hr' [] nodes' a b = absurd a
IsAlike-append ((h, rs) ∷ hr) hr' ((n, ranks) ∷ nodes) nodes' (e, f, a) b =
    (e, f, IsAlike-append hr hr' nodes nodes' a b)

module _ (c : Coordinator) (p : Dict ℕ Place) (world : ℕ) (all : HostRanks) where
  told :
      (before : HostRanks) (bn an : Dict String (List ℕ)) (node : String) (ranks : List ℕ) (l r : ℕ)
      → finalize_registration c ≡ some p
      → Nodup (keys c.node_id_by_rank)
      → Nodup (all_ranks c.node_id_by_rank)
      → IsAlike all c.node_id_by_rank
      → IsAlike before bn
      → c.node_id_by_rank ≡ bn ++ (node, ranks) ∷ an
      → l < length ranks
      → IsToldTo c p (record {
        hostname = node;
        rank = r;
        local_rank = l;
        cross_rank = length (column l before);
        size = world;
        local_size = length ranks;
        cross_size = length (column l all);
      })
  told before bn an node ranks l r done names_nd nd alike before_alike split h =
      let (rank, at_l) = get_elem?-below ranks l h in
      let (q, done_too, at_place) =
        finalize_registration-place c bn an node ranks l rank split nd at_l in
      let same : p ≡ q = cc in
      let found : lookup node c.node_id_by_rank ≡ some ranks =
        rw (split) (lookup_middle node ranks bn an (rw split at names_nd)) in
      (
        rank,
        rw (found) at_l,
        rw (same, column-tall l before bn before_alike, column-tall l all c.node_id_by_rank alike)
            at_place,
      )

  All-spec_list :
      (before hr : HostRanks) (bn nodes : Dict String (List ℕ))
      → finalize_registration c ≡ some p
      → Nodup (keys c.node_id_by_rank)
      → Nodup (all_ranks c.node_id_by_rank)
      → IsAlike all c.node_id_by_rank
      → IsAlike before bn
      → IsAlike hr nodes
      → c.node_id_by_rank ≡ bn ++ nodes
      → All (IsToldTo c p) (spec_list world all before hr)
  All-spec_list before [] bn nodes done names_nd nd alike ba a split = tt
  All-spec_list before (h ∷ hr) bn [] done names_nd nd alike ba a split = absurd a
  All-spec_list before ((h, rs) ∷ hr) bn ((node, ranks) ∷ nodes) done names_nd nd alike ba (e, n, a)
        split =
      All-append (IsToldTo c p) (spec_host world all before h.hostname (length rs) 0 rs)
        (spec_list world all (before ++ (h, rs) ∷ []) hr)
        (
          rw (e, n)
              (All-spec_host world all (IsToldTo c p) before node (length ranks) 0 rs (λ i r below.
                told before bn nodes node ranks (0 + i) r done names_nd nd alike ba split
                  (omega (arith, n, below)))),
          All-spec_list (before ++ (h, rs) ∷ []) hr (bn ++ (node, ranks) ∷ []) nodes done names_nd
              nd alike (IsAlike-append before ((h, rs) ∷ []) bn ((node, ranks) ∷ []) ba (e, n, tt))
              a (split ∙ sym (append_assoc bn ((node, ranks) ∷ []) nodes)),
        )

-- With at least one node, node names without white space, commas and colons that are all different,
-- and different world ranks, the registration succeeds, the string of the nodes is parsed and
-- gives a plan for as many workers as have registered, and every slot of the plan has the local
-- rank, local size, cross rank and cross size that the worker registered at this position is told.
pub finalize_registration-host_alloc_plan :
    (c : Coordinator)
    → 0 < length c.node_id_by_rank
    → All IsClean (keys c.node_id_by_rank)
    → Nodup (keys c.node_id_by_rank)
    → Nodup (all_ranks c.node_id_by_rank)
    → (plan : List SlotInfo) × (p : Dict ℕ Place) × (host_alloc_plan c ≡ some (ok plan))
      × (finalize_registration c ≡ some p)
      × All (IsToldTo c p) plan
unfolding world_size host_alloc_plan node_id_string
finalize_registration-host_alloc_plan c some_node clean names_nd nd =
    let nodes = c.node_id_by_rank in
    let hosts = node_hosts nodes in
    let hr = filling none 0 hosts in
    let (p, done) = finalize_registration_total c nd in
    let fits : ltb (world_of hosts none) (sum_lengths nodes) ≡ false =
      ground (arith, total_slots-node_hosts nodes) in
    let planned =
      get_host_assignments-eq-assignment hosts (sum_lengths nodes) none
        (rw (names-node_hosts nodes) names_nd)
      ∙ rw (fits) refl in
    (
      assignment hosts none,
      p,
      rw (host_alloc_plan, parse_hosts-node_strings nodes some_node clean) (ap some planned),
      done,
      All-spec_list c p (world_of hosts none) hr [] hr [] nodes done names_nd nd
          (filling-IsAlike 0 nodes) tt (filling-IsAlike 0 nodes) refl,
    )
