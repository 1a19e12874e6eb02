-- ===== src/Hosts/Ranks.antt =====
-- The ranks that `get_host_assignments` hands out.
use horovod.Common.{
  ℕ, suc, ◌+◌, ◌≤◌, ◌<◌, String, ◌≡◌, refl, ap, Option, List, [], ◌∷◌, ◌++◌, append_assoc, length,
  range_from, arith, ltb, All, All-append, All-split, All-range_from, length-append, rank_key,
  host_key, Bool-cases, inl, inr, range_from-append, length-range_from,
}
use horovod.Common.Dict.{Nodup}
use horovod.Hosts.{HostInfo, SlotInfo, ok}
use horovod.Hosts.Assign.{HostRanks, get_host_assignments}
use horovod.Hosts.Columns.{room, room_zero, Within, column}
use horovod.Hosts.Filling.{names, total_slots, filling, room-add}
use horovod.Hosts.Spec.{spec_host, spec_list, world_of, assignment}
use horovod.Hosts.Refine.{get_host_assignments-eq-assignment, column_at, no_room}

-- What a successful call returns.
pub get_host_assignments-eq-ok :
    (hosts : List HostInfo) (min_np : ℕ) (max_np : Option ℕ) (slots : List SlotInfo)
    → Nodup (names hosts)
    → get_host_assignments hosts min_np max_np ≡ ok slots
    → (slots ≡ assignment hosts max_np) × (min_np ≤ world_of hosts max_np)
get_host_assignments-eq-ok hosts min_np max_np slots nd h =
    let e = get_host_assignments-eq-assignment hosts min_np max_np nd in
    elim (Bool-cases (ltb (world_of hosts max_np) min_np)) [
      | inl few ↦ ground (arith, e)
      | inr many ↦ ground (arith, e)
    ]

abbrev pub ranks_of : List SlotInfo → List ℕ
ranks_of [] = []
ranks_of (s ∷ slots) = s.rank ∷ ranks_of slots

ranks_of-append : (xs ys : List SlotInfo) → ranks_of (xs ++ ys) ≡ ranks_of xs ++ ranks_of ys
ranks_of-append [] ys = refl
ranks_of-append (x ∷ xs) ys = ap (λ t. x.rank ∷ t) (ranks_of-append xs ys)

abbrev all_ranks : HostRanks → List ℕ
all_ranks [] = []
all_ranks ((h, ranks) ∷ hr) = ranks ++ all_ranks hr

module _ (world : ℕ) (all : HostRanks) where
  ranks-spec_host :
      (before : HostRanks) (x : String) (n l : ℕ) (rs : List ℕ)
      → ranks_of (spec_host world all before x n l rs) ≡ rs
  ranks-spec_host before x n l [] = refl
  ranks-spec_host before x n l (r ∷ rs) = ap (λ t. r ∷ t) (ranks-spec_host before x n (suc l) rs)

  ranks-spec_list :
      (before hr : HostRanks) → ranks_of (spec_list world all before hr) ≡ all_ranks hr
  ranks-spec_list before [] = refl
  ranks-spec_list before ((h, ranks) ∷ hr) =
      rw (ranks_of-append, ranks-spec_host, ranks-spec_list (before ++ (h, ranks) ∷ []) hr)

all_ranks-filling :
    (max_np : Option ℕ) (r : ℕ) (hosts : List HostInfo)
    → Within max_np r
    → all_ranks (filling max_np r hosts) ≡ range_from r (room max_np r (total_slots hosts))
all_ranks-filling max_np r [] w = rw (room_zero max_np r)
all_ranks-filling max_np r (h ∷ hosts) w =
    let (w', e) = room-add max_np r h.slots (total_slots hosts) w in
    rw (all_ranks-filling max_np (r + room max_np r h.slots) hosts w', range_from-append, e)

-- The ranks are 0, 1, …, in order, one for each process, and at least `min_np` of them.
pub ranks-get_host_assignments :
    (hosts : List HostInfo) (min_np : ℕ) (max_np : Option ℕ) (slots : List SlotInfo)
    → Nodup (names hosts)
    → get_host_assignments hosts min_np max_np ≡ ok slots
    → (ranks_of slots ≡ range_from 0 (world_of hosts max_np)) × (min_np ≤ world_of hosts max_np)
ranks-get_host_assignments hosts min_np max_np slots nd h =
    let (e, enough) = get_host_assignments-eq-ok hosts min_np max_np slots nd h in
    (rw (e, ranks-spec_list, all_ranks-filling max_np 0 hosts (no_room max_np)), enough)

-- The numbers of a slot lie in their ranges.
pub record InRange (world : ℕ) (s : SlotInfo) : Type 0 where
  pub size : s.size ≡ world
  pub rank : s.rank < s.size
  pub local_rank : s.local_rank < s.local_size
  pub local_size : s.local_size ≤ s.size
  pub cross_rank : s.cross_rank < s.cross_size

module _ (world : ℕ) (all : HostRanks) where
  InRange-spec_host :
      (before : HostRanks) (h : HostInfo) (ranks : List ℕ) (after : HostRanks)
      → all ≡ before ++ (h, ranks) ∷ after
      → length ranks ≤ world
      → (l : ℕ) (rs : List ℕ) → l + length rs ≤ length ranks
      → All (λ r. r < world) rs
      → All (InRange world) (spec_host world all before h.hostname (length ranks) l rs)
  InRange-spec_host before h ranks after e small l [] fits below = tt
  InRange-spec_host before h ranks after e small l (r ∷ rs) fits below =
      let col : column l all ≡ column l before ++ h.hostname ∷ column l after =
        rw e (column_at l before h ranks after (omega arith)) in
      let count : length (column l before) < length (column l all) =
        rw (col, length-append) (omega arith) in
      (
        record {
          size = refl;
          rank = below.0;
          local_rank = omega arith;
          local_size = small;
          cross_rank = count;
        },
        InRange-spec_host before h ranks after e small (suc l) rs (omega arith) below.1,
      )

  InRange-spec_list :
      (before hr : HostRanks)
      → all ≡ before ++ hr
      → length (all_ranks hr) ≤ world
      → All (λ r. r < world) (all_ranks hr)
      → All (InRange world) (spec_list world all before hr)
  InRange-spec_list before [] e small below = tt
  InRange-spec_list before ((h, ranks) ∷ hr) e small below =
      let (here, later) = All-split (λ r. r < world) ranks (all_ranks hr) below in
      let n = length-append ranks (all_ranks hr) in
      All-append (InRange world) (spec_host world all before h.hostname (length ranks) 0 ranks)
        (spec_list world all (before ++ (h, ranks) ∷ []) hr)
        (
          InRange-spec_host before h ranks hr e (omega (arith, n)) 0 ranks (omega arith) here,
          InRange-spec_list (before ++ (h, ranks) ∷ []) hr
              (rw (append_assoc before ((h, ranks) ∷ []) hr) e) (omega (arith, n)) later,
        )

-- When the names of the hosts are different, each slot's rank is below the world size, its local rank
-- below the local size, which is not above the world size, and its cross rank below the cross size;
-- every slot has the same world size.
pub InRange-get_host_assignments :
    (hosts : List HostInfo) (min_np : ℕ) (max_np : Option ℕ) (slots : List SlotInfo)
    → Nodup (names hosts)
    → get_host_assignments hosts min_np max_np ≡ ok slots
    → All (InRange (world_of hosts max_np)) slots
InRange-get_host_assignments hosts min_np max_np slots nd h =
    let (e, enough) = get_host_assignments-eq-ok hosts min_np max_np slots nd h in
    let hr = filling max_np 0 hosts in
    let world = world_of hosts max_np in
    let filled = all_ranks-filling max_np 0 hosts (no_room max_np) in
    rw e (
      InRange-spec_list world hr [] hr refl (rw (filled, length-range_from) (omega arith))
        (rw filled (All-range_from 0 world world (omega arith))))
