-- ===== src/Driver/Answers.antt =====
-- horovod/runner/elastic/driver.py, get_slot_info: what a worker is told about its slot.
use horovod.Common.{
  ℕ, zero, suc, ◌<◌, String, ◌≡◌, ◌≢◌, true, false, Option, some, none, List, [], ◌∷◌, length,
  get_elem?, get_elem?-All, get_elem?-below, arith, ltb, ◌=?◌, host_key, rank_key, slot_key,
  Bool-cases, inl, inr, All, ltb→lt,
}
use horovod.Common.Dict.{lookup, Nodup}
use horovod.Hosts.{SlotInfo}
use horovod.Hosts.Ranks.{InRange}
use horovod.Hosts.Locals.{slots_at, Ordered-get_elem?}
use horovod.Discovery.{DiscoveredHosts, is_blacklisted}
use horovod.Driver.{
  ElasticDriver, ok, slots_or_nil, rank_table, update_host_assignments, in_bounds,
  has_rank_assignment, SlotAnswer, found, invalid, index_error, get_slot_info,
}
use horovod.Driver.Groups.{
  lookup-rank_table, rank_table-has, contains-range_from, rank_table-Stands, get_elem?-local_rank,
}
use horovod.Driver.Slots.{Holds, update-Holds}

All-slots_at :
    (P : SlotInfo → Type 0) (h : String) (slots : List SlotInfo)
    → All P slots
    → All P (slots_at h slots)
All-slots_at P h [] a = tt
All-slots_at P h (s ∷ slots) a = elim (Bool-cases (s.hostname =? h)) [
  | inl own ↦ rw own (a.0, All-slots_at P h slots a.1)
  | inr other ↦ rw other (All-slots_at P h slots a.1)
]

-- A worker asks for its own slot: the answer is not an IndexError, and a slot that is found is that
-- of the asker, in a world of the current size.
abbrev pub IsAnswerFor : String → ℕ → ℕ → SlotAnswer → Type 0
IsAnswerFor host slot world (found s) =
    (s.hostname ≡ host) × (s.local_rank ≡ slot) × InRange world s
IsAnswerFor host slot world invalid = Unit
IsAnswerFor host slot world index_error = false ≡ true

in_bounds-lt :
    (o : Option (List SlotInfo)) (slot : ℕ)
    → in_bounds o slot ≡ true
    → slot < length (slots_or_nil o)
in_bounds-lt none slot e = cc
in_bounds-lt (some slots) slot e = ltb→lt slot (length slots) e

answer_of :
    (d : ElasticDriver) (slots : List SlotInfo) (host : String) (slot : ℕ)
    → Holds d slots
    → IsAnswerFor host slot d.world_size (get_slot_info d host slot)
unfolding get_slot_info has_rank_assignment
answer_of d slots host slot hd = elim (Bool-cases (is_blacklisted d.manager host)) [
  | inl black ↦ rw black tt
  | inr white ↦ elim (Bool-cases (in_bounds (lookup host d.host_assignments) slot)) [
    | inl inside ↦
        let lt =
          rw (hd.groups host) at (in_bounds-lt (lookup host d.host_assignments) slot inside) in
        let (s, g) = get_elem?-below (slots_at host slots) slot lt in
        let (n, r) = Ordered-get_elem? host 0 slot (slots_at host slots) s (hd.ordered host) g in
        let ir =
          get_elem?-All (InRange d.world_size) (slots_at host slots) slot s
            (All-slots_at (InRange d.world_size) host slots hd.in_range) g in
        rw (white, inside, hd.groups host, g) (n, omega arith, ir)
    | inr outside ↦ rw (white, outside) tt
  ]
]

-- After a successful update over distinct hosts, whoever asks for a slot gets no IndexError, and a
-- slot that is found has the asker's host name and local rank, with all its numbers in their ranges.
pub get_slot_info-update_host_assignments :
    (d : ElasticDriver) (current : DiscoveredHosts) (d' : ElasticDriver) (pending : List SlotInfo)
    (host : String) (slot : ℕ)
    → Nodup current.host_assignment_order
    → update_host_assignments d current ≡ ok (d', pending)
    → IsAnswerFor host slot d'.world_size (get_slot_info d' host slot)
get_slot_info-update_host_assignments d current d' pending host slot nd e =
    let (slots, hd) = update-Holds d current d' pending nd e in answer_of d' slots host slot hd

in_bounds-elem :
    (o : Option (List SlotInfo)) (i : ℕ) (s : SlotInfo)
    → get_elem? (slots_or_nil o) i ≡ some s
    → in_bounds o i ≡ true
in_bounds-elem none i s e = cc
in_bounds-elem (some slots) i s e = go slots i e
  where
    go : (xs : List SlotInfo) (i : ℕ) → get_elem? xs i ≡ some s → ltb i (length xs) ≡ true
    go [] i e = cc
    go (x ∷ xs) zero e = ground arith
    go (x ∷ xs) (suc i) e = ground (arith, go xs i e)

-- After a successful update over distinct hosts, the slot in the table of ranks under a rank has
-- that rank, and its worker, if the host is not blacklisted, is given this very slot.
rank_assignments-get_slot_info :
    (d : ElasticDriver) (current : DiscoveredHosts) (d' : ElasticDriver) (pending : List SlotInfo)
    (r : ℕ) (s : SlotInfo)
    → Nodup current.host_assignment_order
    → update_host_assignments d current ≡ ok (d', pending)
    → lookup r d'.rank_assignments ≡ some s
    → is_blacklisted d'.manager s.hostname ≡ false
    → (s.rank ≡ r) × (get_slot_info d' s.hostname s.local_rank ≡ found s)
unfolding get_slot_info has_rank_assignment lookup
rank_assignments-get_slot_info d current d' pending r s nd e look white =
    let (slots, hd) = update-Holds d current d' pending nd e in
    let look' : lookup r (rank_table slots []) ≡ some s = rw hd.table at look in
    let g =
      get_elem?-local_rank slots s (rank_table-Stands r s slots look') (hd.ordered s.hostname) in
    let g' : get_elem? (slots_or_nil (lookup s.hostname d'.host_assignments)) s.local_rank
        ≡ some s =
      rw (hd.groups s.hostname) g in
    let inside = in_bounds-elem (lookup s.hostname d'.host_assignments) s.local_rank s g' in
    (lookup-rank_table r s slots [] (λ u f. cc) look', rw (white, inside, g'))

-- After a successful update over distinct hosts, every rank of the world has a slot: in particular
-- there is a coordinator unless the world is empty.
pub rank_assignments_full :
    (d : ElasticDriver) (current : DiscoveredHosts) (d' : ElasticDriver) (pending : List SlotInfo)
    (r : ℕ)
    → Nodup current.host_assignment_order
    → update_host_assignments d current ≡ ok (d', pending)
    → r < d'.world_size
    → lookup r d'.rank_assignments ≢ none
rank_assignments_full d current d' pending r nd e below =
    let (slots, hd) = update-Holds d current d' pending nd e in
    rw hd.table (
      rank_table-has r slots []
        (rw hd.ranks (contains-range_from r 0 d'.world_size (ground arith) (omega arith))))
