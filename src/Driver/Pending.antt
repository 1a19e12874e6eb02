-- ===== src/Driver/Pending.antt =====
-- horovod/runner/elastic/driver.py: the slots that an update starts, and the hosts that it keeps.
use horovod.Common.{
  String, ◌≡◌, refl, ap, true, false, not, ◌&&◌, List, [], ◌∷◌, ◌++◌, arith, ◌=?◌, host_key,
  slot_key, pair_same_iff, str_iff, same_refl, Bool-cases, inl, inr, All, All-append,
}
use horovod.Common.Dict.{lookup, insert, contains, contains-append, keys}
use horovod.Hosts.{SlotInfo}
use horovod.Discovery.{DiscoveredHosts}
use horovod.Registry.{Slot}
use horovod.Driver.{
  ElasticDriver, ok, HostAssignments, slots_or_nil, group, active_slots, local_slots, pending_of,
  pending_slots, update_host_assignments, is_nil, any_common,
}
use horovod.Driver.Slots.{update_cases}

-- The processes of a list of slots.
abbrev pub slot_keys : List SlotInfo → List Slot
slot_keys [] = []
slot_keys (s ∷ slots) = (s.hostname, s.local_rank) ∷ slot_keys slots

-- A slot stands under its own host.
abbrev IsWellKeyed : HostAssignments → Type 0
IsWellKeyed a = All (λ e. All (λ s. s.hostname ≡ e.0) e.1) a

slot_keys-append : (xs ys : List SlotInfo) → slot_keys (xs ++ ys) ≡ slot_keys xs ++ slot_keys ys
slot_keys-append [] ys = refl
slot_keys-append (x ∷ xs) ys = ap (λ t. (x.hostname, x.local_rank) ∷ t) (slot_keys-append xs ys)

lookup-IsWellKeyed :
    (h : String) (a : HostAssignments)
    → IsWellKeyed a
    → All (λ s. s.hostname ≡ h) (slots_or_nil (lookup h a))
unfolding lookup
lookup-IsWellKeyed h [] w = tt
lookup-IsWellKeyed h ((j, slots) ∷ a) (here, w) = elim (Bool-cases (j =? h)) [
  | inl own ↦ rw own (rw ((str_iff j h).0 own) at here)
  | inr other ↦ rw other (lookup-IsWellKeyed h a w)
]

insert-IsWellKeyed :
    (h : String) (slots : List SlotInfo) (a : HostAssignments)
    → All (λ s. s.hostname ≡ h) slots
    → IsWellKeyed a
    → IsWellKeyed (insert h slots a)
unfolding insert
insert-IsWellKeyed h slots [] own w = (own, tt)
insert-IsWellKeyed h slots ((j, old) ∷ a) own (here, w) = elim (Bool-cases (j =? h)) [
  | inl same ↦ rw (same, (str_iff j h).0 same) (own, w)
  | inr other ↦ rw other (here, insert-IsWellKeyed h slots a own w)
]

group-IsWellKeyed :
    (slots : List SlotInfo) (a : HostAssignments) → IsWellKeyed a → IsWellKeyed (group slots a)
unfolding group
group-IsWellKeyed [] a w = w
group-IsWellKeyed (s ∷ slots) a w =
    let old = slots_or_nil (lookup s.hostname a) in
    group-IsWellKeyed slots (insert s.hostname (old ++ s ∷ []) a) (
      insert-IsWellKeyed s.hostname (old ++ s ∷ []) a
        (All-append (λ (t : SlotInfo). t.hostname ≡ s.hostname) old (s ∷ [])
          (lookup-IsWellKeyed s.hostname a w, (refl, tt)))
        w)

module _ (active : List Slot) (k : Slot) where
  pending_of-contains :
      (host : String) (slots : List SlotInfo)
      → All (λ s. s.hostname ≡ host) slots
      → contains k (slot_keys (pending_of active host slots))
        ≡ (contains k (local_slots host slots) && not (contains k active))
  unfolding pending_of local_slots contains
  pending_of-contains host [] w = refl
  pending_of-contains host (s ∷ slots) (own, w) =
      let ih = pending_of-contains host slots w in
      let key : Slot = (host, s.local_rank) in
      elim (Bool-cases (contains key active)) [
        | inl busy ↦ elim (Bool-cases (key =? k)) [
          | inl here ↦
              let same : contains k active ≡ true = rw ((pair_same_iff key k).0 here) at busy in
              rw (busy, ih, here, same) (ground arith)
          | inr other ↦ rw (busy, ih, other) refl
        ]
        | inr free ↦ elim (Bool-cases (key =? k)) [
          | inl here ↦
              let same : contains k active ≡ false = rw ((pair_same_iff key k).0 here) at free in
              rw (free, own, here, same) refl
          | inr other ↦ rw (free, own, other) ih
        ]
      ]

  pending_slots-contains :
      (a : HostAssignments)
      → IsWellKeyed a
      → contains k (slot_keys (pending_slots active a))
        ≡ (contains k (active_slots a) && not (contains k active))
  unfolding pending_slots active_slots contains
  pending_slots-contains [] w = refl
  pending_slots-contains ((host, slots) ∷ a) (here, w) =
      let e = slot_keys-append (pending_of active host slots) (pending_slots active a) in
      ground (
        arith,
        e,
        contains-append k (slot_keys (pending_of active host slots))
            (slot_keys (pending_slots active a)),
        contains-append k (local_slots host slots) (active_slots a),
        pending_of-contains host slots here,
        pending_slots-contains a w,
      )

-- An update starts exactly the slots of the new assignment that the old one did not have.
pub pending-update_host_assignments :
    (d : ElasticDriver) (current : DiscoveredHosts) (d' : ElasticDriver) (pending : List SlotInfo)
    (k : Slot)
    → update_host_assignments d current ≡ ok (d', pending)
    → contains k (slot_keys pending) ≡ (
        contains k (active_slots d'.host_assignments)
        && not (contains k (active_slots d.host_assignments)))
pending-update_host_assignments d current d' pending k e =
    let u = update_cases d current d' pending e in
    rw (u.driver, u.starts)
      (pending_slots-contains (active_slots d.host_assignments) k (group u.slots [])
        (group-IsWellKeyed u.slots [] tt))

any_common-witness :
    (prev next : List String)
    → any_common prev next ≡ true
    → (h : String) × (contains h prev ≡ true) × (contains h next ≡ true)
unfolding any_common contains
any_common-witness [] next e = cc
any_common-witness (h ∷ prev) next e = elim (Bool-cases (contains h next)) [
  | inl here ↦ (h, rw (same_refl h), here)
  | inr missing ↦
      let (j, p, n) = any_common-witness prev next (rw missing at e) in (j, rw p (ground arith), n)
]

-- A later update keeps a host of the assignment before, from which the state can be broadcast.
update_host_assignments_keeps :
    (d : ElasticDriver) (current : DiscoveredHosts) (d' : ElasticDriver) (pending : List SlotInfo)
    → is_nil d.host_assignments ≡ false
    → update_host_assignments d current ≡ ok (d', pending)
    → (h : String) × (contains h (keys d.host_assignments) ≡ true)
      × (contains h (keys d'.host_assignments) ≡ true)
update_host_assignments_keeps d current d' pending some_hosts e =
    let u = update_cases d current d' pending e in
    rw u.driver (
      any_common-witness (keys d.host_assignments) (keys (group u.slots []))
        (ground (arith, u.common, some_hosts)))
