-- ===== src/Driver/Groups.antt =====
-- What `group`, `rank_table` and `host_list` hold.
use horovod.Common.{
  ℕ, zero, suc, ◌+◌, ◌≤◌, ◌<◌, String, ◌≡◌, ◌≢◌, refl, ap, ◌∙◌, true, some, none, append_assoc,
  append-nil, List, [], ◌∷◌, ◌++◌, arith, ◌=?◌, host_key, rank_key, str_iff, eqb_iff, Bool-cases,
  inl, inr, range_from, eqb, ◌⊎◌, get_elem?, ◌-◌, same_refl,
}
use horovod.Common.Dict.{Dict, lookup, insert, lookup-insert, contains}
use horovod.Hosts.{SlotInfo}
use horovod.Hosts.Locals.{slots_at, slots_at-append, Ordered}
use horovod.Hosts.Filling.{names, total_slots}
use horovod.Hosts.Ranks.{ranks_of}
use horovod.Discovery.{DiscoveredHosts, sum_slots}
use horovod.Driver.{HostAssignments, slots_or_nil, group, host_list, rank_table}

pub slots-group :
    (h : String) (slots : List SlotInfo) (d : HostAssignments)
    → slots_or_nil (lookup h (group slots d)) ≡ slots_or_nil (lookup h d) ++ slots_at h slots
unfolding group
slots-group h [] d = rw append-nil
slots-group h (s ∷ slots) d =
    let d' = insert s.hostname (slots_or_nil (lookup s.hostname d) ++ s ∷ []) d in
    let look = lookup-insert s.hostname h (slots_or_nil (lookup s.hostname d) ++ s ∷ []) d in
    slots-group h slots d'
    ∙ rw look (elim (Bool-cases (s.hostname =? h)) [
      | inl own ↦ rw (own, (str_iff s.hostname h).0 own) (rw append_assoc)
      | inr other ↦ rw other
    ])

-- An entry of the table of ranks has the rank under which it stands, and is one of the slots.
pub lookup-rank_table :
    (r : ℕ) (s : SlotInfo) (slots : List SlotInfo) (d : Dict ℕ SlotInfo)
    → ((t : SlotInfo) → lookup r d ≡ some t → t.rank ≡ r)
    → lookup r (rank_table slots d) ≡ some s
    → s.rank ≡ r
unfolding rank_table
lookup-rank_table r s [] d ok e = ok s e
lookup-rank_table r s (t ∷ slots) d ok e =
    lookup-rank_table r s slots (insert t.rank t d)
      (λ u f. ground (arith, lookup-insert t.rank r t d, eqb_iff t.rank r, f, ok u)) e

-- Every rank of the slots has an entry.
rank_table_keeps :
    (r : ℕ) (slots : List SlotInfo) (d : Dict ℕ SlotInfo)
    → lookup r d ≢ none
    → lookup r (rank_table slots d) ≢ none
unfolding rank_table
rank_table_keeps r [] d has = has
rank_table_keeps r (t ∷ slots) d has =
    rank_table_keeps r slots (insert t.rank t d)
      (λ e. ground (arith, lookup-insert t.rank r t d, has, e))

pub rank_table-has :
    (r : ℕ) (slots : List SlotInfo) (d : Dict ℕ SlotInfo)
    → contains r (ranks_of slots) ≡ true
    → lookup r (rank_table slots d) ≢ none
unfolding rank_table contains
rank_table-has r [] d c = λ _. cc
rank_table-has r (t ∷ slots) d c = elim (Bool-cases (eqb t.rank r)) [
  | inl own ↦
      rank_table_keeps r slots (insert t.rank t d)
        (λ e. ground (arith, lookup-insert t.rank r t d, own, e))
  | inr other ↦ rank_table-has r slots (insert t.rank t d) (rw other at c)
]

pub names-host_list :
    (d : DiscoveredHosts) (hosts : List String) → names (host_list d hosts) ≡ hosts
unfolding host_list
names-host_list d [] = refl
names-host_list d (h ∷ hosts) = ap (λ t. h ∷ t) (names-host_list d hosts)

pub total_slots-host_list :
    (d : DiscoveredHosts) (hosts : List String)
    → total_slots (host_list d hosts) ≡ sum_slots d hosts
unfolding host_list
total_slots-host_list d [] = refl
total_slots-host_list d (h ∷ hosts) = rw (total_slots-host_list d hosts)

pub contains-range_from :
    (r start n : ℕ) → start ≤ r → r < start + n → contains r (range_from start n) ≡ true
unfolding contains
contains-range_from r start zero h k = absurd (omega arith)
contains-range_from r start (suc n) h k = elim (Bool-cases (eqb start r)) [
  | inl here ↦ rw here
  | inr later ↦ rw later (contains-range_from r (suc start) n (ground arith) (omega arith))
]

-- Where an item of a list stands.
pub data Stands {ℓ} {A : Type ℓ} (x : A) (xs : List A) : Type ℓ where
  at : (before after : List A) → xs ≡ before ++ x ∷ after → Stands x xs

Stands-cons {ℓ} : {A : Type ℓ} (x y : A) (xs : List A) → Stands x xs → Stands x (y ∷ xs)
Stands-cons x y xs (at before after e) = at (y ∷ before) after (ap (λ t. y ∷ t) e)

rank_table_from :
    (r : ℕ) (s : SlotInfo) (slots : List SlotInfo) (d : Dict ℕ SlotInfo)
    → lookup r (rank_table slots d) ≡ some s
    → (lookup r d ≡ some s) ⊎ Stands s slots
unfolding rank_table
rank_table_from r s [] d e = inl e
rank_table_from r s (t ∷ slots) d e = elim (rank_table_from r s slots (insert t.rank t d) e) [
  | inl f ↦ elim (Bool-cases (eqb t.rank r)) [
    | inl own ↦
        let e' : t ≡ s = ground (arith, lookup-insert t.rank r t d, own, f) in
        inr (at [] slots (ap (λ u. u ∷ slots) e'))
    | inr other ↦ inl (ground (arith, lookup-insert t.rank r t d, other, f))
  ]
  | inr st ↦ inr (Stands-cons s t slots st)
]

-- The table holds no other slots.
pub rank_table-Stands :
    (r : ℕ) (s : SlotInfo) (slots : List SlotInfo)
    → lookup r (rank_table slots []) ≡ some s
    → Stands s slots
unfolding lookup
rank_table-Stands r s slots e = elim (rank_table_from r s slots [] e) [ inl f ↦ cc | inr st ↦ st ]

Ordered-middle :
    (h : String) (l : ℕ) (before after : List SlotInfo) (s : SlotInfo)
    → Ordered h l (before ++ s ∷ after)
    → get_elem? (before ++ s ∷ after) (s.local_rank - l) ≡ some s × (l ≤ s.local_rank)
Ordered-middle h l [] after s (n, e, o) =
    let z : s.local_rank - l ≡ 0 = omega arith in (rw z, omega arith)
Ordered-middle h l (t ∷ before) after s (n, e, o) =
    let (g, le) = Ordered-middle h (suc l) before after s o in
    let z : s.local_rank - l ≡ suc (s.local_rank - suc l) = omega arith in (rw z g, omega arith)

-- A slot stands at its local rank among those of its host.
pub get_elem?-local_rank :
    (slots : List SlotInfo) (s : SlotInfo)
    → Stands s slots
    → Ordered s.hostname 0 (slots_at s.hostname slots)
    → get_elem? (slots_at s.hostname slots) s.local_rank ≡ some s
get_elem?-local_rank slots s (at before after e) o =
    let h = s.hostname in
    let e' : slots_at h slots ≡ slots_at h before ++ s ∷ slots_at h after =
      rw (e, slots_at-append h before (s ∷ after), same_refl h) in
    let o' : Ordered h 0 (slots_at h before ++ s ∷ slots_at h after) = rw e' at o in
    let (g, _) = Ordered-middle h 0 (slots_at h before) (slots_at h after) s o' in
    let z : s.local_rank - 0 ≡ s.local_rank = omega arith in rw e' (rw z at g)
