-- ===== src/Hosts/Filling.antt =====
-- The outer loop of `get_host_assignments`: what it leaves in `host_ranks`, `rank` and `cross_ranks`.
use horovod.Common.{
  ℕ, ◌+◌, String, ◌≡◌, refl, ap, false, Option, none, some, List, [], ◌∷◌, ◌++◌, append_assoc,
  append-nil, length, range_from, arith, ltb, if◌then◌else◌, rank_key, host_key, str_iff,
  Bool-cases, inl, inr, length-range_from,
}
use horovod.Common.Dict.{contains, Nodup, contains-append, insert, insert_fresh}
use native.Mathlib.Nat.{zero-add}
use horovod.Hosts.{HostInfo}
use horovod.Hosts.Assign.{Plan, opening, HostRanks, at_local, visit_host, fill_hosts}
use horovod.Hosts.Columns.{
  rank_names-append, room, Within, column, numbered, rank_names, column-append, numbered-append,
  length-numbered, contains-column, lookup-numbered_absent, rank-take_slots, ranks-take_slots,
  at_local-take_slots,
}

abbrev pub names : List HostInfo → List String
names [] = []
names (h ∷ hosts) = h.hostname ∷ names hosts

abbrev pub total_slots : List HostInfo → ℕ
total_slots [] = 0
total_slots (h ∷ hosts) = h.slots + total_slots hosts

-- The ranks of each host: the next ones, as many as it has slots and `max_np` leaves.
abbrev pub filling : Option ℕ → ℕ → List HostInfo → HostRanks
filling max_np rank [] = []
filling max_np rank (h ∷ hosts) =
    let k = room max_np rank h.slots in (h, range_from rank k) ∷ filling max_np (rank + k) hosts

pub room-add :
    (max_np : Option ℕ) (r a b : ℕ)
    → Within max_np r
    → Within max_np (r + room max_np r a)
      × (room max_np r a + room max_np (r + room max_np r a) b ≡ room max_np r (a + b))
room-add none r a b w = (tt, refl)
room-add (some m) r a b w = omega arith

room_nil : (max_np : Option ℕ) (r : ℕ) → r + room max_np r 0 ≡ r
room_nil none r = omega arith
room_nil (some m) r = omega arith

abbrev pub IsNumbered : Plan → Type 0
IsNumbered p = (l : ℕ) → at_local p.cross l ≡ numbered 0 (column l p.host_ranks)

-- No host of `hosts` is among `ns`.
abbrev pub Apart : List String → List HostInfo → Type 0
Apart ns [] = Unit
Apart ns (h ∷ hosts) = (contains h.hostname ns ≡ false) × Apart ns hosts

Apart-append :
    (ns : List String) (x : String) (hosts : List HostInfo)
    → contains x (names hosts) ≡ false
    → Apart ns hosts
    → Apart (ns ++ x ∷ []) hosts
unfolding contains
Apart-append ns x [] c a = tt
Apart-append ns x (h ∷ hosts) c (a, as') = (
  ground
      (arith, contains-append h.hostname ns (x ∷ []), str_iff x h.hostname, str_iff h.hostname x),
  Apart-append ns x hosts (ground arith) as',
)

module _ (max_np : Option ℕ) where
  world_size-visit_host :
      (p : Plan) (h : HostInfo)
      → Within max_np p.world_size
      → (visit_host max_np p h).world_size ≡ p.world_size + room max_np p.world_size h.slots
  unfolding visit_host
  world_size-visit_host p h w = rank-take_slots max_np h.hostname h.slots 0 (opening p) w

  host_ranks-visit_host :
      (p : Plan) (h : HostInfo)
      → Within max_np p.world_size
      → (visit_host max_np p h).host_ranks
        ≡ p.host_ranks ++ (h, range_from p.world_size (room max_np p.world_size h.slots)) ∷ []
  unfolding visit_host
  host_ranks-visit_host p h w = rw (ranks-take_slots max_np h.hostname h.slots 0 (opening p) w)

  at_local-visit_host :
      (p : Plan) (h : HostInfo) (l : ℕ)
      → Within max_np p.world_size
      → at_local (visit_host max_np p h).cross l ≡ (
          if ltb l (room max_np p.world_size h.slots)
          then insert h.hostname (length (at_local p.cross l)) (at_local p.cross l)
          else at_local p.cross l)
  unfolding visit_host
  at_local-visit_host p h l w =
      ground (arith, at_local-take_slots max_np h.hostname h.slots 0 l (opening p) w)

  IsNumbered-visit_host :
      (p : Plan) (h : HostInfo)
      → Within max_np p.world_size
      → contains h.hostname (rank_names p.host_ranks) ≡ false
      → IsNumbered p
      → IsNumbered (visit_host max_np p h)
  IsNumbered-visit_host p h w fresh inv l =
      let k = room max_np p.world_size h.slots in
      let absent = contains-column h.hostname l p.host_ranks fresh in
      let new =
        insert_fresh h.hostname (length (column l p.host_ranks))
          (numbered 0 (column l p.host_ranks))
          (lookup-numbered_absent h.hostname 0 (column l p.host_ranks) absent) in
      rw
        (
          at_local-visit_host p h l w,
          host_ranks-visit_host p h w,
          inv l,
          length-numbered,
          column-append,
          length-range_from,
        )
        (elim (Bool-cases (ltb l k)) [
          | inl below ↦ rw (below, new, numbered-append) (rw zero-add)
          | inr above ↦ rw above (rw append-nil)
        ])

  pub world_size-fill_hosts :
      (hosts : List HostInfo) (p : Plan)
      → Within max_np p.world_size
      → (fill_hosts max_np hosts p).world_size
        ≡ p.world_size + room max_np p.world_size (total_slots hosts)
  unfolding fill_hosts
  world_size-fill_hosts [] p w = omega (arith, room_nil max_np p.world_size)
  world_size-fill_hosts (h ∷ hosts) p w =
      let e = world_size-visit_host p h w in
      let (w', f) = room-add max_np p.world_size h.slots (total_slots hosts) w in
      rw (world_size-fill_hosts hosts (visit_host max_np p h) (rw e w')) (rw e (omega (arith, f)))

  pub host_ranks-fill_hosts :
      (hosts : List HostInfo) (p : Plan)
      → Within max_np p.world_size
      → (fill_hosts max_np hosts p).host_ranks ≡ p.host_ranks ++ filling max_np p.world_size hosts
  unfolding fill_hosts
  host_ranks-fill_hosts [] p w = rw append-nil
  host_ranks-fill_hosts (h ∷ hosts) p w =
      let e = world_size-visit_host p h w in
      let (w', f) = room-add max_np p.world_size h.slots 0 w in
      rw (host_ranks-fill_hosts hosts (visit_host max_np p h) (rw e w'))
        (rw (host_ranks-visit_host p h w, e, append_assoc))

  pub IsNumbered-fill_hosts :
      (hosts : List HostInfo) (p : Plan)
      → Within max_np p.world_size
      → Nodup (names hosts)
      → Apart (rank_names p.host_ranks) hosts
      → IsNumbered p
      → IsNumbered (fill_hosts max_np hosts p)
  unfolding fill_hosts
  IsNumbered-fill_hosts [] p w nd a inv = inv
  IsNumbered-fill_hosts (h ∷ hosts) p w (c, nd) (b, a) inv =
      let (w', f) = room-add max_np p.world_size h.slots 0 w in
      IsNumbered-fill_hosts hosts (visit_host max_np p h) (rw (world_size-visit_host p h w) w') nd
        (rw (host_ranks-visit_host p h w, rank_names-append)
          (Apart-append (rank_names p.host_ranks) h.hostname hosts c a))
        (IsNumbered-visit_host p h w b inv)

pub rank_names-filling :
    (max_np : Option ℕ) (r : ℕ) (hosts : List HostInfo)
    → rank_names (filling max_np r hosts) ≡ names hosts
rank_names-filling max_np r [] = refl
rank_names-filling max_np r (h ∷ hosts) =
    ap (λ t. h.hostname ∷ t) (rank_names-filling max_np (r + room max_np r h.slots) hosts)
