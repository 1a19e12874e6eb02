-- ===== src/Hosts/Refine.antt =====
-- `get_host_assignments` meets its specification.
use horovod.Common.{
  ℕ, suc, ◌+◌, ◌≤◌, ◌<◌, ◌≡◌, refl, false, Option, none, some, List, [], ◌∷◌, ◌++◌, append_assoc,
  length, arith, ltb, if◌then◌else◌, rank_key, host_key, lt→ltb,
}
use native.Mathlib.Nat.{zero-add}
use horovod.Common.Dict.{contains, Nodup, Nodup-middle, lookup}
use horovod.Hosts.{HostInfo, ok, err, not_enough_slots}
use horovod.Hosts.Assign.{
  Plan, HostRanks, at_local, host_slots, alloc_list, fill_hosts, no_plan, get_host_assignments,
}
use horovod.Hosts.Columns.{
  rank_names-append, Within, column, rank_names, column-append, length-numbered, lookup-column,
  contains-column,
}
use horovod.Hosts.Filling.{
  names, filling, IsNumbered, Apart, world_size-fill_hosts, host_ranks-fill_hosts,
  IsNumbered-fill_hosts, rank_names-filling,
}
use horovod.Hosts.Spec.{spec_host, spec_list, world_of, assignment}

pub column_at :
    (l : ℕ) (before : HostRanks) (h : HostInfo) (ranks : List ℕ) (after : HostRanks)
    → l < length ranks
    → column l (before ++ (h, ranks) ∷ after) ≡ column l before ++ h.hostname ∷ column l after
column_at l before h ranks after below =
    rw (column-append l before ((h, ranks) ∷ after), lt→ltb l (length ranks) below)

module _ (p : Plan) (inv : IsNumbered p) where
  host_slots-eq-spec_host :
      (before : HostRanks) (h : HostInfo) (ranks : List ℕ) (after : HostRanks)
      → p.host_ranks ≡ before ++ (h, ranks) ∷ after
      → contains h.hostname (rank_names before) ≡ false
      → (n l : ℕ) (rs : List ℕ) → l + length rs ≤ length ranks
      → host_slots p h.hostname n l rs
        ≡ ok (spec_host p.world_size p.host_ranks before h.hostname n l rs)
  unfolding host_slots
  host_slots-eq-spec_host before h ranks after e fresh n l [] fits = refl
  host_slots-eq-spec_host before h ranks after e fresh n l (r ∷ rs) fits =
      let here = column_at l before h ranks after (omega arith) in
      let found : lookup h.hostname (at_local p.cross l) ≡ some (length (column l before)) = rw (
        inv l,
        e,
        here,
        lookup-column h.hostname 0 (column l before) (column l after)
            (contains-column h.hostname l before fresh),
        zero-add,
      ) in
      let rest = host_slots-eq-spec_host before h ranks after e fresh n (suc l) rs (omega arith) in
      rw (found, rest, inv l, length-numbered)

  alloc_list-eq-spec_list :
      (before hr : HostRanks)
      → p.host_ranks ≡ before ++ hr
      → Nodup (rank_names (before ++ hr))
      → alloc_list p hr ≡ ok (spec_list p.world_size p.host_ranks before hr)
  unfolding alloc_list
  alloc_list-eq-spec_list before [] e nd = refl
  alloc_list-eq-spec_list before ((h, ranks) ∷ hr) e nd =
      let nd' : Nodup (rank_names before ++ h.hostname ∷ rank_names hr) =
        rw (rank_names-append before ((h, ranks) ∷ hr)) at nd in
      let fresh = Nodup-middle h.hostname (rank_names before) (rank_names hr) nd' in
      let slots =
        host_slots-eq-spec_host before h ranks hr e fresh (length ranks) 0 ranks (omega arith) in
      let e' = append_assoc before ((h, ranks) ∷ []) hr in
      let rest = alloc_list-eq-spec_list (before ++ (h, ranks) ∷ []) hr (rw e' e) (rw e' nd) in
      rw (slots, rest)

Apart-nil : (hosts : List HostInfo) → Apart [] hosts
unfolding contains
Apart-nil [] = tt
Apart-nil (h ∷ hosts) = (refl, Apart-nil hosts)

pub no_room : (max_np : Option ℕ) → Within max_np 0
no_room none = tt
no_room (some m) = omega arith

-- With distinct host names the function raises ValueError exactly when fewer than `min_np` ranks
-- can be given, never a KeyError, and otherwise returns the specified assignment.
pub get_host_assignments-eq-assignment :
    (hosts : List HostInfo) (min_np : ℕ) (max_np : Option ℕ)
    → Nodup (names hosts)
    → get_host_assignments hosts min_np max_np ≡ (
        if ltb (world_of hosts max_np) min_np
        then err not_enough_slots
        else ok (assignment hosts max_np))
unfolding get_host_assignments
get_host_assignments-eq-assignment hosts min_np max_np nd =
    let w = no_room max_np in
    let p = fill_hosts max_np hosts no_plan in
    let size : p.world_size ≡ world_of hosts max_np =
      rw (world_size-fill_hosts max_np hosts no_plan w, zero-add) in
    let filled : p.host_ranks ≡ filling max_np 0 hosts =
      host_ranks-fill_hosts max_np hosts no_plan w in
    let inv =
      IsNumbered-fill_hosts max_np hosts no_plan w nd (Apart-nil hosts)
        (λ l. unfold lookup in refl) in
    let all =
      alloc_list-eq-spec_list p inv [] p.host_ranks refl
        (rw (filled, rank_names-filling max_np 0 hosts) nd) in
    rw (all, size, filled)
