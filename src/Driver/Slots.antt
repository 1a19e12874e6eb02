-- ===== src/Driver/Slots.antt =====
-- What a worker is told about its slot after `_update_host_assignments`.
use horovod.Common.{
  suc, String, ◌≡◌, refl, sym, ap, ◌∙◌, false, not, ◌&&◌, List, [], ◌∷◌, length, if◌then◌else◌,
  host_key, rank_key, slot_key, Bool-cases, inl, inr, All, length-range_from, range_from,
}
use horovod.Common.Dict.{lookup, Nodup, keys}
use horovod.Hosts.{HostInfo, SlotInfo, HostError}
use horovod.Hosts
use horovod.Hosts.Assign.{get_host_assignments}
use horovod.Hosts.Spec.{world_of}
use horovod.Hosts.Filling.{names}
use horovod.Hosts.Ranks.{
  ranks_of, ranks-get_host_assignments, InRange, InRange-get_host_assignments,
}
use horovod.Hosts.Locals.{slots_at, Ordered, get_host_assignments-Ordered}
use horovod.Discovery.{DiscoveredHosts}
use horovod.Rendezvous.{init}
use horovod.Driver.{
  ElasticDriver, Result, ok, err, lift, HostAssignments, slots_or_nil, group, host_list,
  driver_assignments, active_slots, any_common, is_nil, rank_table, pending_slots,
  update_host_assignments, no_previous_host, ◌>>=◌,
}
use horovod.Driver.Groups.{slots-group, names-host_list}

-- A successful update, taken apart.
pub record Updated (d : ElasticDriver) (current : DiscoveredHosts) (d' : ElasticDriver)
    (pending : List SlotInfo) : Type 0 where
  pub slots : List SlotInfo
  pub assigned :
      get_host_assignments (host_list current current.host_assignment_order) d.min_np d.max_np
      ≡ Hosts.ok slots
  pub driver : d' ≡ record d {
    host_assignments = group slots [];
    world_size = length slots;
    rendezvous = init slots d.rendezvous;
    rank_assignments = rank_table slots [];
  }
  pub starts : pending ≡ pending_slots (active_slots d.host_assignments) (group slots [])
  pub common :
      (not (is_nil d.host_assignments)
        && not (any_common (keys d.host_assignments) (keys (group slots []))))
      ≡ false

ok_of :
    ElasticDriver × List SlotInfo
    → Result (ElasticDriver × List SlotInfo)
    → ElasticDriver × List SlotInfo
ok_of p (ok q) = q
ok_of p (err e) = p

-- the last step of the update, over what the assignment returned
pub update_cases :
    (d : ElasticDriver) (current : DiscoveredHosts) (d' : ElasticDriver) (pending : List SlotInfo)
    → update_host_assignments d current ≡ ok (d', pending)
    → Updated d current d' pending
unfolding update_host_assignments driver_assignments ok_of
update_cases d current d' pending e =
    go (get_host_assignments (host_list current current.host_assignment_order) d.min_np d.max_np)
      refl e
  where
    rest : HostAssignments × List SlotInfo → Result (ElasticDriver × List SlotInfo)
    rest (assignments, slots) =
        if not (is_nil d.host_assignments)
          && not (any_common (keys d.host_assignments) (keys assignments))
        then err no_previous_host
        else ok (
          record d {
            host_assignments = assignments;
            world_size = length slots;
            rendezvous = init slots d.rendezvous;
            rank_assignments = rank_table slots [];
          },
          pending_slots (active_slots d.host_assignments) assignments,
        )

    go :
        (r : Hosts.Result (List SlotInfo))
        → get_host_assignments (host_list current current.host_assignment_order) d.min_np d.max_np
          ≡ r
        → (lift r >>= rest) ≡ ok (d', pending)
        → Updated d current d' pending
    go (Hosts.ok slots) r f =
        elim (Bool-cases (
          not (is_nil d.host_assignments)
          && not (any_common (keys d.host_assignments) (keys (group slots []))))) [
            | inl bad ↦ cc (rw bad at f)
            | inr fine ↦
                let f' = rw fine at f in
                record {
                  slots = slots;
                  assigned = r;
                  driver = sym (ap (λ t. (ok_of (d, []) t).0) f');
                  starts = sym (ap (λ t. (ok_of (d, []) t).1) f');
                  common = fine;
                }
          ]
    go (Hosts.err x) r f = cc

pub length-ranks_of : (slots : List SlotInfo) → length (ranks_of slots) ≡ length slots
length-ranks_of [] = refl
length-ranks_of (s ∷ slots) = ap suc (length-ranks_of slots)

-- The tables of a driver hold the slots of one assignment.
pub record Holds (d : ElasticDriver) (slots : List SlotInfo) : Type 0 where
  pub groups : (h : String) → slots_or_nil (lookup h d.host_assignments) ≡ slots_at h slots
  pub ordered : (h : String) → Ordered h 0 (slots_at h slots)
  pub in_range : All (InRange d.world_size) slots
  pub ranks : ranks_of slots ≡ range_from 0 d.world_size
  pub table : d.rank_assignments ≡ rank_table slots []

pub update-Holds :
    (d : ElasticDriver) (current : DiscoveredHosts) (d' : ElasticDriver) (pending : List SlotInfo)
    → Nodup current.host_assignment_order
    → update_host_assignments d current ≡ ok (d', pending)
    → (slots : List SlotInfo) × Holds d' slots
unfolding lookup
update-Holds d current d' pending nd e =
    let u = update_cases d current d' pending e in
    let hosts = host_list current current.host_assignment_order in
    let nd' : Nodup (names hosts) = rw (names-host_list current current.host_assignment_order) nd in
    let world = world_of hosts d.max_np in
    let (rs, _) = ranks-get_host_assignments hosts d.min_np d.max_np u.slots nd' u.assigned in
    let n : length u.slots ≡ world =
      sym (length-ranks_of u.slots) ∙ ap length rs ∙ length-range_from 0 world in
    let ir = InRange-get_host_assignments hosts d.min_np d.max_np u.slots nd' u.assigned in
    let o : (h : String) → Ordered h 0 (slots_at h u.slots) =
      λ h. get_host_assignments-Ordered hosts d.min_np d.max_np u.slots h nd' u.assigned in
    (
      u.slots,
      rw u.driver record {
        groups = λ h. slots-group h u.slots [];
        ordered = o;
        in_range = rw n ir;
        ranks = rw n rs;
        table = refl;
      },
    )
