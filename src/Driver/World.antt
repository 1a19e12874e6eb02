-- ===== src/Driver/World.antt =====
-- horovod/runner/elastic/driver.py: the world after an activation, and the notification of changed
-- hosts.
use horovod.Common.{
  ℕ, ◌≤◌, ◌≡◌, refl, sym, ap, ◌∙◌, Option, some, none, List, length, arith, Bool-cases, inl, inr,
  length-range_from, leb, leb→le, host_key,
}
use horovod.Common.Dict.{Nodup}
use horovod.Hosts.{SlotInfo}
use horovod.Hosts.Spec.{world_of}
use horovod.Hosts.Filling.{names, total_slots}
use horovod.Hosts.Columns.{Within, room}
use horovod.Hosts.Ranks.{ranks-get_host_assignments}
use horovod.Discovery.{DiscoveredHosts, HostManager, count_available_slots}
use horovod.Registry.{reset}
use horovod.Rendezvous.{init}
use horovod.DriverService.{Addresses}
use horovod.Driver.{ElasticDriver, ok, host_list, driver_assignments, update_host_assignments}
use horovod.Driver.Wait.{activate_workers}
use horovod.Driver.Notify.{next_assignments, notify_workers_host_changes}
use horovod.Driver.Groups.{names-host_list}
use horovod.Driver.Slots.{update_cases, length-ranks_of}
use horovod.Driver.Activate.{with_reset, then_ok_returns, assigns}

Within-room : (max_np : Option ℕ) (total : ℕ) → Within max_np (room max_np 0 total)
Within-room none total = tt
Within-room (some m) total = omega arith

-- After an activation over distinct hosts the registry waits for exactly the workers of the new
-- world, in a new rendezvous; the world has at least `min_np` workers and at most `max_np`; and the
-- rendezvous server has been initialised with a plan of that many slots.
activate_workers-reset :
    (d : ElasticDriver) (m : HostManager) (d' : ElasticDriver) (pending : List SlotInfo)
    → Nodup m.found.host_assignment_order
    → activate_workers m d ≡ ok (d', pending)
    → (d'.registry ≡ reset d'.world_size d.registry)
      × (d.min_np ≤ d'.world_size)
      × Within d.max_np d'.world_size
      × (slots : List SlotInfo) × (length slots ≡ d'.world_size)
      × (d'.rendezvous ≡ init slots d.rendezvous)
unfolding activate_workers with_reset
activate_workers-reset d m d' pending nd e =
    let r = update_host_assignments (record d { manager = m }) m.found in
    let ((u, starts), f, g) = then_ok_returns r with_reset (d', pending) e in
    let up = update_cases (record d { manager = m }) m.found u starts f in
    let hosts = host_list m.found m.found.host_assignment_order in
    let nd' : Nodup (names hosts) = rw (names-host_list m.found m.found.host_assignment_order) nd in
    let world = world_of hosts d.max_np in
    let (rs, least) = ranks-get_host_assignments hosts d.min_np d.max_np up.slots nd' up.assigned in
    let n : length up.slots ≡ world =
      sym (length-ranks_of up.slots) ∙ ap length rs ∙ length-range_from 0 world in
    let gd : record u { registry = reset u.world_size u.registry } ≡ d' = ap (λ p. p.0) g in
    rw (sym gd, up.driver)
      (refl, rw n least, rw n (Within-room d.max_np (total_slots hosts)), up.slots, refl, refl)

-- A notification about distinct hosts never raises, even when there are too few slots: the method
-- then compares with an empty assignment.
pub notify_workers_host_changes_total :
    (d : ElasticDriver) (current : DiscoveredHosts)
    → Nodup current.host_assignment_order
    → Within d.max_np d.min_np
    → (answer : Option Addresses) × (notify_workers_host_changes d current ≡ ok answer)
unfolding notify_workers_host_changes next_assignments driver_assignments
notify_workers_host_changes_total d current nd w =
    elim (Bool-cases (leb d.min_np (count_available_slots current))) [
      | inl many ↦
          let (slots, a) =
            assigns d current nd w (leb→le d.min_np (count_available_slots current) many) in
          rw (many, a) (_, refl)
      | inr few ↦ rw few (_, refl)
    ]
