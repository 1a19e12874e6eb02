-- ===== src/Driver/Activate.antt =====
-- horovod/runner/elastic/driver.py: waiting for slots, activating the workers, and the notification
-- of changed hosts.
use horovod.Common.{
  ℕ, ◌≤◌, ◌≡◌, ◌≢◌, refl, sym, ap, true, false, Option, some, none, not, ◌&&◌, List, [], ◌∷◌,
  length, arith, ltb, leb, leb→le, host_key, Bool-cases, inl, inr, and-eq-true,
}
use horovod.Common.Dict.{Nodup, set_of, keys}
use horovod.Hosts.{SlotInfo, HostError}
use horovod.Hosts
use horovod.Hosts.Assign.{get_host_assignments}
use horovod.Hosts.Spec.{world_of, assignment}
use horovod.Hosts.Filling.{names, total_slots}
use horovod.Hosts.Columns.{Within, room}
use horovod.Hosts.Refine.{get_host_assignments-eq-assignment}
use horovod.Discovery.{DiscoveredHosts, HostManager, count_available_slots, current_hosts}
use horovod.Registry.{reset}
use horovod.Driver.{
  ElasticDriver, DriverError, host_error, Result, ok, err, host_list, group, is_nil, any_common,
  driver_assignments, update_host_assignments, ◌>>=◌,
}
use horovod.Driver.Wait.{
  Wakeup, Waited, enough, was_shut_down, timed_out, still_waiting, enough_hosts,
  wait_for_available_slots, activate_workers,
}
use horovod.Driver.Groups.{names-host_list, total_slots-host_list}

waited_manager : HostManager → Waited → HostManager
waited_manager n (enough m) = m
waited_manager n was_shut_down = n
waited_manager n timed_out = n
waited_manager n still_waiting = n

-- The hosts with which the wait ends have the slots, and are the hosts, that were asked for.
wait_for_available_slots_enough :
    (min_np min_hosts : ℕ) (ws : List Wakeup) (m : HostManager)
    → wait_for_available_slots min_np min_hosts ws ≡ enough m
    → (min_np ≤ count_available_slots m.found)
      × (min_hosts ≤ length (set_of m.found.host_assignment_order))
unfolding wait_for_available_slots waited_manager enough_hosts
wait_for_available_slots_enough min_np min_hosts [] m e = cc
wait_for_available_slots_enough min_np min_hosts (w ∷ ws) m e =
    elim (Bool-cases (enough_hosts min_np min_hosts w.manager)) [
      | inl here ↦
          let same : current_hosts w.manager ≡ m = ap (waited_manager m) (rw here at e) in
          let (a, b) =
            and-eq-true (leb min_np (count_available_slots (current_hosts w.manager).found))
              (leb min_hosts
                (length (set_of (current_hosts w.manager).found.host_assignment_order)))
              here in
          rw (sym same) (
            leb→le min_np (count_available_slots (current_hosts w.manager).found) a,
            leb→le min_hosts (length (set_of (current_hosts w.manager).found.host_assignment_order))
                b,
          )
      | inr later ↦ elim (Bool-cases w.shutdown) [
        | inl down ↦ cc (rw (later, down) at e)
        | inr up ↦ elim (Bool-cases w.timed_out) [
          | inl over ↦ cc (rw (later, up, over) at e)
          | inr on ↦ wait_for_available_slots_enough min_np min_hosts ws m (rw (later, up, on) at e)
        ]
      ]
    ]

Within-world :
    (max_np : Option ℕ) (n total : ℕ) → Within max_np n → n ≤ total → n ≤ room max_np 0 total
Within-world none n total w h = h
Within-world (some m) n total w h = omega arith

-- Whoever has enough slots is given an assignment.
pub assigns :
    (d : ElasticDriver) (current : DiscoveredHosts)
    → Nodup current.host_assignment_order
    → Within d.max_np d.min_np
    → d.min_np ≤ count_available_slots current
    → (slots : List SlotInfo) × (get_host_assignments
          (host_list current current.host_assignment_order)
          d.min_np
          d.max_np
        ≡ Hosts.ok slots)
assigns d current nd w h =
    let hosts = host_list current current.host_assignment_order in
    let nd' : Nodup (names hosts) = rw (names-host_list current current.host_assignment_order) nd in
    let e = get_host_assignments-eq-assignment hosts d.min_np d.max_np nd' in
    let fits : d.min_np ≤ world_of hosts d.max_np =
      Within-world d.max_np d.min_np (total_slots hosts) w
        (rw (total_slots-host_list current current.host_assignment_order) h) in
    let few : ltb (world_of hosts d.max_np) d.min_np ≡ false = ground (arith, fits) in
    (assignment hosts d.max_np, rw (e, few) refl)

-- With distinct hosts and enough slots, the update never raises the ValueError of too few slots.
update_host_assignments-ne-host_error :
    (d : ElasticDriver) (current : DiscoveredHosts) (x : HostError)
    → Nodup current.host_assignment_order
    → Within d.max_np d.min_np
    → d.min_np ≤ count_available_slots current
    → update_host_assignments d current ≢ err (host_error x)
unfolding update_host_assignments driver_assignments
update_host_assignments-ne-host_error d current x nd w h e =
    let (slots, a) = assigns d current nd w h in
    let e' = rw a at e in
    elim (Bool-cases (
      not (is_nil d.host_assignments)
      && not (any_common (keys d.host_assignments) (keys (group slots []))))) [
        | inl lost ↦ cc (rw lost at e')
        | inr kept ↦ cc (rw kept at e')
      ]

-- The first update of a driver cannot fail.
update_host_assignments_first :
    (d : ElasticDriver) (current : DiscoveredHosts)
    → Nodup current.host_assignment_order
    → Within d.max_np d.min_np
    → d.min_np ≤ count_available_slots current
    → is_nil d.host_assignments ≡ true
    → (p : ElasticDriver × List SlotInfo) × (update_host_assignments d current ≡ ok p)
unfolding update_host_assignments driver_assignments
update_host_assignments_first d current nd w h new =
    let (slots, a) = assigns d current nd w h in rw (a, new) (_, refl)

unfoldable pub with_reset : ElasticDriver × List SlotInfo → ElasticDriver × List SlotInfo
with_reset (d, pending) = (record d { registry = reset d.world_size d.registry }, pending)

-- A step that cannot fail, after one that can.
then_ok_fails {ℓ κ} :
    {A : Type ℓ} {B : Type κ} (r : Result A) (f : A → B) (e : DriverError)
    → (r >>= λ a. ok (f a)) ≡ err e
    → r ≡ err e
then_ok_fails (ok a) f e h = cc
then_ok_fails (err x) f e h = cc

value_or {ℓ} : {A : Type ℓ} → A → Result A → A
value_or a (ok b) = b
value_or a (err e) = a

pub then_ok_returns {ℓ κ} :
    {A : Type ℓ} {B : Type κ} (r : Result A) (f : A → B) (b : B)
    → (r >>= λ a. ok (f a)) ≡ ok b
    → (a : A) × (r ≡ ok a) × (f a ≡ b)
unfolding value_or
then_ok_returns (ok a) f b h = (a, refl, ap (value_or b) h)
then_ok_returns (err x) f b h = cc

-- When the wait for at least `d.min_np` slots is over, the hosts are distinct and `max_np` is not
-- below `min_np`: the activation never raises ValueError, and the first one succeeds.
activate_workers-ne-host_error :
    (d : ElasticDriver) (min_np min_hosts : ℕ) (ws : List Wakeup) (m : HostManager) (x : HostError)
    → wait_for_available_slots min_np min_hosts ws ≡ enough m
    → d.min_np ≤ min_np
    → Within d.max_np d.min_np
    → Nodup m.found.host_assignment_order
    → activate_workers m d ≢ err (host_error x)
unfolding activate_workers with_reset
activate_workers-ne-host_error d min_np min_hosts ws m x e le w nd f =
    let (h, _) = wait_for_available_slots_enough min_np min_hosts ws m e in
    let h' : d.min_np ≤ count_available_slots m.found = omega (arith, h, le) in
    let r = update_host_assignments (record d { manager = m }) m.found in
    update_host_assignments-ne-host_error (record d { manager = m }) m.found x nd w h'
      (then_ok_fails r with_reset (host_error x) f)

-- When the wait was for at least the minimum of processes of the driver, this is not above the maximum,
-- the hosts are in the order once, and no hosts have been assigned before, the first activation after
-- the wait succeeds.
pub activate_workers_first :
    (d : ElasticDriver) (min_np min_hosts : ℕ) (ws : List Wakeup) (m : HostManager)
    → wait_for_available_slots min_np min_hosts ws ≡ enough m
    → d.min_np ≤ min_np
    → Within d.max_np d.min_np
    → Nodup m.found.host_assignment_order
    → is_nil d.host_assignments ≡ true
    → (p : ElasticDriver × List SlotInfo) × (activate_workers m d ≡ ok p)
unfolding activate_workers
activate_workers_first d min_np min_hosts ws m e le w nd new =
    let (h, _) = wait_for_available_slots_enough min_np min_hosts ws m e in
    let ((d', pending), f) =
      update_host_assignments_first (record d { manager = m }) m.found nd w (omega (arith, h, le))
        new in
    rw f (_, refl)
