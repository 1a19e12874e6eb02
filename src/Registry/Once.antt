-- ===== src/Registry/Once.antt =====
-- Reports as single steps: the barrier trips only when as many different workers have reported as
-- there are processes.
use horovod.Common.{
  ◌≡◌, refl, sym, ◌∙◌, false, none, some, List, [], ◌∷◌, arith, ◌=?◌, slot_key, Bool-cases, inl,
  inr, All,
}
use horovod.Common.Dict.{contains, lookup, lookup-insert}
use horovod.Registry.{
  join, Slot, WorkerState, failure, Waiter, WorkerStateRegistry, store, same_state, record_locked,
  empty_barrier, waiting_at,
}
use horovod.Registry.Report.{
  wake_all, report, slots_of, Recorded, IsOrderly, Met, join_distinct, absent-waiting,
}
use horovod.Registry.Rejoin.{Fits, CanSettle, wake_all-Settled}

-- The worker has not reported, or reports that it failed for the first time.
pub data IsNew (k : Slot) (s : WorkerState) (r : WorkerStateRegistry) : Type 0 where
  first : lookup k r.states ≡ none → IsNew k s r
  fails :
      (t : WorkerState)
      → s ≡ failure
      → lookup k r.states ≡ some t
      → same_state failure t ≡ false
      → IsNew k s r

Recorded-store :
    (k : Slot) (s : WorkerState) (r : WorkerStateRegistry) (ws : List Waiter)
    → contains k (slots_of ws) ≡ false
    → All (Recorded r) ws
    → All (Recorded (store k s r)) ws
unfolding contains
Recorded-store k s r [] out a = tt
Recorded-store k s r (w ∷ ws) out (e, a) = (
  ground (
    arith,
    out,
    e,
    lookup-insert k w.slot s r.states,
    slot_key.same_iff k w.slot,
    slot_key.same_iff w.slot k,
  ),
  Recorded-store k s r ws (ground (arith, out)) a,
)

first-Met :
    (k : Slot) (s : WorkerState) (r : WorkerStateRegistry)
    → IsOrderly r
    → lookup k r.states ≡ none
    → Met (report k s r).0 (report k s r).1
unfolding report record_locked wake_all
first-Met k s r o absent =
    let out = absent-waiting k r o.barrier.waiting absent o.recorded in
    rw absent (
      join_distinct (record { slot = k; state = s; rendezvous_id = r.rendezvous_id }) (store k s r)
        (record {
          barrier = o.barrier;
          has_barrier = o.has_barrier;
          parties = o.parties;
          room = o.room;
          distinct = o.distinct;
          recorded = Recorded-store k s r o.barrier.waiting out o.recorded;
        })
        (ground (arith, lookup-insert k k s r.states, slot_key.same_iff k k)) out)

module _ (k : Slot) (t : WorkerState) (r : WorkerStateRegistry) where
  abbrev failed_registry : WorkerStateRegistry
  failed_registry = store k failure (record r { barrier = empty_barrier r.barrier })

  woken-Fits :
      (ws : List Waiter)
      → lookup k r.states ≡ some t
      → same_state failure t ≡ false
      → All (Recorded r) ws
      → All (Fits failed_registry k) ws
  woken-Fits [] e ne a = tt
  woken-Fits (w ∷ ws) e ne (rec, a) = (
    elim (Bool-cases (k =? w.slot)) [
      | inl same ↦
          let own : k ≡ w.slot = (slot_key.same_iff k w.slot).0 same in
          let found : lookup w.slot r.states ≡ some t = rw (← own) e in
          let both : some w.state ≡ some t = sym rec ∙ found in
          let state : w.state ≡ t = ground arith in inl (sym own, rw state ne)
      | inr other ↦ inr (rw (lookup-insert, other) rec, other)
    ],
    woken-Fits ws e ne a,
  )

  report_failure :
      lookup k r.states ≡ some t
      → report k failure r
        ≡ join
            (record { slot = k; state = failure; rendezvous_id = r.rendezvous_id })
            (wake_all (waiting_at r.barrier) failed_registry)
  unfolding report record_locked
  report_failure e = rw e

  failed-CanSettle :
      (o : IsOrderly r)
      → lookup k r.states ≡ some t
      → same_state failure t ≡ false
      → CanSettle k o.barrier.waiting failed_registry (record o.barrier { waiting = [] })
  unfolding contains
  failed-CanSettle o e ne = record {
    has_barrier = rw o.has_barrier;
    parties = o.parties;
    failed = ground (arith, lookup-insert k k failure r.states, slot_key.same_iff k k);
    fits = woken-Fits o.barrier.waiting e ne o.recorded;
    distinct = o.distinct;
    recorded = tt;
    room = let room = o.room in omega arith;
    k_out = refl;
  }

  fails-Met :
      IsOrderly r
      → lookup k r.states ≡ some t
      → same_state failure t ≡ false
      → Met (report k failure r).0 (report k failure r).1
  fails-Met o e ne =
      let woken : waiting_at r.barrier ≡ o.barrier.waiting = rw o.has_barrier in
      let c = failed-CanSettle o e ne in
      let s =
        wake_all-Settled k o.barrier.waiting failed_registry (record o.barrier { waiting = [] })
          c in
      let rec : lookup k (wake_all o.barrier.waiting failed_registry).states ≡ some failure =
        rw s.states c.failed in
      rw (report_failure e, woken)
        (join_distinct (record { slot = k; state = failure; rendezvous_id = r.rendezvous_id })
          (wake_all o.barrier.waiting failed_registry) s.orderly rec s.k_out)

-- When each report, with the threads that it wakes, is one step, and no worker reports again except
-- to fail, then the barrier trips only when `size` different workers have reported, each with its
-- recorded state; until then the waiting threads stand for different workers.
pub report-Met :
    (k : Slot) (s : WorkerState) (r : WorkerStateRegistry)
    → IsOrderly r
    → IsNew k s r
    → Met (report k s r).0 (report k s r).1
report-Met k s r o (first absent) = first-Met k s r o absent
report-Met k s r o (fails t f e ne) = rw f (fails-Met k t r o e ne)
