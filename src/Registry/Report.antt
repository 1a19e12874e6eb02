-- ===== src/Registry/Report.antt =====
-- A report as one step: the block under the lock, then each woken thread waits again or gives up,
-- then the reporting thread waits. (Registry/Race.antt takes the steps apart.)
use horovod.Common.{
  ℕ, ◌+◌, ◌<◌, ◌≤◌, ◌≡◌, refl, false, none, some, List, [], ◌∷◌, ◌++◌, arith, ◌=?◌, slot_key,
  Bool-cases, inl, inr, length, length-append, All, All-append, eqb, eqb_iff, ◌∙◌,
}
use horovod.Common.Dict.{contains, lookup, Nodup, Nodup-snoc}
use horovod.Registry.{
  Slot, WorkerState, Waiter, Barrier, WorkerStateRegistry, record_locked, Joined, no_barrier,
  blocked, tripped, join, wake,
}

-- The woken threads, one after the other. (With fewer threads than parties none of them trips the
-- barrier again.)
unfoldable pub wake_all : List Waiter → WorkerStateRegistry → WorkerStateRegistry
wake_all [] r = r
wake_all (w ∷ ws) r = elim (wake w r) [ none ↦ wake_all ws r | some w' ↦ wake_all ws (join w' r).0 ]

unfoldable pub report : Slot → WorkerState → WorkerStateRegistry → WorkerStateRegistry × Joined
report k s r =
    let (r', woken) = record_locked k s r in
    join (record { slot = k; state = s; rendezvous_id = r'.rendezvous_id }) (wake_all woken r')

abbrev pub slots_of : List Waiter → List Slot
slots_of [] = []
slots_of (w ∷ ws) = w.slot ∷ slots_of ws

abbrev pub Recorded : WorkerStateRegistry → Waiter → Type 0
Recorded r w = lookup w.slot r.states ≡ some w.state

-- The threads at the barrier stand for different workers, each with its recorded state, and there
-- are fewer of them than parties.
pub record IsOrderly (r : WorkerStateRegistry) : Type 0 where
  pub barrier : Barrier
  pub has_barrier : r.barrier ≡ some barrier
  pub parties : barrier.parties ≡ r.size
  pub room : length barrier.waiting < r.size
  pub distinct : Nodup (slots_of barrier.waiting)
  pub recorded : All (Recorded r) barrier.waiting

-- What is known when a thread has joined.
pub record AllMet (r : WorkerStateRegistry) (all : List Waiter) : Type 0 where
  pub count : length all ≡ r.size
  pub distinct : Nodup (slots_of all)
  pub recorded : All (Recorded r) all

abbrev pub Met : WorkerStateRegistry → Joined → Type 0
Met r no_barrier = ⊥
Met r blocked = IsOrderly r
Met r (tripped all) = AllMet r all

pub slots_of-append : (xs ys : List Waiter) → slots_of (xs ++ ys) ≡ slots_of xs ++ slots_of ys
slots_of-append [] ys = refl
slots_of-append (x ∷ xs) ys = rw (slots_of-append xs ys)

pub absent-waiting :
    (k : Slot) (r : WorkerStateRegistry) (ws : List Waiter)
    → lookup k r.states ≡ none
    → All (Recorded r) ws
    → contains k (slots_of ws) ≡ false
unfolding contains
absent-waiting k r [] absent a = refl
absent-waiting k r (w ∷ ws) absent (e, a) = elim (Bool-cases (w.slot =? k)) [
  | inl same ↦ cc ((slot_key.same_iff w.slot k).0 same, absent, e)
  | inr other ↦ rw (other, absent-waiting k r ws absent a)
]

not_full : (n p size : ℕ) → eqb n p ≡ false → p ≡ size → n ≤ size → n < size
not_full n p size e q h = ground arith

-- A thread of a new worker joins an orderly barrier.
pub join_distinct :
    (w : Waiter) (r : WorkerStateRegistry) (o : IsOrderly r)
    → Recorded r w
    → contains w.slot (slots_of o.barrier.waiting) ≡ false
    → Met (join w r).0 (join w r).1
unfolding join
join_distinct w r o rec new =
    let all = o.barrier.waiting ++ w ∷ [] in
    let count : length all ≡ length o.barrier.waiting + 1 =
      length-append o.barrier.waiting (w ∷ []) in
    let distinct : Nodup (slots_of all) =
      rw slots_of-append (Nodup-snoc (slots_of o.barrier.waiting) w.slot o.distinct new) in
    let recorded : All (Recorded r) all =
      All-append (Recorded r) o.barrier.waiting (w ∷ []) (o.recorded, (rec, tt)) in
    let room = o.room in
    let parties = o.parties in
    rw o.has_barrier (elim (Bool-cases (eqb (length all) o.barrier.parties)) [
      | inl full ↦ rw full (record {
        count = (eqb_iff (length all) o.barrier.parties).0 full ∙ parties;
        distinct = distinct;
        recorded = recorded;
      })
      | inr more ↦
          let less : length all < r.size =
            not_full (length all) o.barrier.parties r.size more parties (omega (arith, count)) in
          rw more (record {
            barrier = record { parties = o.barrier.parties; waiting = all };
            has_barrier = refl;
            parties = parties;
            room = less;
            distinct = distinct;
            recorded = recorded;
          })
    ])
