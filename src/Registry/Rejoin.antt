-- ===== src/Registry/Rejoin.antt =====
-- A failure of a waiting worker: its thread gives up, the others wait again, and the barrier does
-- not count the worker twice.
use horovod.Common.{
  ◌+◌, ◌<◌, ◌≡◌, ◌⊎◌, refl, false, none, some, List, [], ◌∷◌, ◌++◌, arith, ◌=?◌, slot_key, inl, inr,
  length, length-append, All, All-append, eqb, append-nil, append_assoc,
}
use horovod.Common.Dict.{contains, contains-append, lookup, Nodup}
use horovod.Registry.{Slot, failure, Waiter, Barrier, WorkerStateRegistry, same_state, join, wake}
use horovod.Registry.States.{same_state_refl}
use horovod.Registry.Report.{wake_all, slots_of, slots_of-append, Recorded, IsOrderly}

abbrev joined : Waiter → WorkerStateRegistry → Barrier → WorkerStateRegistry
joined w r b = record r { barrier = some (record b { waiting = b.waiting ++ w ∷ [] }) }

join_room :
    (w : Waiter) (r : WorkerStateRegistry) (b : Barrier)
    → r.barrier ≡ some b
    → length b.waiting + 1 < b.parties
    → (join w r).0 ≡ joined w r b
unfolding join
join_room w r b e room =
    let count : length (b.waiting ++ w ∷ []) ≡ length b.waiting + 1 =
      length-append b.waiting (w ∷ []) in
    let more : eqb (length (b.waiting ++ w ∷ [])) b.parties ≡ false = ground (arith, count) in
    rw e (rw more)

-- A woken thread is that of the failed worker, or its state is still the recorded one.
abbrev pub Fits : WorkerStateRegistry → Slot → Waiter → Type 0
Fits r k w =
    ((w.slot ≡ k) × (same_state failure w.state ≡ false)) ⊎ (Recorded r w × ((k =? w.slot) ≡ false))

pub record CanSettle (k : Slot) (ws : List Waiter) (r : WorkerStateRegistry) (b : Barrier)
    : Type 0 where
  pub has_barrier : r.barrier ≡ some b
  pub parties : b.parties ≡ r.size
  pub failed : lookup k r.states ≡ some failure
  pub fits : All (Fits r k) ws
  pub distinct : Nodup (slots_of b.waiting ++ slots_of ws)
  pub recorded : All (Recorded r) b.waiting
  pub room : length b.waiting + length ws < r.size
  pub k_out : contains k (slots_of b.waiting) ≡ false

pub record Settled (k : Slot) (q r : WorkerStateRegistry) : Type 0 where
  pub orderly : IsOrderly r
  pub k_out : contains k (slots_of orderly.barrier.waiting) ≡ false
  pub states : r.states ≡ q.states
  pub size : r.size ≡ q.size

wake_failed :
    (w : Waiter) (r : WorkerStateRegistry)
    → lookup w.slot r.states ≡ some failure
    → same_state failure w.state ≡ false
    → wake w r ≡ none
unfolding wake
wake_failed w r e ne = rw (e, ne)

wake_recorded :
    (w : Waiter) (r : WorkerStateRegistry)
    → Recorded r w
    → wake w r ≡ some (record w { rendezvous_id = r.rendezvous_id })
unfolding wake
wake_recorded w r e = rw (e, same_state_refl)

Nodup-drop : (xs : List Slot) (y : Slot) (ys : List Slot) → Nodup (xs ++ y ∷ ys) → Nodup (xs ++ ys)
unfolding contains
Nodup-drop [] y ys (c, nd) = nd
Nodup-drop (x ∷ xs) y ys (c, nd) =
    (ground (arith, contains-append x xs (y ∷ ys), contains-append x xs ys), Nodup-drop xs y ys nd)

out_snoc :
    (k x : Slot) (xs : List Slot)
    → contains k xs ≡ false
    → (k =? x) ≡ false
    → contains k (xs ++ x ∷ []) ≡ false
unfolding contains
out_snoc k x xs out ne =
    ground (arith, contains-append k xs (x ∷ []), slot_key.same_iff x k, slot_key.same_iff k x)

wake_all_gone :
    (w : Waiter) (ws : List Waiter) (r : WorkerStateRegistry)
    → wake w r ≡ none
    → wake_all (w ∷ ws) r ≡ wake_all ws r
unfolding wake_all
wake_all_gone w ws r e = rw (e, wake_all)

wake_all_again :
    (w w' : Waiter) (ws : List Waiter) (r : WorkerStateRegistry)
    → wake w r ≡ some w'
    → wake_all (w ∷ ws) r ≡ wake_all ws (join w' r).0
unfolding wake_all
wake_all_again w w' ws r e = rw (e, wake_all)

pub wake_all-Settled :
    (k : Slot) (ws : List Waiter) (r : WorkerStateRegistry) (b : Barrier)
    → CanSettle k ws r b
    → Settled k r (wake_all ws r)
unfolding wake_all
wake_all-Settled k [] r b c = record {
  orderly = record {
    barrier = b;
    has_barrier = c.has_barrier;
    parties = c.parties;
    room = let h = c.room in omega arith;
    distinct = rw append-nil at c.distinct;
    recorded = c.recorded;
  };
  k_out = c.k_out;
  states = refl;
  size = refl;
}
wake_all-Settled k (w ∷ ws) r b c = elim c.fits.0 [
  | inl (own, other) ↦ rw (wake_all_gone w ws r (wake_failed w r (rw own c.failed) other)) (
      wake_all-Settled k ws r b (record {
        has_barrier = c.has_barrier;
        parties = c.parties;
        failed = c.failed;
        fits = c.fits.1;
        distinct = Nodup-drop (slots_of b.waiting) w.slot (slots_of ws) c.distinct;
        recorded = c.recorded;
        room = let h = c.room in omega arith;
        k_out = c.k_out;
      }))
  | inr (rec, other) ↦
      let w' : Waiter = record w { rendezvous_id = r.rendezvous_id } in
      let all = b.waiting ++ w' ∷ [] in
      let room = c.room in
      let parties = c.parties in
      let again = wake_all_again w w' ws r (wake_recorded w r rec) in
      let in_place = join_room w' r b c.has_barrier (omega arith) in
      let slots : slots_of all ≡ slots_of b.waiting ++ w.slot ∷ [] =
        slots_of-append b.waiting (w' ∷ []) in
      let s =
        wake_all-Settled k ws (joined w' r b) (record b { waiting = all })
          (record {
            has_barrier = refl;
            parties = parties;
            failed = c.failed;
            fits = c.fits.1;
            distinct =
                rw (slots, append_assoc (slots_of b.waiting) (w.slot ∷ []) (slots_of ws))
                  c.distinct;
            recorded = All-append (Recorded r) b.waiting (w' ∷ []) (c.recorded, (rec, tt));
            room = omega (arith, length-append b.waiting (w' ∷ []));
            k_out = rw slots (out_snoc k w.slot (slots_of b.waiting) c.k_out other);
          }) in
      rw (again, in_place)
        (record { orderly = s.orderly; k_out = s.k_out; states = s.states; size = s.size })
]
