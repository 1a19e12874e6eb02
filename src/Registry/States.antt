-- ===== src/Registry/States.antt =====
-- `_states` and `_workers` agree, and a failure is final until the next reset.
use horovod.Common.{
  ℕ, ◌≡◌, ◌⊎◌, ap, Bool, true, false, none, some, List, arith, ◌||◌, ◌&&◌, ◌=?◌, slot_key,
  Bool-cases, inl, inr, Option-cases,
}
use horovod.Common.Dict.{contains, lookup, lookup-insert}
use horovod.Discovery.{HostManager, is_blacklisted}
use horovod.Registry.{
  Slot, WorkerState, ready, success, failure, WorkerStateRegistry, Workers, get, add, add_worker,
  store, reset, is_some, same_state, record_locked, record_state, Waiter, join, on_workers_recorded,
}

contains-add :
    (k j : Slot) (set : List Slot) → contains j (add k set) ≡ (contains j set || (k =? j))
unfolding contains
contains-add k j set = elim (Bool-cases (contains k set)) [
  | inl old ↦ rw old (elim (Bool-cases (k =? j)) [
    | inl same ↦
        let e : k ≡ j = (slot_key.same_iff k j).0 same in
        let in_set : contains j set ≡ true = rw (← e) old in rw (in_set)
    | inr other ↦ rw other (ground arith)
  ])
  | inr new ↦ rw new (ground arith)
]

get-add_worker :
    (k j : Slot) (s t : WorkerState) (w : Workers)
    → contains j (get (add_worker k s w) t) ≡ (contains j (get w t) || (same_state s t && (k =? j)))
get-add_worker k j ready ready w = rw contains-add
get-add_worker k j ready success w = ground arith
get-add_worker k j ready failure w = ground arith
get-add_worker k j success ready w = ground arith
get-add_worker k j success success w = rw contains-add
get-add_worker k j success failure w = ground arith
get-add_worker k j failure ready w = ground arith
get-add_worker k j failure success w = ground arith
get-add_worker k j failure failure w = rw contains-add

-- Each recorded state is listed, only recorded workers are listed, and a listed failure is the
-- recorded state.
pub record IsConsistent (r : WorkerStateRegistry) : Type 0 where
  pub listed :
      (k : Slot) (s : WorkerState)
      → lookup k r.states ≡ some s
      → contains k (get r.workers s) ≡ true
  pub known :
      (k : Slot) (s : WorkerState)
      → contains k (get r.workers s) ≡ true
      → is_some (lookup k r.states) ≡ true
  pub failed : (k : Slot) → contains k r.workers.failure ≡ true → lookup k r.states ≡ some failure

pub same_state_iff : (s t : WorkerState) → same_state s t ≡ true → s ≡ t
same_state_iff s t e = ground arith

pub same_state_refl : (s : WorkerState) → same_state s s ≡ true
same_state_refl s = ground arith

abbrev Storable : Slot → WorkerState → WorkerStateRegistry → Type 0
Storable k s r = (lookup k r.states ≡ none) ⊎ (s ≡ failure)

module _ (k : Slot) (s : WorkerState) (r : WorkerStateRegistry) (c : IsConsistent r) where
  listed-store :
      (j : Slot) (t : WorkerState)
      → lookup j (store k s r).states ≡ some t
      → contains j (get (store k s r).workers t) ≡ true
  listed-store j t e = elim (Bool-cases (k =? j)) [
    | inl same ↦
        let found : some s ≡ some t = rw (lookup-insert, same) at e in
        let equal : s ≡ t = cc in rw (get-add_worker, same, equal, same_state_refl) (ground arith)
    | inr other ↦
        let found : lookup j r.states ≡ some t = rw (lookup-insert, other) at e in
        rw (get-add_worker, c.listed j t found)
  ]

  known-store :
      (j : Slot) (t : WorkerState)
      → contains j (get (store k s r).workers t) ≡ true
      → is_some (lookup j (store k s r).states) ≡ true
  known-store j t e = elim (Bool-cases (k =? j)) [
    | inl same ↦ rw (lookup-insert, same)
    | inr other ↦
        let e' : (contains j (get r.workers t) || (same_state s t && (k =? j))) ≡ true =
          rw get-add_worker at e in
        rw (lookup-insert, other) (c.known j t (ground (arith, other)))
  ]

  failed-store :
      Storable k s r
      → (j : Slot) → contains j (store k s r).workers.failure ≡ true
      → lookup j (store k s r).states ≡ some failure
  failed-store ok j e =
      let split : (contains j r.workers.failure || (same_state s failure && (k =? j))) ≡ true =
        rw (← (get-add_worker k j s failure r.workers)) e in
      elim (Bool-cases (k =? j)) [
        | inl same ↦
            rw (lookup-insert, same)
              (elim (Bool-cases (same_state s failure)) [
                | inl fails ↦ ap some (same_state_iff s failure fails)
                | inr other ↦ elim ok [
                  | inl absent ↦
                      let old : contains j r.workers.failure ≡ true =
                        ground (arith, split, other) in
                      cc ((slot_key.same_iff k j).0 same, absent, c.failed j old)
                  | inr fails ↦ ap some fails
                ]
              ])
        | inr other ↦ rw (lookup-insert, other) (c.failed j (ground (arith, split, other)))
      ]

  store-IsConsistent : Storable k s r → IsConsistent (store k s r)
  store-IsConsistent ok = record {
    listed = listed-store;
    known = known-store;
    failed = failed-store ok;
  }

record_locked-IsConsistent :
    (k : Slot) (s : WorkerState) (r : WorkerStateRegistry)
    → IsConsistent r
    → IsConsistent (record_locked k s r).0
unfolding record_locked
record_locked-IsConsistent k s r c = elim (Option-cases (lookup k r.states)) [
  | inl absent ↦ rw absent (store-IsConsistent k s r c (inl absent))
  | inr (t, known) ↦ rw known (elim (Bool-cases (same_state s failure)) [
    | inl fails ↦ rw fails (
        let stored = store-IsConsistent k s r c (inr (same_state_iff s failure fails)) in
        record { listed = stored.listed; known = stored.known; failed = stored.failed })
    | inr other ↦ rw other c
  ])
]

record_state-IsConsistent :
    (finished : Bool) (m : HostManager) (k : Slot) (s : WorkerState) (r : WorkerStateRegistry)
    → IsConsistent r
    → IsConsistent (record_state finished m k s r).0
unfolding record_state
record_state-IsConsistent true m k s r c = c
record_state-IsConsistent false m k s r c = elim (Bool-cases (is_blacklisted m k.0)) [
  | inl banned ↦ rw banned c
  | inr ok ↦ rw ok (record_locked-IsConsistent k s r c)
]

-- The calls that change a registry.
pub data Step : WorkerStateRegistry → WorkerStateRegistry → Type 0 where
  report :
      (finished : Bool) (m : HostManager) (k : Slot) (s : WorkerState) (r : WorkerStateRegistry)
      → Step r (record_state finished m k s r).0
  meet : (w : Waiter) (r : WorkerStateRegistry) → Step r (join w r).0
  decide : (m : HostManager) (r : WorkerStateRegistry) → Step r (on_workers_recorded r m).registry
  clear : (size : ℕ) (r : WorkerStateRegistry) → Step r (reset size r)

pub data Reach (r : WorkerStateRegistry) : WorkerStateRegistry → Type 0 where
  here : Reach r r
  next : {q t : WorkerStateRegistry} → Reach r q → Step q t → Reach r t

SameBooks : WorkerStateRegistry → WorkerStateRegistry → Type 0
SameBooks r q = (r.states ≡ q.states) × (r.workers ≡ q.workers)

IsConsistent-SameBooks :
    (r q : WorkerStateRegistry) → SameBooks r q → IsConsistent r → IsConsistent q
unfolding SameBooks
IsConsistent-SameBooks r q (es, ew) c = record {
  listed = λ k s e. rw (← ew) (c.listed k s (rw es e));
  known = λ k s e. rw (← es) (c.known k s (rw ew e));
  failed = λ k e. rw (← es) (c.failed k (rw ew e));
}

join-SameBooks : (w : Waiter) (r : WorkerStateRegistry) → SameBooks r (join w r).0
unfolding join SameBooks
join-SameBooks w r = (ground arith, ground arith)

decide-SameBooks :
    (m : HostManager) (r : WorkerStateRegistry) → SameBooks r (on_workers_recorded r m).registry
unfolding on_workers_recorded SameBooks
decide-SameBooks m r = (ground arith, ground arith)

Step-IsConsistent : {r q : WorkerStateRegistry} → Step r q → IsConsistent r → IsConsistent q
unfolding reset lookup contains
Step-IsConsistent (report finished m k s r) c = record_state-IsConsistent finished m k s r c
Step-IsConsistent (meet w r) c = IsConsistent-SameBooks r (join w r).0 (join-SameBooks w r) c
Step-IsConsistent (decide m r) c =
    IsConsistent-SameBooks r (on_workers_recorded r m).registry (decide-SameBooks m r) c
Step-IsConsistent (clear size r) c = record {
  listed = λ k s e. ground arith;
  known = λ k s e. ground arith;
  failed = λ k e. ground arith;
}

-- From a consistent registry every sequence of steps keeps it so: the recorded state of a worker is
-- listed under that state, only recorded workers are listed, and a worker listed as failed is recorded
-- as failed. A worker that was ready and then fails is listed under both states.
pub Reach-IsConsistent : {r q : WorkerStateRegistry} → Reach r q → IsConsistent r → IsConsistent q
Reach-IsConsistent here c = c
Reach-IsConsistent (next p s) c = Step-IsConsistent s (Reach-IsConsistent p c)
