-- ===== src/Registry/Decide.antt =====
-- `_on_workers_recorded`: when the job goes on, and what has happened then.
use horovod.Common.{
  ℕ, ◌+◌, ◌≤◌, ◌<◌, String, ◌≡◌, ◌≢◌, refl, sym, ◌∙◌, ◌↔◌, Bool, true, false, Option, none, some,
  List, [], ◌∷◌, not, ◌||◌, arith, length, eqb, ◌=?◌, host_key, slot_key, Bool-cases, inl, inr,
  eqb_iff,
}
use mathlib.Core.Bool.{false≢true}
use horovod.Common.Dict.{keys, contains}
use horovod.Discovery.{HostManager, blacklist, is_blacklisted}
use horovod.Discovery.Blacklist.{is_blacklisted-blacklist}
use horovod.Registry.{
  Slot, WorkerStateRegistry, resume, blacklist_all, all_blacklisted, is_empty, decide_reset,
  on_workers_recorded,
}

-- Some slot of the list is on the host.
abbrev pub host_in : String → List Slot → Bool
host_in h [] = false
host_in h (k ∷ ks) = (k.0 =? h) || host_in h ks

is_blacklisted-blacklist_all :
    (ks : List Slot) (m : HostManager) (h : String)
    → is_blacklisted (blacklist_all ks m) h ≡ (host_in h ks || is_blacklisted m h)
unfolding blacklist_all
is_blacklisted-blacklist_all [] m h = refl
is_blacklisted-blacklist_all (k ∷ ks) m h =
    rw (is_blacklisted-blacklist_all ks (blacklist m k.0) h, is_blacklisted-blacklist)
      (ground arith)

-- A recorded slot on a host that may still be used.
abbrev Alive : HostManager → List Slot → Type 0
Alive m ks = (k : Slot) × (contains k ks ≡ true) × (is_blacklisted m k.0 ≡ false)

not-all_blacklisted : (m : HostManager) (ks : List Slot) → all_blacklisted m ks ≡ false → Alive m ks
unfolding all_blacklisted contains
not-all_blacklisted m [] e = cc
not-all_blacklisted m (k ∷ ks) e = elim (Bool-cases (is_blacklisted m k.0)) [
  | inl banned ↦
      let (j, in_ks, ok) = not-all_blacklisted m ks (rw banned at e) in (j, ground arith, ok)
  | inr ok ↦ (k, rw ((slot_key.same_iff k k).1 refl), ok)
]

all_blacklisted-Alive :
    (m : HostManager) (ks : List Slot) → Alive m ks → all_blacklisted m ks ≡ false
unfolding all_blacklisted contains
all_blacklisted-Alive m [] (k, c, ok) = cc
all_blacklisted-Alive m (j ∷ ks) (k, c, ok) = elim (Bool-cases (j =? k)) [
  | inl same ↦ let e : j ≡ k = (slot_key.same_iff j k).0 same in rw e (rw ok)
  | inr other ↦ rw (all_blacklisted-Alive m ks (k, rw other at c, ok)) (ground arith)
]

abbrev pub UnderLimit : Option ℕ → ℕ → Type 0
UnderLimit none n = Unit
UnderLimit (some limit) n = n < limit

-- The job may go on: nobody has succeeded, somebody has not failed, some recorded slot is on a host
-- that is neither blacklisted nor about to be, and a reset is left.
pub record CanResume (r : WorkerStateRegistry) (m : HostManager) : Type 0 where
  pub no_success : r.workers.success ≡ []
  pub not_all_failed : length r.workers.failure ≢ r.size
  pub slot : Slot
  pub recorded : contains slot (keys r.states) ≡ true
  pub usable : is_blacklisted m slot.0 ≡ false
  pub not_failing : host_in slot.0 r.workers.failure ≡ false
  pub reset_left : UnderLimit r.reset_limit r.reset_count

decide_reset-resume :
    (limit : Option ℕ) (r : WorkerStateRegistry)
    → ((decide_reset limit r).1 ≡ resume) ↔ UnderLimit limit r.reset_count
decide_reset-resume none r = (λ _. tt, λ _. refl)
decide_reset-resume (some n) r = (λ e. ground arith, λ h. ground arith)

is_empty-nil : (ks : List Slot) → not (is_empty ks) ≡ false → ks ≡ []
is_empty-nil [] e = refl
is_empty-nil (k ∷ ks) e = cc

module _ (r : WorkerStateRegistry) (m : HostManager) where
  -- the tests in turn
  resume-CanResume : (on_workers_recorded r m).decision ≡ resume → CanResume r m
  unfolding on_workers_recorded
  resume-CanResume e = elim (Bool-cases (not (is_empty r.workers.success))) [
    | inl won ↦ cc (rw won at e)
    | inr none_won ↦
        let e1 = rw none_won at e in
        elim (Bool-cases (eqb (length r.workers.failure) r.size)) [
          | inl lost ↦ cc (rw lost at e1)
          | inr some_left ↦
              let e2 = rw some_left at e1 in
              elim (Bool-cases
                (all_blacklisted (blacklist_all r.workers.failure m) (keys r.states))) [
                  | inl banned ↦ cc (rw banned at e2)
                  | inr open_slot ↦
                      let e3 = rw open_slot at e2 in
                      let (k, has, ok) =
                        not-all_blacklisted (blacklist_all r.workers.failure m) (keys r.states)
                          open_slot in
                      let split = is_blacklisted-blacklist_all r.workers.failure m k.0 in
                      record {
                        no_success = is_empty-nil r.workers.success none_won;
                        not_all_failed = λ same.
                            false≢true
                              (sym some_left ∙ (eqb_iff (length r.workers.failure) r.size).1 same);
                        slot = k;
                        recorded = has;
                        usable = ground arith;
                        not_failing = ground arith;
                        reset_left = (decide_reset-resume r.reset_limit r).0 e3;
                      }
                ]
        ]
  ]

  CanResume-resume : CanResume r m → (on_workers_recorded r m).decision ≡ resume
  unfolding on_workers_recorded
  CanResume-resume c =
      let m' = blacklist_all r.workers.failure m in
      let usable : is_blacklisted m' c.slot.0 ≡ false =
        rw (is_blacklisted-blacklist_all, c.not_failing) c.usable in
      let open_slot = all_blacklisted-Alive m' (keys r.states) (c.slot, c.recorded, usable) in
      let left : eqb (length r.workers.failure) r.size ≡ false = ground (arith, c.not_all_failed) in
      let go = (decide_reset-resume r.reset_limit r).1 c.reset_left in
      ground (arith, c.no_success, open_slot, left, go)

decide_reset-counts :
    (limit : Option ℕ) (r : WorkerStateRegistry)
    → (decide_reset limit r).1 ≡ resume
    → (decide_reset limit r).0.reset_count ≡ r.reset_count + 1
decide_reset-counts none r e = refl
decide_reset-counts (some n) r e = ground arith

-- The job goes on exactly when nobody has succeeded, not all workers have failed, some recorded
-- slot is on a host that is not blacklisted and has no failing worker, and a reset is left.
pub on_workers_recorded-resume :
    (r : WorkerStateRegistry) (m : HostManager)
    → ((on_workers_recorded r m).decision ≡ resume) ↔ CanResume r m
on_workers_recorded-resume r m = (resume-CanResume r m, CanResume-resume r m)

abbrev pub WithinLimit : Option ℕ → ℕ → Type 0
WithinLimit none n = Unit
WithinLimit (some limit) n = n ≤ limit

decide_reset_within :
    (limit : Option ℕ) (r : WorkerStateRegistry)
    → WithinLimit limit r.reset_count
    → WithinLimit limit (decide_reset limit r).0.reset_count
decide_reset_within none r w = tt
decide_reset_within (some n) r w = ground arith

-- The count of resets stays within the limit, whatever is decided.
on_workers_recorded_within :
    (r : WorkerStateRegistry) (m : HostManager)
    → WithinLimit r.reset_limit r.reset_count
    → WithinLimit r.reset_limit (on_workers_recorded r m).registry.reset_count
unfolding on_workers_recorded
on_workers_recorded_within r m w =
    let last = decide_reset_within r.reset_limit r w in
    elim (Bool-cases (not (is_empty r.workers.success))) [
      | inl won ↦ rw won w
      | inr none_won ↦ rw none_won (elim (Bool-cases (eqb (length r.workers.failure) r.size)) [
        | inl lost ↦ rw lost w
        | inr some_left ↦
            rw some_left
              (elim (Bool-cases
                (all_blacklisted (blacklist_all r.workers.failure m) (keys r.states))) [
                  | inl banned ↦ rw banned w
                  | inr open_slot ↦ rw open_slot last
                ])
      ])
    ]

resume_outcome :
    (r : WorkerStateRegistry) (m : HostManager)
    → (on_workers_recorded r m).decision ≡ resume
    → ((on_workers_recorded r m).registry.reset_count ≡ r.reset_count + 1)
      × ((on_workers_recorded r m).manager ≡ blacklist_all r.workers.failure m)
unfolding on_workers_recorded
resume_outcome r m e = ground (arith, decide_reset-counts r.reset_limit r)

-- When the job goes on, one more reset is counted and every host with a failing worker is
-- blacklisted, and no other.
resume_effects :
    (r : WorkerStateRegistry) (m : HostManager) (h : String)
    → (on_workers_recorded r m).decision ≡ resume
    → ((on_workers_recorded r m).registry.reset_count ≡ r.reset_count + 1)
      × (is_blacklisted (on_workers_recorded r m).manager h
          ≡ (host_in h r.workers.failure || is_blacklisted m h))
resume_effects r m h e =
    let (count, banned) = resume_outcome r m e in
    (count, rw banned (is_blacklisted-blacklist_all r.workers.failure m h))
