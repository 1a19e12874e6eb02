-- ===== src/DriverService/Register.antt =====
-- horovod/runner/common/service/driver_service.py: the two maps of a service agree.
use horovod.Common.{
  ℕ, ◌+◌, ◌<◌, String, ◌≡◌, refl, ◌∙◌, false, Option, none, some, List, [], ◌∷◌, ◌++◌, eqb, lt→ltb,
  eqb_iff, arith, if◌then◌else◌, ◌=?◌, host_key, rank_key, str_iff, same_refl, Bool-cases,
  Option-cases, inl, inr,
}
use horovod.Common.Dict.{Dict, lookup, insert, lookup-insert}
use horovod.DriverService.{
  BasicDriverService, RegisterTaskRequest, ok, sort, indices_or_nil, leave, move_index, with_task,
  register_task,
}
use horovod.DriverService.Counts.{count, count-append, count-sort, remove-count}

abbrev pub indices_of : String → Dict String (List ℕ) → List ℕ
indices_of h indices = indices_or_nil (lookup h indices)

-- 1 for the host under which the index is registered, else 0.
abbrev pub is_registered : Option String → String → ℕ
is_registered none h = 0
is_registered (some j) h = if j =? h then 1 else 0

-- Each index stands once in the list of its host, and in no other.
pub record IsConsistent (s : BasicDriverService) : Type 0 where
  pub counted :
      (i : ℕ) (h : String)
      → count i (indices_of h s.task_host_hash_indices)
        ≡ is_registered (lookup i s.task_index_host_hash) h

-- The index may still stand in the list of `old`.
leave-counts :
    (i : ℕ) (new old : String) (indices : Dict String (List ℕ))
    → (old =? new) ≡ false
    → count i (indices_of old indices) ≡ 1
    → (left : Dict String (List ℕ)) × (leave i new (some old) indices ≡ ok left)
      × ((j : ℕ) (h : String)
          → count j (indices_of h left) + (if old =? h then (if eqb i j then 1 else 0) else 0)
            ≡ count j (indices_of h indices))
leave-counts i new old indices ne one = elim (Option-cases (lookup old indices)) [
  | inl gone ↦ absurd (omega (arith, rw gone at one))
  | inr (is, there) ↦
      let one' = rw there at one in
      let (ys, e, c) = remove-count i is (omega (arith, one')) in
      (
        insert old ys indices,
        rw (ne, there) (rw e refl),
        λ j h. elim (Bool-cases (old =? h)) [
          | inl here ↦
              ground
                (arith, lookup-insert old h ys indices, here, (str_iff old h).0 here, there, c j)
          | inr other ↦ rw (lookup-insert old h ys indices, other) (omega arith)
        ],
      )
]

-- The list of the new host, after the index has left the others.
joined :
    (i j : ℕ) (new h : String) (left : Dict String (List ℕ))
    → count j (indices_of h (insert new (sort (indices_of new left ++ i ∷ [])) left))
      ≡ count j (indices_of h left) + (if new =? h then (if eqb i j then 1 else 0) else 0)
joined i j new h left = elim (Bool-cases (new =? h)) [
  | inl here ↦
      rw
        (
          lookup-insert new h (sort (indices_of new left ++ i ∷ [])) left,
          here,
          count-sort,
          count-append,
        )
        (rw ((str_iff new h).0 here) (ground arith))
  | inr other ↦
      rw (lookup-insert new h (sort (indices_of new left ++ i ∷ [])) left, other) (omega arith)
]

-- The index is not registered under the host of the request.
abbrev pub IsElsewhere : ℕ → String → BasicDriverService → Type 0
IsElsewhere i h s = is_registered (lookup i s.task_index_host_hash) h ≡ 0

-- What the move does to each list.
move_index-counts :
    (i : ℕ) (new : String) (s : BasicDriverService)
    → IsConsistent s
    → IsElsewhere i new s
    → (indices : Dict String (List ℕ)) × (move_index i new s ≡ ok indices)
      × ((j : ℕ) (h : String)
          → count j (indices_of h indices)
            ≡ is_registered (lookup j (insert i new s.task_index_host_hash)) h)
unfolding move_index
move_index-counts i new s v away = elim (Option-cases (lookup i s.task_index_host_hash)) [
  | inl first ↦
      let table = s.task_host_hash_indices in
      (
        insert new (sort (indices_of new table ++ i ∷ [])) table,
        rw first refl,
        λ j h.
            joined i j new h table
            ∙ ground (
              arith,
              v.counted j h,
              first,
              eqb_iff i j,
              lookup-insert i j new s.task_index_host_hash,
            ),
      )
  | inr (old, known) ↦
      let ne : (old =? new) ≡ false = ground (arith, away, known) in
      let one : count i (indices_of old s.task_host_hash_indices) ≡ 1 =
        v.counted i old ∙ rw (known, same_refl old) refl in
      let (left, e, c) = leave-counts i new old s.task_host_hash_indices ne one in
      (
        insert new (sort (indices_of new left ++ i ∷ [])) left,
        rw (known, e) refl,
        λ j h.
            joined i j new h left
            ∙ ground (
              arith,
              c j h,
              v.counted j h,
              known,
              eqb_iff i j,
              str_iff old h,
              str_iff new h,
              str_iff old new,
              lookup-insert i j new s.task_index_host_hash,
            ),
      )
]

-- A task of the job that was not registered, or was registered under another host, can register with a
-- service whose maps agree: no exception is raised, and the maps agree again. A task that is
-- registered under the same host already is excluded: register_task_again tells what it does.
pub register_task-IsConsistent :
    (req : RegisterTaskRequest) (client : String) (s : BasicDriverService)
    → req.index < s.num_proc
    → IsElsewhere req.index req.host_hash s
    → IsConsistent s
    → (t : BasicDriverService) × (register_task req client s ≡ ok t) × IsConsistent t
unfolding register_task
register_task-IsConsistent req client s below away v =
    let (indices, e, c) = move_index-counts req.index req.host_hash s v away in
    (
      with_task req client indices s,
      rw (lt→ltb req.index s.num_proc below, e) refl,
      record { counted = c },
    )

-- A task that registers a second time under the same host, as a restarted one does, is counted
-- twice among the tasks of its host.
register_task_again :
    (req : RegisterTaskRequest) (client : String) (s : BasicDriverService)
    → req.index < s.num_proc
    → lookup req.index s.task_index_host_hash ≡ some req.host_hash
    → IsConsistent s
    → (t : BasicDriverService) × (register_task req client s ≡ ok t)
      × (count req.index (indices_of req.host_hash t.task_host_hash_indices) ≡ 2)
unfolding register_task move_index
register_task_again req client s below known v =
    let i = req.index in
    let h = req.host_hash in
    let table = s.task_host_hash_indices in
    let one : count i (indices_of h table) ≡ 1 = v.counted i h ∙ rw (known, same_refl h) refl in
    let indices = insert h (sort (indices_of h table ++ i ∷ [])) table in
    (
      with_task req client indices s,
      rw (lt→ltb i s.num_proc below, known, same_refl h) refl,
      joined i i h h table ∙ rw (same_refl h) (ground (arith, one)),
    )
