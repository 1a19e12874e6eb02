-- ===== src/Spark/Ranks.antt =====
-- horovod/spark/driver/driver_service.py: no task is known under two ranks.
use horovod.Common.{
  ℕ, String, ◌≡◌, ◌⊎◌, refl, true, false, Option, none, some, List, [], ◌∷◌, get_elem?, eqb,
  eqb_iff, arith, host_key, rank_key, Bool-cases, Option-cases, inl, inr,
}
use horovod.Common.Dict.{Dict, lookup, insert, erase, contains, Nodup, lookup-insert_self}
use horovod.DriverService.{Result, ok, err, key_error, index_error}
use horovod.Spark.{SparkDriverService, rank_of, without, set_local_rank_to_rank, task_index_by_rank}

abbrev pub values : Dict ℕ ℕ → List ℕ
values [] = []
values ((k, v) ∷ d) = v ∷ values d

contains-values-erase :
    (x k : ℕ) (d : Dict ℕ ℕ)
    → contains x (values d) ≡ false
    → contains x (values (erase k d)) ≡ false
unfolding contains erase
contains-values-erase x k [] h = refl
contains-values-erase x k ((j, w) ∷ d) h = ground (arith, contains-values-erase x k d)

Nodup-values-erase : (k : ℕ) (d : Dict ℕ ℕ) → Nodup (values d) → Nodup (values (erase k d))
unfolding erase
Nodup-values-erase k [] h = tt
Nodup-values-erase k ((j, w) ∷ d) (c, h) = elim (Bool-cases (eqb j k)) [
  | inl own ↦ rw own (Nodup-values-erase k d h)
  | inr other ↦ rw other (contains-values-erase w k d c, Nodup-values-erase k d h)
]

contains-values-insert :
    (x k v : ℕ) (d : Dict ℕ ℕ)
    → contains x (values d) ≡ false
    → eqb v x ≡ false
    → contains x (values (insert k v d)) ≡ false
unfolding contains insert
contains-values-insert x k v [] h ne = ground arith
contains-values-insert x k v ((j, w) ∷ d) h ne = ground (arith, contains-values-insert x k v d)

Nodup-values-insert :
    (k v : ℕ) (d : Dict ℕ ℕ)
    → Nodup (values d)
    → contains v (values d) ≡ false
    → Nodup (values (insert k v d))
unfolding insert contains
Nodup-values-insert k v [] h new = (refl, tt)
Nodup-values-insert k v ((j, w) ∷ d) (c, h) new = elim (Bool-cases (eqb j k)) [
  | inl own ↦ rw own (ground (arith, new), h)
  | inr other ↦ rw other (
    contains-values-insert w k v d c (ground (arith, new)),
    Nodup-values-insert k v d h (ground (arith, new)),
  )
]

-- The value of the first rank with the index is gone when that rank is.
gone :
    (i : ℕ) (d : Dict ℕ ℕ)
    → Nodup (values d)
    → contains i (values (without (rank_of i d) d)) ≡ false
unfolding rank_of contains erase
gone i [] h = refl
gone i ((j, w) ∷ d) (c, h) = elim (Bool-cases (eqb w i)) [
  | inl own ↦
      let c' : contains i (values d) ≡ false = rw ((eqb_iff w i).0 own) at c in
      let e : eqb j j ≡ true = ground arith in rw (own, e) (contains-values-erase i j d c')
  | inr other ↦ rw other (later (rank_of i d) (gone i d h) other)
]
  where
    later :
        (o : Option ℕ)
        → contains i (values (without o d)) ≡ false
        → eqb w i ≡ false
        → contains i (values (without o ((j, w) ∷ d))) ≡ false
    later none h ne = ground (arith, h)
    later (some p) h ne = ground (arith, h)

without-Nodup : (o : Option ℕ) (d : Dict ℕ ℕ) → Nodup (values d) → Nodup (values (without o d))
without-Nodup none d h = h
without-Nodup (some r) d h = Nodup-values-erase r d h

-- An answer names the index that stands at the local rank among those of the host; under this index the
-- rank is found from now on, and no task has two ranks. An error is the KeyError of a host that is not
-- known, or the IndexError of a local rank beyond the indices of the host.
abbrev pub IsRankSet :
    String → ℕ → ℕ → SparkDriverService → Result (SparkDriverService × ℕ) → Type 0
IsRankSet host local_rank rank s (ok (t, i)) =
    (indices : List ℕ) × (lookup host s.basic.task_host_hash_indices ≡ some indices)
    × (get_elem? indices local_rank ≡ some i)
    × Nodup (values t.ranks_to_indices)
    × (task_index_by_rank rank t ≡ ok i)
IsRankSet host local_rank rank s (err e) =
    ((lookup host s.basic.task_host_hash_indices ≡ none) × (e ≡ key_error))
    ⊎ ((indices : List ℕ) × (lookup host s.basic.task_host_hash_indices ≡ some indices)
        × (get_elem? indices local_rank ≡ none)
        × (e ≡ index_error))

-- When no task has two ranks, setting the rank of the task at a host and a local rank keeps it so, and
-- makes this task's index the one that is found for the rank; it raises KeyError exactly when the host
-- is not known, and IndexError exactly when the host has no such local rank.
pub set_local_rank_to_rank-IsRankSet :
    (host : String) (local_rank rank : ℕ) (s : SparkDriverService)
    → Nodup (values s.ranks_to_indices)
    → IsRankSet host local_rank rank s (set_local_rank_to_rank host local_rank rank s)
unfolding set_local_rank_to_rank task_index_by_rank
set_local_rank_to_rank-IsRankSet host local_rank rank s h =
    elim (Option-cases (lookup host s.basic.task_host_hash_indices)) [
      | inl missing ↦ rw missing (inl (missing, refl))
      | inr (indices, there) ↦ elim (Option-cases (get_elem? indices local_rank)) [
        | inl beyond ↦ rw (there, beyond) (inr (indices, there, beyond, refl))
        | inr (i, found) ↦
            let rest = without (rank_of i s.ranks_to_indices) s.ranks_to_indices in
            rw (there, found)
              (
                indices,
                there,
                found,
                Nodup-values-insert rank i rest
                    (without-Nodup (rank_of i s.ranks_to_indices) s.ranks_to_indices h)
                    (gone i s.ranks_to_indices h),
                rw (lookup-insert_self rank i rest) refl,
              )
      ]
    ]
