-- ===== src/Aggregation.antt =====
-- horovod/tensorflow/gradient_aggregation.py: LocalGradientAggregationHelper, which adds gradients up
-- on a worker and reduces them once in `backward_passes_per_step` steps. What it takes from TensorFlow
-- and from the allreduce is a parameter; the operations that it puts into the graph are run in the
-- order of their control dependencies.
pub mod Marks
pub mod Init
pub mod Steps
pub mod Cycle
pub mod Eager
mod EagerCycle
mod Tests
use horovod.Common.{
  ℕ, zero, suc, ◌+◌, ◌≡◌, Bool, true, false, Option, none, some, List, [], ◌∷◌, ◌++◌, length,
  get_elem?, range_from, map, eqb, leb, if◌then◌else◌, rank_key,
}
use horovod.Common.Dict.{Dict, lookup, insert}

-- Tensors of all shapes; `allreduce` is the function that the optimizer passes.
pub record Tensors (T : Type 0) : Type 0 where
  pub zeros : T
  pub plus : T → T → T
  pub negate : T → T
  pub divide : T → ℕ → T
  pub allreduce : List T → List T

-- An IndexedSlices stands for the tensor that it converts to.
pub data Grad (T : Type 0) : Type 0 where
  dense slices : T → Grad T

pub data AggregationError : Type 0 where
  value_error assertion_error : AggregationError

pub data Result {ℓ} (A : Type ℓ) : Type ℓ where
  ok : A → Result A
  err : AggregationError → Result A

infixl 5 ◌>>=◌
abbrev pub ◌>>=◌ {ℓ κ} : {A : Type ℓ} {B : Type κ} → Result A → (A → Result B) → Result B
ok a >>= f = f a
err e >>= f = err e

-- assert b
abbrev pub assert : Bool → Result (Unit {0})
assert true = ok tt
assert false = err assertion_error

pub record Helper (T : Type 0) : Type 0 where
  pub backward_passes_per_step : ℕ
  pub average_aggregated_gradients : Bool
  pub sparse_as_dense : Bool
  pub locally_aggregated_grads : List T
  pub counter : ℕ
  pub not_none_indexes : Dict ℕ ℕ
  pub num_none_grad_updates : ℕ

-- get_not_none_from_list
unfoldable pub not_none : {A : Type 0} → List (Option A) → List A
not_none [] = []
not_none (none ∷ xs) = not_none xs
not_none (some x ∷ xs) = x ∷ not_none xs

module _ {T : Type 0} where
  unfoldable pub new_helper : ℕ → Bool → Bool → Result (Helper T)
  new_helper passes sparse average =
      if leb passes 0
      then err value_error
      else ok (record {
        backward_passes_per_step = passes;
        average_aggregated_gradients = average;
        sparse_as_dense = sparse;
        locally_aggregated_grads = [];
        counter = 0;
        not_none_indexes = [];
        num_none_grad_updates = 0;
      })

  abbrev pub convert_to_tensor : Grad T → T
  convert_to_tensor (dense t) = t
  convert_to_tensor (slices t) = t

  -- `_maybe_convert_grad` of a gradient that is not None
  abbrev pub maybe_convert : Bool → Grad T → Result T
  maybe_convert sparse (dense t) = ok t
  maybe_convert sparse (slices t) = if sparse then ok t else err value_error

  unfoldable pub convert_all : Bool → List (Grad T) → Result (List T)
  convert_all sparse [] = ok []
  convert_all sparse (g ∷ gs) = do
    t ← maybe_convert sparse g
    ts ← convert_all sparse gs
    ok (t ∷ ts)

  -- allreduced_grads[self.not_none_indexes[idx]], over range(n)
  unfoldable pub insert_none : Dict ℕ ℕ → List T → List ℕ → List (Option T)
  insert_none indexes ts [] = []
  insert_none indexes ts (idx ∷ idxs) =
      elim (lookup idx indexes) [ none ↦ none | some i ↦ get_elem? ts i ]
      ∷ insert_none indexes ts idxs

  abbrev pub gradient_divisor : Helper T → ℕ
  gradient_divisor h = if h.average_aggregated_gradients then h.backward_passes_per_step else 1

module _ {T : Type 0} (tensors : Tensors T) where
  -- The loop of `_init_aggregation_vars` from idx on.
  unfoldable pub init_from : ℕ → List (Option (Grad T)) → Helper T → Result (Helper T)
  init_from idx [] h = ok h
  init_from idx (none ∷ grads) h =
      init_from (suc idx) grads (record h { num_none_grad_updates = h.num_none_grad_updates + 1 })
  init_from idx (some g ∷ grads) h = do
    t ← maybe_convert h.sparse_as_dense g
    init_from (suc idx) grads (record h {
      not_none_indexes = insert idx (length h.locally_aggregated_grads) h.not_none_indexes;
      locally_aggregated_grads = h.locally_aggregated_grads ++ tensors.zeros ∷ [];
    })

  unfoldable pub init_aggregation_vars : List (Option (Grad T)) → Helper T → Result (Helper T)
  init_aggregation_vars grads h = do
    t ← init_from 0 grads (record h { counter = 0 })
    _ ← assert (eqb (length t.locally_aggregated_grads + t.num_none_grad_updates) (length grads))
    ok t

  unfoldable pub clear_grads : Helper T → Helper T
  clear_grads h = record h {
    locally_aggregated_grads = map (λ t. tensors.zeros) h.locally_aggregated_grads;
  }

  unfoldable pub add_all : List T → List T → List T
  add_all (t ∷ ts) (g ∷ gs) = tensors.plus t g ∷ add_all ts gs
  add_all ts gs = ts

  unfoldable pub aggregate_grads : List (Option (Grad T)) → Helper T → Result (Helper T)
  aggregate_grads grads h =
      let gs = not_none grads in
      do
        _ ← assert (eqb (length gs) (length h.locally_aggregated_grads))
        ok (record h {
          locally_aggregated_grads = add_all h.locally_aggregated_grads (map convert_to_tensor gs);
        })

  unfoldable pub allreduce_grads_helper : Helper T → Helper T × List T
  allreduce_grads_helper h =
      let averaged = tensors.allreduce h.locally_aggregated_grads in
      (record h { counter = 0 }, map (λ t. tensors.divide t (gradient_divisor h)) averaged)

  abbrev pub reduce_or_keep : List (Option (Grad T)) → Helper T → Result (Helper T × List T)
  reduce_or_keep grads h =
      if eqb h.counter h.backward_passes_per_step
      then ok (allreduce_grads_helper h)
      else do ts ← convert_all h.sparse_as_dense (not_none grads); ok (h, ts)

  -- One run of the graph that `compute_gradients` builds.
  unfoldable pub compute_gradients :
      List (Option (Grad T)) → Helper T → Result (Helper T × List (Option T))
  compute_gradients grads h = do
    added ← aggregate_grads grads (if eqb h.counter 0 then clear_grads h else h)
    (t, reduced) ← reduce_or_keep grads (record added { counter = added.counter + 1 })
    _ ← assert (eqb (length reduced) (length t.locally_aggregated_grads))
    ok (
      t,
      insert_none t.not_none_indexes reduced
          (range_from 0 (length t.locally_aggregated_grads + t.num_none_grad_updates)),
    )

-- What `apply_gradients` counts: the calls of the closure, and the iterations and global steps that
-- it adds in the other steps.
pub record Applied : Type 0 where
  pub closure_calls : ℕ
  pub iterations : Option ℕ
  pub global_step : Option ℕ

abbrev pub increment : Option ℕ → Option ℕ
increment none = none
increment (some n) = some (n + 1)

unfoldable pub apply_gradients : {T : Type 0} → Helper T → Applied → Applied
apply_gradients h a =
    if eqb h.counter 0
    then record a { closure_calls = a.closure_calls + 1 }
    else record a { iterations = increment a.iterations; global_step = increment a.global_step }
