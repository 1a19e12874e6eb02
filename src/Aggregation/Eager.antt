-- ===== src/Aggregation/Eager.antt =====
-- horovod/tensorflow/gradient_aggregation_eager.py: LocalGradientAggregationHelperEager, which keeps
-- a variable for each gradient by its index.
use horovod.Common.{
  ℕ, suc, ◌+◌, Bool, Option, none, some, List, [], ◌∷◌, length, eqb, leb, if◌then◌else◌, rank_key,
}
use horovod.Common.Dict.{Dict, lookup, insert}
use horovod.Aggregation.{
  Tensors, Grad, Result, ok, err, value_error, ◌>>=◌, assert, maybe_convert, Applied, increment,
}

pub record HelperEager (T : Type 0) : Type 0 where
  pub backward_passes_per_step : ℕ
  pub average_aggregated_gradients : Bool
  pub sparse_as_dense : Bool
  pub locally_aggregated_grads : Dict ℕ T
  pub counter : ℕ

unfoldable pub new_helper_eager : {T : Type 0} → ℕ → Bool → Bool → Result (HelperEager T)
new_helper_eager passes sparse average =
    if leb passes 0
    then err value_error
    else ok (record {
      backward_passes_per_step = passes;
      average_aggregated_gradients = average;
      sparse_as_dense = sparse;
      locally_aggregated_grads = [];
      counter = 0;
    })

module _ {T : Type 0} (tensors : Tensors T) where
  -- The value of the variable, which is made here if it is not there yet.
  abbrev pub or_zeros : Option T → T
  or_zeros none = tensors.zeros
  or_zeros (some t) = t

  -- The loop of `compute_gradients` from idx on: the variables and `resulting_grads`.
  unfoldable pub aggregate_from :
      Bool → ℕ → List (Option (Grad T)) → Dict ℕ T → Result (Dict ℕ T × List (Option T))
  aggregate_from sparse idx [] local = ok (local, [])
  aggregate_from sparse idx (none ∷ grads) local = do
    (after, results) ← aggregate_from sparse (suc idx) grads local
    ok (after, none ∷ results)
  aggregate_from sparse idx (some g ∷ grads) local = do
    t ← maybe_convert sparse g
    let total = tensors.plus (or_zeros (lookup idx local)) t in
        do
          (after, results) ← aggregate_from sparse (suc idx) grads (insert idx total local)
          ok (after, some total ∷ results)

  unfoldable pub clear_all : Dict ℕ T → Dict ℕ T
  clear_all [] = []
  clear_all ((idx, t) ∷ local) = (idx, tensors.plus t (tensors.negate t)) ∷ clear_all local

  unfoldable pub clear_vars : HelperEager T → HelperEager T
  clear_vars h = record h {
    counter = 0;
    locally_aggregated_grads = clear_all h.locally_aggregated_grads;
  }

  -- g / n for the gradients that are there
  unfoldable pub scale : ℕ → List (Option T) → List (Option T)
  scale n [] = []
  scale n (none ∷ grads) = none ∷ scale n grads
  scale n (some t ∷ grads) = some (tensors.divide t n) ∷ scale n grads

  -- `allreduce` is the function that the optimizer passes; it meets gradients that are None.
  module _ (allreduce : List (Option T) → List (Option T)) where
    unfoldable pub allreduce_helper : HelperEager T → List (Option T) → List (Option T)
    allreduce_helper h grads =
        if h.average_aggregated_gradients
        then scale h.backward_passes_per_step (allreduce grads)
        else allreduce grads

    abbrev pub all_reduce_and_clear :
        HelperEager T → ℕ → List (Option T) → Result (HelperEager T × List (Option T))
    all_reduce_and_clear h n grads =
        let reduced = allreduce_helper h grads in
        do _ ← assert (eqb (length reduced) n); ok (clear_vars h, reduced)

    unfoldable pub compute_gradients_eager :
        List (Option (Grad T)) → HelperEager T → Result (HelperEager T × List (Option T))
    compute_gradients_eager grads h = do
      (local, results) ← aggregate_from h.sparse_as_dense 0 grads h.locally_aggregated_grads
      _ ← assert (eqb (length local) (length grads))
      let t = record h { locally_aggregated_grads = local; counter = h.counter + 1 } in
          if eqb t.counter t.backward_passes_per_step
          then all_reduce_and_clear t (length grads) results
          else ok (t, results)

    -- A step before TensorFlow 2.4: the gradients are computed first, and applied when the counter is 0.
    unfoldable pub apply_gradients_first : HelperEager T → Applied → Applied
    apply_gradients_first h a =
        if eqb h.counter 0
        then record a { closure_calls = a.closure_calls + 1 }
        else record a { iterations = increment a.iterations }

    abbrev pub step_before_2_4 :
        List (Option (Grad T)) → HelperEager T × Applied → Result (HelperEager T × Applied)
    step_before_2_4 grads (h, a) = do
      (t, out) ← compute_gradients_eager grads h
      ok (t, apply_gradients_first t a)

    abbrev pub compute_and :
        List (Option (Grad T)) → HelperEager T → Applied → Result (HelperEager T × Applied)
    compute_and grads h a = do (t, out) ← compute_gradients_eager grads h; ok (t, a)

    -- Since 2.4 the closure, or what stands in for it, computes them.
    unfoldable pub apply_gradients_eager :
        List (Option (Grad T)) → HelperEager T × Applied → Result (HelperEager T × Applied)
    apply_gradients_eager grads (h, a) =
        if eqb (h.counter + 1) h.backward_passes_per_step
        then compute_and grads h (record a { closure_calls = a.closure_calls + 1 })
        else compute_and grads h (record a { iterations = increment a.iterations })
