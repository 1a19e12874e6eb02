-- ===== src/Aggregation/EagerCycle.antt =====
-- horovod/tensorflow/gradient_aggregation_eager.py: the two ways to apply gradients, and a gradient
-- that is None.
use horovod.Common.{
  ℕ, suc, ◌+◌, ◌≤◌, ◌<◌, ◌≡◌, refl, sym, ap, ◌∙◌, Bool, true, false, Option, none, some, List, [],
  ◌∷◌, length, eqb, if◌then◌else◌, rank_key, arith,
}
use horovod.Common.Dict.{Dict, insert, lookup}
use horovod.Aggregation.{
  Tensors, Grad, Result, ok, err, assertion_error, ◌>>=◌, assert, not_none, convert_all,
  maybe_convert, Applied, increment,
}
use horovod.Aggregation.Eager.{
  HelperEager, or_zeros, aggregate_from, clear_vars, allreduce_helper, all_reduce_and_clear,
  compute_gradients_eager, apply_gradients_first, step_before_2_4, apply_gradients_eager,
}

bind-ok {ℓ κ} :
    {A : Type ℓ} {B : Type κ} (r : Result A) (f : A → Result B) (b : B)
    → (r >>= f) ≡ ok b
    → (a : A) × (r ≡ ok a) × (f a ≡ ok b)
bind-ok (ok a) f b h = (a, refl, h)
bind-ok (err e) f b h = cc

length-insert : {T : Type 0} (k : ℕ) (v : T) (d : Dict ℕ T) → length (insert k v d) ≤ suc (length d)
unfolding insert
length-insert k v [] = omega arith
length-insert k v ((j, w) ∷ d) = ground (arith, length-insert k v d)

module _ {T : Type 0} (tensors : Tensors T) where
  -- The loop makes at most one variable for each gradient that is there.
  aggregate_from_few :
      (sparse : Bool) (idx : ℕ) (grads : List (Option (Grad T))) (local : Dict ℕ T) (ts : List T)
      → convert_all sparse (not_none grads) ≡ ok ts
      → (after : Dict ℕ T) × (results : List (Option T)) × (aggregate_from tensors sparse idx grads
            local
          ≡ ok (after, results))
        × (length after ≤ length local + length (not_none grads))
  unfolding aggregate_from not_none convert_all
  aggregate_from_few sparse idx [] local ts e = (local, [], refl, omega arith)
  aggregate_from_few sparse idx (none ∷ grads) local ts e =
      let (after, results, f, few) = aggregate_from_few sparse (suc idx) grads local ts e in
      (after, none ∷ results, rw (f) refl, few)
  aggregate_from_few sparse idx (some g ∷ grads) local ts e =
      let (t, here, more) =
        bind-ok (maybe_convert sparse g)
          (λ t. convert_all sparse (not_none grads) >>= (λ us. ok (t ∷ us))) ts e in
      let (us, all, _) =
        bind-ok (convert_all sparse (not_none grads)) (λ us. ok (t ∷ us)) ts more in
      let total = tensors.plus (or_zeros tensors (lookup idx local)) t in
      let (after, results, f, few) =
        aggregate_from_few sparse (suc idx) grads (insert idx total local) us all in
      (
        after,
        some total ∷ results,
        rw (here, f) refl,
        omega (arith, few, length-insert idx total local),
      )

  abbrev pub some_none : List (Option (Grad T)) → Bool
  some_none [] = false
  some_none (none ∷ grads) = true
  some_none (some g ∷ grads) = some_none grads

  fewer : (grads : List (Option (Grad T))) → length (not_none grads) ≤ length grads
  unfolding not_none
  fewer [] = omega arith
  fewer (none ∷ grads) = omega (arith, fewer grads)
  fewer (some g ∷ grads) = omega (arith, fewer grads)

  strictly_fewer :
      (grads : List (Option (Grad T)))
      → some_none grads ≡ true
      → length (not_none grads) < length grads
  unfolding not_none
  strictly_fewer [] h = cc
  strictly_fewer (none ∷ grads) h = omega (arith, fewer grads)
  strictly_fewer (some g ∷ grads) h = omega (arith, strictly_fewer grads h)

  -- What the last lines of `compute_gradients` return has the counter of the branch taken.
  counter_of :
      (n : ℕ) (t cleared : HelperEager T) (b full d : Bool) (reduced results : List (Option T))
      (r : HelperEager T × List (Option T))
      → t.counter ≡ n + 1
      → cleared.counter ≡ 0
      → (assert b
          >>= (λ _. if full then (assert d >>= (λ _. ok (cleared, reduced))) else ok (t, results)))
        ≡ ok r
      → r.0.counter ≡ (if full then 0 else n + 1)
  counter_of n t cleared false full d reduced results r a c e = cc
  counter_of n t cleared true true false reduced results r a c e = cc
  counter_of n t cleared true true true reduced results r a c e =
      let same : (cleared, reduced) ≡ r = cc in ap (λ x. x.0.counter) (sym same) ∙ c
  counter_of n t cleared true false d reduced results r a c e =
      let same : (t, results) ≡ r = cc in ap (λ x. x.0.counter) (sym same) ∙ a

  module _ (allreduce : List (Option T) → List (Option T)) where
    -- In the first step of a helper a gradient that is None makes the assertion on the number of
    -- variables fail, when the other gradients can be converted.
    pub none_fails :
        (h : HelperEager T) (grads : List (Option (Grad T))) (ts : List T)
        → h.locally_aggregated_grads ≡ []
        → some_none grads ≡ true
        → convert_all h.sparse_as_dense (not_none grads) ≡ ok ts
        → compute_gradients_eager tensors allreduce grads h ≡ err assertion_error
    unfolding compute_gradients_eager
    none_fails h grads ts e miss conv =
        let (after, results, f, few) = aggregate_from_few h.sparse_as_dense 0 grads [] ts conv in
        let unequal : eqb (length after) (length grads) ≡ false =
          ground (arith, few, strictly_fewer grads miss) in
        rw (e, f, unequal) refl

    counter-compute_gradients_eager :
        (grads : List (Option (Grad T))) (h : HelperEager T) (r : HelperEager T × List (Option T))
        → compute_gradients_eager tensors allreduce grads h ≡ ok r
        → r.0.counter
          ≡ (if eqb (h.counter + 1) h.backward_passes_per_step then 0 else h.counter + 1)
    unfolding compute_gradients_eager clear_vars
    counter-compute_gradients_eager grads h r e =
        let ((local, results), _, e2) =
          bind-ok (aggregate_from tensors h.sparse_as_dense 0 grads h.locally_aggregated_grads)
            (λ (local, results). do
              _ ← assert (eqb (length local) (length grads))
              let t = record h { locally_aggregated_grads = local; counter = h.counter + 1 } in
                  if eqb t.counter t.backward_passes_per_step
                  then all_reduce_and_clear tensors allreduce t (length grads) results
                  else ok (t, results))
            r e in
        counter_of h.counter
          (record h { locally_aggregated_grads = local; counter = h.counter + 1 })
          (clear_vars tensors
            (record h { locally_aggregated_grads = local; counter = h.counter + 1 }))
          (eqb (length local) (length grads)) (eqb (h.counter + 1) h.backward_passes_per_step)
          (eqb
            (length (
              allreduce_helper tensors allreduce
                (record h { locally_aggregated_grads = local; counter = h.counter + 1 }) results))
            (length grads))
          (allreduce_helper tensors allreduce
            (record h { locally_aggregated_grads = local; counter = h.counter + 1 }) results)
          results r refl refl e2

    abbrev with_applied :
        (HelperEager T → Applied)
        → HelperEager T × List (Option T)
        → Result (HelperEager T × Applied)
    with_applied f (t, out) = ok (t, f t)

    -- Before and since TensorFlow 2.4 the same steps apply the gradients, with the same results and
    -- errors.
    step_before_2_4-apply_gradients_eager :
        (grads : List (Option (Grad T))) (h : HelperEager T) (a : Applied)
        → step_before_2_4 tensors allreduce grads (h, a)
          ≡ apply_gradients_eager tensors allreduce grads (h, a)
    unfolding apply_gradients_eager apply_gradients_first
    step_before_2_4-apply_gradients_eager grads h a =
        go (compute_gradients_eager tensors allreduce grads h)
          (counter-compute_gradients_eager grads h)
      where
        go :
            (c : Result (HelperEager T × List (Option T)))
            → ((r : HelperEager T × List (Option T))
                → c ≡ ok r
                → r.0.counter
                  ≡ (if eqb (h.counter + 1) h.backward_passes_per_step then 0 else h.counter + 1))
            → (c >>= with_applied (λ t. apply_gradients_first tensors allreduce t a)) ≡ (
                if eqb (h.counter + 1) h.backward_passes_per_step
                then (c >>= with_applied (λ t. record a { closure_calls = a.closure_calls + 1 }))
                else (c >>= with_applied (λ t. record a { iterations = increment a.iterations })))
        go (err e) k = ground arith
        go (ok (t, out)) k = ground (arith, k (t, out) refl)
