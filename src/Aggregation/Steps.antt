-- ===== src/Aggregation/Steps.antt =====
-- horovod/tensorflow/gradient_aggregation.py: the steps of a cycle before its last one.
use horovod.Common.{
  ℕ, suc, ◌+◌, ◌<◌, ◌≡◌, refl, ap, ◌∙◌, Bool, true, false, Option, List, [], ◌∷◌, length, map, eqb,
  eqb_iff, if◌then◌else◌, rank_key, arith, All, Bool-cases, inl, inr,
}
use horovod.Aggregation.Marks.{fill, IsMarked, insert_none-fill}
use horovod.Aggregation.{
  Tensors, Grad, Result, ok, ◌>>=◌, Helper, not_none, convert_to_tensor, convert_all, clear_grads,
  add_all, aggregate_grads, gradient_divisor, compute_gradients, Applied, apply_gradients,
}

pub length-map {ℓ κ} :
    {A : Type ℓ} {B : Type κ} (f : A → B) (xs : List A) → length (map f xs) ≡ length xs
length-map f [] = refl
length-map f (x ∷ xs) = ap suc (length-map f xs)

module _ {T : Type 0} (tensors : Tensors T) where
  pub length-add_all : (ts gs : List T) → length (add_all tensors ts gs) ≡ length ts
  unfolding add_all
  length-add_all [] gs = refl
  length-add_all (t ∷ ts) [] = refl
  length-add_all (t ∷ ts) (g ∷ gs) = ap suc (length-add_all ts gs)

  -- The gradients that are there, as tensors.
  abbrev pub dense_of : List (Option (Grad T)) → List T
  dense_of grads = map convert_to_tensor (not_none grads)

  -- Gradients for m variables, all of which can be converted.
  pub record IsBatch (m : ℕ) (sparse : Bool) (grads : List (Option (Grad T))) : Type 0 where
    pub complete : length (not_none grads) ≡ m
    pub converted : convert_all sparse (not_none grads) ≡ ok (dense_of grads)

  -- What the gradients of a step are added to.
  abbrev pub base : Helper T → List T
  base h =
      if eqb h.counter 0
      then map (λ t. tensors.zeros) h.locally_aggregated_grads
      else h.locally_aggregated_grads

  abbrev pub sums : List T → List (List (Option (Grad T))) → List T
  sums ts [] = ts
  sums ts (grads ∷ batches) = sums (add_all tensors ts (dense_of grads)) batches

  abbrev pub moved : List (Option (Grad T)) → Helper T → Helper T
  moved grads h = record h {
    locally_aggregated_grads = add_all tensors (base h) (dense_of grads);
    counter = h.counter + 1;
  }

  pub length-base : (h : Helper T) → length (base h) ≡ length h.locally_aggregated_grads
  length-base h = elim (Bool-cases (eqb h.counter 0)) [
    | inl e ↦ rw (e) (length-map (λ t. tensors.zeros) h.locally_aggregated_grads)
    | inr e ↦ rw (e) refl
  ]

  pub eqb_refl : (n : ℕ) → eqb n n ≡ true
  eqb_refl n = (eqb_iff n n).1 refl

  pub aggregate_grads-base :
      (h : Helper T) (grads : List (Option (Grad T)))
      → length (not_none grads) ≡ length h.locally_aggregated_grads
      → aggregate_grads tensors grads (if eqb h.counter 0 then clear_grads tensors h else h)
        ≡ ok (record h { locally_aggregated_grads = add_all tensors (base h) (dense_of grads) })
  unfolding aggregate_grads clear_grads
  aggregate_grads-base h grads e = elim (Bool-cases (eqb h.counter 0)) [
    | inl z ↦
        rw
          (
            z,
            e,
            length-map (λ t. tensors.zeros) h.locally_aggregated_grads,
            eqb_refl (length h.locally_aggregated_grads),
          )
          refl
    | inr z ↦ rw (z, e, eqb_refl (length h.locally_aggregated_grads)) refl
  ]

  compute_gradients_kept :
      (p : List Bool) (h : Helper T) (grads : List (Option (Grad T)))
      → IsMarked p h
      → IsBatch (length h.locally_aggregated_grads) h.sparse_as_dense grads
      → eqb (h.counter + 1) h.backward_passes_per_step ≡ false
      → compute_gradients tensors grads h ≡ ok (moved grads h, fill p (dense_of grads))
  unfolding compute_gradients
  compute_gradients_kept p h grads marked batch more =
      let same = length-add_all (base h) (dense_of grads) ∙ length-base h in
      let d = length-map convert_to_tensor (not_none grads) ∙ batch.complete in
      rw
        (
          aggregate_grads-base h grads batch.complete,
          more,
          batch.converted,
          d,
          same,
          eqb_refl (length h.locally_aggregated_grads),
        )
        (ap (λ out. ok (moved grads h, out))
          (insert_none-fill p h (dense_of grads)
            (length h.locally_aggregated_grads + h.num_none_grad_updates) marked d refl))

  -- A reduced tensor of a cycle of n steps: divided by n when the gradients are averaged, else by 1.
  abbrev pub scaled : Helper T → ℕ → T → T
  scaled h n t = if h.average_aggregated_gradients then tensors.divide t n else tensors.divide t 1

  pub divided-scaled :
      (h : Helper T) (ts : List T)
      → map (λ t. tensors.divide t (gradient_divisor h)) ts
        ≡ map (scaled h h.backward_passes_per_step) ts
  divided-scaled h ts = elim (Bool-cases h.average_aggregated_gradients) [
    | inl e ↦ rw (e) refl
    | inr e ↦ rw (e) refl
  ]

  -- A step of the training: the gradients are computed and applied.
  abbrev pub train_step :
      List (Option (Grad T)) → Helper T × Applied → Result ((Helper T × Applied) × List (Option T))
  train_step grads (h, a) = do
    (t, out) ← compute_gradients tensors grads h
    ok ((t, apply_gradients t a), out)

  -- The steps, with what each gives to the variables.
  unfoldable pub train :
      List (List (Option (Grad T)))
      → Helper T × Applied
      → Result ((Helper T × Applied) × List (List (Option T)))
  train [] s = ok (s, [])
  train (grads ∷ batches) s = do
    (t, out) ← train_step grads s
    (u, outs) ← train batches t
    ok (u, out ∷ outs)

  -- A helper after some steps without a reduction.
  pub record Underway (h t : Helper T) (a b : Applied) (batches : List (List (Option (Grad T))))
      : Type 0 where
    pub steps : t.counter ≡ h.counter + length batches
    pub summed : base t ≡ sums (base h) batches
    pub same_size : length t.locally_aggregated_grads ≡ length h.locally_aggregated_grads
    pub same_sparse : t.sparse_as_dense ≡ h.sparse_as_dense
    pub same_passes : t.backward_passes_per_step ≡ h.backward_passes_per_step
    pub same_average : t.average_aggregated_gradients ≡ h.average_aggregated_gradients
    pub same_indexes : t.not_none_indexes ≡ h.not_none_indexes
    pub same_none : t.num_none_grad_updates ≡ h.num_none_grad_updates
    pub not_applied : b.closure_calls ≡ a.closure_calls

  pub train-Underway :
      (p : List Bool) (batches : List (List (Option (Grad T)))) (h : Helper T) (a : Applied)
      → IsMarked p h
      → All (IsBatch (length h.locally_aggregated_grads) h.sparse_as_dense) batches
      → h.counter + length batches < h.backward_passes_per_step
      → (t : Helper T) × (b : Applied) × (train batches (h, a)
          ≡ ok ((t, b), map (λ grads. fill p (dense_of grads)) batches))
        × Underway h t a b batches
  unfolding train apply_gradients
  train-Underway p [] h a marked all below = (
    h,
    a,
    refl,
    record {
      steps = omega arith;
      summed = refl;
      same_size = refl;
      same_sparse = refl;
      same_passes = refl;
      same_average = refl;
      same_indexes = refl;
      same_none = refl;
      not_applied = refl;
    },
  )
  train-Underway p (grads ∷ batches) h a marked (batch, all) below =
      let more : eqb (h.counter + 1) h.backward_passes_per_step ≡ false = ground (arith, below) in
      let e = compute_gradients_kept p h grads marked batch more in
      let now = moved grads h in
      let size : length now.locally_aggregated_grads ≡ length h.locally_aggregated_grads =
        length-add_all (base h) (dense_of grads) ∙ length-base h in
      let nonzero : eqb now.counter 0 ≡ false = ground arith in
      let a2 = apply_gradients now a in
      let marked2 : IsMarked p now = record {
        marks = marked.marks;
        with_gradient = size ∙ marked.with_gradient;
        variables = omega (arith, size, marked.variables);
      } in
      let (t, b, run, u) =
        train-Underway p batches now a2 marked2 (rw (size) all) (omega (arith, below)) in
      (
        t,
        b,
        rw (e, run) refl,
        record {
          steps = u.steps ∙ omega arith;
          summed = u.summed ∙ rw (nonzero) refl;
          same_size = u.same_size ∙ size;
          same_sparse = u.same_sparse;
          same_passes = u.same_passes;
          same_average = u.same_average;
          same_indexes = u.same_indexes;
          same_none = u.same_none;
          not_applied = u.not_applied ∙ rw (nonzero) refl;
        },
      )
