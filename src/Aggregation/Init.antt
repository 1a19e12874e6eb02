-- ===== src/Aggregation/Init.antt =====
-- horovod/tensorflow/gradient_aggregation.py, _init_aggregation_vars: the helper that it leaves is
-- initialised for the variables of the gradients.
use horovod.Common.{
  ℕ, suc, ◌+◌, ◌≤◌, ◌<◌, ◌≡◌, refl, ap, subst, ◌∙◌, Bool, true, false, Option, none, some, List, [],
  ◌∷◌, ◌++◌, length, length-append, map, eqb, eqb_iff, rank_key, arith,
}
use horovod.Common.Dict.{lookup, insert, lookup-insert, lookup-insert_self}
use horovod.Aggregation.{
  Tensors, Grad, Result, ok, err, ◌>>=◌, assert, Helper, maybe_convert, init_from,
  init_aggregation_vars,
}
use horovod.Aggregation.Marks.{Marks, IsMarked, trues}

abbrev has_gradient {ℓ} : {A : Type ℓ} → Option A → Bool
has_gradient none = false
has_gradient (some g) = true

-- Which variables have a gradient.
abbrev pub pattern_of {ℓ} : {A : Type ℓ} → List (Option A) → List Bool
pattern_of grads = map has_gradient grads

bind-ok {ℓ κ} :
    {A : Type ℓ} {B : Type κ} (r : Result A) (f : A → Result B) (b : B)
    → (r >>= f) ≡ ok b
    → (a : A) × (r ≡ ok a) × (f a ≡ ok b)
bind-ok (ok a) f b h = (a, refl, h)
bind-ok (err e) f b h = cc

module _ {T : Type 0} (tensors : Tensors T) where
  record Started (idx : ℕ) (p : List Bool) (h t : Helper T) : Type 0 where
    kept : (j : ℕ) → j < idx → lookup j t.not_none_indexes ≡ lookup j h.not_none_indexes
    marks : Marks t.not_none_indexes idx (length h.locally_aggregated_grads) p
    with_gradient : length t.locally_aggregated_grads ≡ length h.locally_aggregated_grads + trues p
    variables :
        length t.locally_aggregated_grads + t.num_none_grad_updates
        ≡ length h.locally_aggregated_grads + h.num_none_grad_updates + length p

  init_from-Started :
      (idx : ℕ) (grads : List (Option (Grad T))) (h t : Helper T)
      → ((j : ℕ) → idx ≤ j → lookup j h.not_none_indexes ≡ none)
      → init_from tensors idx grads h ≡ ok t
      → Started idx (pattern_of grads) h t
  unfolding init_from trues
  init_from-Started idx [] h t free run =
      let same : h ≡ t = cc in
      rw (← same) (record {
        kept = λ j lt. refl;
        marks = tt;
        with_gradient = omega arith;
        variables = omega arith;
      })
  init_from-Started idx (none ∷ grads) h t free run =
      let u = record h { num_none_grad_updates = h.num_none_grad_updates + 1 } in
      let r = init_from-Started (suc idx) grads u t (λ j le. free j (omega (arith, le))) run in
      record {
        kept = λ j lt. r.kept j (omega (arith, lt));
        marks = (r.kept idx (omega arith) ∙ free idx (omega arith), r.marks);
        with_gradient = r.with_gradient;
        variables = omega (arith, r.variables);
      }
  init_from-Started idx (some g ∷ grads) h t free run =
      let n = length h.locally_aggregated_grads in
      let u = record h {
        not_none_indexes = insert idx n h.not_none_indexes;
        locally_aggregated_grads = h.locally_aggregated_grads ++ tensors.zeros ∷ [];
      } in
      let (_, _, rest) =
        bind-ok (maybe_convert h.sparse_as_dense g) (λ x. init_from tensors (suc idx) grads u) t
          run in
      let r =
        init_from-Started (suc idx) grads u t
          (λ j le. ground (
            arith,
            lookup-insert idx j n h.not_none_indexes,
            eqb_iff idx j,
            le,
            free j (omega (arith, le)),
          ))
          rest in
      let more : length u.locally_aggregated_grads ≡ suc n =
        omega (arith, length-append h.locally_aggregated_grads (tensors.zeros ∷ [])) in
      record {
        kept = λ j lt.
            r.kept j (omega (arith, lt))
            ∙ ground (arith, lookup-insert idx j n h.not_none_indexes, eqb_iff idx j, lt);
        marks = (
          r.kept idx (omega arith) ∙ lookup-insert_self idx n h.not_none_indexes,
          subst (λ k. Marks t.not_none_indexes (suc idx) k (pattern_of grads)) more r.marks,
        );
        with_gradient = omega (arith, r.with_gradient, more);
        variables = omega (arith, r.variables, more);
      }

  -- Of a helper without variables the initialisation makes one for the variables of the gradients.
  pub init_aggregation_vars-IsMarked :
      (grads : List (Option (Grad T))) (h t : Helper T)
      → h.locally_aggregated_grads ≡ []
      → h.not_none_indexes ≡ []
      → h.num_none_grad_updates ≡ 0
      → init_aggregation_vars tensors grads h ≡ ok t
      → IsMarked (pattern_of grads) t
  unfolding init_aggregation_vars lookup
  init_aggregation_vars-IsMarked grads h t no_grads no_indexes no_none run =
      let u = record h { counter = 0 } in
      let (v, started, rest) =
        bind-ok (init_from tensors 0 grads u)
          (λ v.
            assert
              (eqb (length v.locally_aggregated_grads + v.num_none_grad_updates) (length grads))
            >>= (λ x. ok v))
          t run in
      let (x, _, done) =
        bind-ok
          (assert
            (eqb (length v.locally_aggregated_grads + v.num_none_grad_updates) (length grads)))
          (λ x. ok v) t rest in
      let same : v ≡ t = cc in
      let n : length h.locally_aggregated_grads ≡ 0 = ap (λ ts. length ts) no_grads in
      let s = init_from-Started 0 grads u v (λ j le. rw (no_indexes) refl) started in
      subst (λ w. IsMarked (pattern_of grads) w) same
        (record {
          marks = subst (λ k. Marks v.not_none_indexes 0 k (pattern_of grads)) n s.marks;
          with_gradient = omega (arith, s.with_gradient, n);
          variables = omega (arith, s.variables, n, no_none);
        })
