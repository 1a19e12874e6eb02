-- ===== src/Aggregation/Marks.antt =====
-- horovod/tensorflow/gradient_aggregation.py: which variables have gradients, and what they get.
use horovod.Common.{
  ℕ, suc, ◌+◌, ◌≡◌, refl, sym, ap, subst, ◌∙◌, Bool, true, false, Option, none, some, List, [], ◌∷◌,
  ◌++◌, length, get_elem?, range_from, append_assoc, length-append, rank_key, arith,
}
use horovod.Common.Dict.{Dict, lookup}
use horovod.Aggregation.{Helper, insert_none}

-- One tensor for each variable with a gradient, None for the others: `pattern` tells which have one.
unfoldable pub fill {ℓ} : {A : Type ℓ} → List Bool → List A → List (Option A)
fill [] ts = []
fill (false ∷ p) ts = none ∷ fill p ts
fill (true ∷ p) [] = []
fill (true ∷ p) (t ∷ ts) = some t ∷ fill p ts

unfoldable pub trues : List Bool → ℕ
trues [] = 0
trues (true ∷ p) = suc (trues p)
trues (false ∷ p) = trues p

-- From variable `idx` on, with `k` gradients before it, the indexes number the gradients.
abbrev pub Marks : Dict ℕ ℕ → ℕ → ℕ → List Bool → Type 0
Marks d idx k [] = Unit {0}
Marks d idx k (true ∷ p) = (lookup idx d ≡ some k) × Marks d (suc idx) (suc k) p
Marks d idx k (false ∷ p) = (lookup idx d ≡ none) × Marks d (suc idx) k p

-- The helper is initialised for variables with this pattern.
pub record IsMarked {T : Type 0} (p : List Bool) (h : Helper T) : Type 0 where
  pub marks : Marks h.not_none_indexes 0 0 p
  pub with_gradient : length h.locally_aggregated_grads ≡ trues p
  pub variables : length h.locally_aggregated_grads + h.num_none_grad_updates ≡ length p

get_elem?-middle {ℓ} :
    {A : Type ℓ} (before : List A) (t : A) (ts : List A)
    → get_elem? (before ++ t ∷ ts) (length before) ≡ some t
get_elem?-middle [] t ts = refl
get_elem?-middle (b ∷ before) t ts = get_elem?-middle before t ts

insert_none-Marks :
    {T : Type 0} (d : Dict ℕ ℕ) (idx : ℕ) (p : List Bool) (before ts : List T)
    → Marks d idx (length before) p
    → length ts ≡ trues p
    → insert_none d (before ++ ts) (range_from idx (length p)) ≡ fill p ts
unfolding insert_none fill trues
insert_none-Marks d idx [] before ts m e = refl
insert_none-Marks d idx (false ∷ p) before ts (here, m) e =
    rw (here) (ap (λ os. none ∷ os) (insert_none-Marks d (suc idx) p before ts m e))
insert_none-Marks d idx (true ∷ p) before [] (here, m) e = cc
insert_none-Marks d idx (true ∷ p) before (t ∷ ts) (here, m) e =
    let longer = before ++ t ∷ [] in
    let n : length longer ≡ suc (length before) = omega (arith, length-append before (t ∷ [])) in
    let rest : insert_none d (longer ++ ts) (range_from (suc idx) (length p)) ≡ fill p ts =
      insert_none-Marks d (suc idx) p longer ts (subst (λ k. Marks d (suc idx) k p) (sym n) m)
        (omega (arith, e)) in
    rw (here, get_elem?-middle before t ts)
      (ap (λ os. some t ∷ os)
        (ap (λ all. insert_none d all (range_from (suc idx) (length p)))
            (sym (append_assoc before (t ∷ []) ts))
          ∙ rest))

-- A helper that is initialised for the variables gives each its tensor.
pub insert_none-fill :
    {T : Type 0} (p : List Bool) (h : Helper T) (ts : List T) (n : ℕ)
    → IsMarked p h
    → length ts ≡ length h.locally_aggregated_grads
    → n ≡ length h.locally_aggregated_grads + h.num_none_grad_updates
    → insert_none h.not_none_indexes ts (range_from 0 n) ≡ fill p ts
insert_none-fill p h ts n m e same =
    ap (λ k. insert_none h.not_none_indexes ts (range_from 0 k)) (same ∙ m.variables)
    ∙ insert_none-Marks h.not_none_indexes 0 p [] ts m.marks (e ∙ m.with_gradient)
