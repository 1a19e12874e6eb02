-- ===== src/Sampler/Cover.antt =====
-- horovod/torch/elastic/sampler.py, __iter__: when it succeeds, and what the parts cover.
use horovod.Common.{
  ℕ, ◌+◌, ◌/◌, ◌%◌, ◌≤◌, ◌<◌, ◌≡◌, ◌↔◌, refl, ◌∙◌, true, none, some, List, length, get_elem?, take,
  arith, rank_key, Bool-cases, leb, leb→le, inl, inr, All,
}
use horovod.Common.Dict.{contains, All-contains}
use native.Mathlib.Nat.{mod-lt, mod-add-div'}
use horovod.Sampler.{ElasticSampler, reset, ordered_indices, padded_indices, iter}
use horovod.Sampler.Stride.{get_elem?-every}
use horovod.Sampler.Parts.{
  IsSized, reset-IsSized, IsShuffling, part, iter_enough, iter_few, take_all, position,
  contains-get_elem?, contains-every, contains-take, contains-padded_indices,
}

replicas :
    (size rank : ℕ) (s : ElasticSampler)
    → IsSized (reset size rank s)
    → size ≤ length (reset size rank s).remaining_indices
    → (reset size rank s).total_size
      ≤ length (reset size rank s).remaining_indices + length (reset size rank s).remaining_indices
unfolding reset
replicas size rank s sized many = omega (arith, sized.tight, many)

module _ (shuffled : ℕ → List ℕ → List ℕ) (sh : IsShuffling shuffled) where
  -- `__iter__` fails, by its first assertion, exactly when the padded size is more than twice the
  -- number of remaining indices: the extra samples are taken from these only once.
  pub iter_fails :
      (size rank : ℕ) (s : ElasticSampler)
      → rank < size
      → (iter shuffled (reset size rank s) ≡ none) ↔ (
          length (reset size rank s).remaining_indices
            + length (reset size rank s).remaining_indices
          < (reset size rank s).total_size)
  iter_fails size rank s h =
      let t = reset size rank s in
      let sized = reset-IsSized size rank s h in
      let n = length t.remaining_indices in
      (
        λ e. elim (Bool-cases (leb t.total_size (n + n))) [
          | inl enough ↦
              let (_, _, f) =
                iter_enough shuffled sh t sized (leb→le t.total_size (n + n) enough) in
              cc
          | inr few ↦ ground (arith, few)
        ],
        iter_few shuffled sh t sized,
      )

  enough_indices :
      (size rank : ℕ) (s : ElasticSampler)
      → rank < size
      → size ≤ length (reset size rank s).remaining_indices
      → (reset size rank s).total_size
        ≤ length (reset size rank s).remaining_indices
          + length (reset size rank s).remaining_indices
  enough_indices size rank s h many =
      let sized = reset-IsSized size rank s h in replicas size rank s sized many

  -- With at least as many remaining indices as workers, each worker gets `num_samples`
  -- indices, all of them remaining ones.
  pub iter-num_samples :
      (size rank : ℕ) (s : ElasticSampler)
      → rank < size
      → size ≤ length (reset size rank s).remaining_indices
      → (mine : List ℕ) × (iter shuffled (reset size rank s)
          ≡ some (record (reset size rank s) { indices = some mine }))
        × (length mine ≡ (reset size rank s).num_samples)
        × All (λ x. contains x (reset size rank s).remaining_indices ≡ true) mine
  iter-num_samples size rank s h many =
      let t = reset size rank s in
      let (_, k, f) =
        iter_enough shuffled sh t (reset-IsSized size rank s h)
          (enough_indices size rank s h many) in
      (
        part shuffled sh t,
        f,
        k,
        All-contains (λ x. contains x t.remaining_indices ≡ true) (part shuffled sh t)
            (λ x c. rw (← contains-padded_indices shuffled sh t x) (
              contains-take x t.total_size (padded_indices shuffled t) (
                contains-every x t.num_replicas t.rank
                  (take t.total_size (padded_indices shuffled t)) c))),
      )

  padded_indices-reset :
      (size rank : ℕ) (s : ElasticSampler)
      → padded_indices shuffled (reset size rank s) ≡ padded_indices shuffled (reset size 0 s)
  unfolding reset padded_indices ordered_indices
  padded_indices-reset size rank s = refl

  -- Together the workers get every remaining index.
  pub iter_covers :
      (size x : ℕ) (s : ElasticSampler)
      → 0 < size
      → size ≤ length (reset size 0 s).remaining_indices
      → contains x (reset size 0 s).remaining_indices ≡ true
      → (rank : ℕ) × (rank < size)
        × (mine : List ℕ) × (iter shuffled (reset size rank s)
            ≡ some (record (reset size rank s) { indices = some mine }))
        × (contains x mine ≡ true)
  unfolding reset
  iter_covers size x s pos many c =
      let t0 = reset size 0 s in
      let sized0 = reset-IsSized size 0 s pos in
      let (n0, _, _) = iter_enough shuffled sh t0 sized0 (enough_indices size 0 s pos many) in
      let (j, below, e) =
        position x (padded_indices shuffled t0) (rw (contains-padded_indices shuffled sh t0 x) c) in
      let r = j % size in
      let h = mod-lt j pos in
      let t = reset size r s in
      let (n, _, f) =
        iter_enough shuffled sh t (reset-IsSized size r s h) (enough_indices size r s h many) in
      let all = take_all t.total_size (padded_indices shuffled t) (omega (arith, n)) in
      let at_j : get_elem? (part shuffled sh t) (j / size) ≡ some x =
        get_elem?-every size r (take t.total_size (padded_indices shuffled t)) (j / size) pos
        ∙ rw (all, padded_indices-reset size r s, mod-add-div' j size) e in
      (r, h, part shuffled sh t, f, contains-get_elem? x (j / size) (part shuffled sh t) at_j)
