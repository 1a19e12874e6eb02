-- ===== src/Sampler/Record.antt =====
-- horovod/torch/elastic/sampler.py: the indices recorded as processed, and the saved state.
use horovod.Common.{
  ℕ, zero, suc, ◌+◌, ◌≤◌, ◌≡◌, refl, ◌∙◌, some, List, [], ◌∷◌, ◌++◌, not, ◌&&◌, ltb, eqb, eqb_iff,
  arith, range_from, ◌=?◌, rank_key, Bool-cases, inl, inr,
}
use horovod.Common.Dict.{contains, contains-append}
use horovod.Sampler.{
  ElasticSampler, not_processed, reset, set_epoch, record_indices, get_indices, record_batch,
  state_dict, load_state_dict, batch_of,
}

contains-not_processed :
    (x : ℕ) (processed is : List ℕ)
    → contains x (not_processed processed is) ≡ (contains x is && not (contains x processed))
unfolding not_processed contains
contains-not_processed x processed [] = refl
contains-not_processed x processed (i ∷ is) = elim (Bool-cases (i =? x)) [
  | inl here ↦ let e = (eqb_iff i x).0 here in ground (arith, contains-not_processed x processed is)
  | inr other ↦ ground (arith, contains-not_processed x processed is)
]

contains-range_from :
    (x start n : ℕ) → start ≤ x → contains x (range_from start n) ≡ ltb x (start + n)
unfolding contains
contains-range_from x start zero h = ground arith
contains-range_from x start (suc n) h = elim (Bool-cases (eqb start x)) [
  | inl here ↦ ground arith
  | inr later ↦
      let e : suc start + n ≡ start + suc n = omega arith in
      rw later (rw e at (contains-range_from x (suc start) n (ground arith)))
]

-- What remains after a reset: the indices of the dataset that are not processed.
pub remaining-reset :
    (size rank x : ℕ) (s : ElasticSampler)
    → contains x (reset size rank s).remaining_indices
      ≡ (ltb x s.dataset_size && not (contains x s.processed_indices))
unfolding reset
remaining-reset size rank x s =
    contains-not_processed x s.processed_indices (range_from 0 s.dataset_size)
    ∙ rw (contains-range_from x 0 s.dataset_size (omega arith)) (ground arith)

-- A batch that is recorded is excluded by the next reset, with any size and rank, and nothing else.
record_batch-reset :
    (batch_idx batch_size size rank x : ℕ) (s : ElasticSampler) (mine : List ℕ)
    → s.indices ≡ some mine
    → (t : ElasticSampler) × (record_batch batch_idx batch_size s ≡ some t)
      × (contains x (reset size rank t).remaining_indices ≡ (
          contains x (reset size rank s).remaining_indices
          && not (contains x (batch_of batch_idx batch_size mine))))
unfolding record_batch get_indices record_indices
record_batch-reset batch_idx batch_size size rank x s mine e =
    let batch = batch_of batch_idx batch_size mine in
    let t : ElasticSampler = record s { processed_indices = s.processed_indices ++ batch } in
    (
      t,
      rw e refl,
      ground (
        arith,
        remaining-reset size rank x t,
        remaining-reset size rank x s,
        contains-append x s.processed_indices batch,
      ),
    )

-- A sampler that loads the state of another one over the same dataset, whatever it did before, has
-- the remaining indices, the number of samples and the epoch of that one after a reset.
load_state_dict-state_dict :
    (size rank : ℕ) (s t : ElasticSampler)
    → t.dataset_size ≡ s.dataset_size
    → ((load_state_dict size rank (state_dict s) t).remaining_indices
        ≡ (reset size rank s).remaining_indices)
      × ((load_state_dict size rank (state_dict s) t).num_samples ≡ (reset size rank s).num_samples)
      × ((load_state_dict size rank (state_dict s) t).epoch ≡ s.epoch)
unfolding load_state_dict state_dict reset
load_state_dict-state_dict size rank s t e = rw e (refl, refl, refl)

-- A new epoch has the whole dataset again.
remaining-set_epoch :
    (size rank epoch x : ℕ) (s : ElasticSampler)
    → contains x (set_epoch size rank epoch s).remaining_indices ≡ ltb x s.dataset_size
unfolding set_epoch contains
remaining-set_epoch size rank epoch x s =
    remaining-reset size rank x (record s { epoch = epoch; processed_indices = [] }) ∙ ground arith
