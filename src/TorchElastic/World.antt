-- ===== src/TorchElastic/World.antt =====
-- horovod/torch/elastic/state.py, SamplerStateHandler.sync: what the samplers of all workers hand out
-- after it.
use horovod.Common.{
  ℕ, ◌≤◌, ◌<◌, ◌≡◌, ◌↔◌, refl, sym, ap, ◌∙◌, true, not, ◌&&◌, none, some, List, ◌∷◌, length,
  get_elem?, get_elem?-All, get_elem?-below, get_elem?-lt, ltb, range_from, rank_key, arith, All,
}
use horovod.Common.Dict.{contains, contains-All}
use horovod.Sampler as Sampler
use horovod.Sampler.{ElasticSampler, reset, iter, padded_indices, ordered_indices, not_processed}
use horovod.Sampler.Parts.{IsShuffling}
use horovod.Sampler.Cover.{iter_covers, iter-num_samples}
use horovod.Sampler.Record.{remaining-reset}
use horovod.TorchElastic.{union}
use horovod.TorchElastic.Union.{
  in_any, contains-union, gathered, sync_samplers, get_elem?-sync_samplers, sync_samplers_from,
}

-- Samplers over the same data, shuffled alike.
pub record IsLike (s t : ElasticSampler) : Type 0 where
  pub same_data : t.dataset_size ≡ s.dataset_size
  pub same_shuffle : t.shuffle ≡ s.shuffle
  pub same_seed : t.seed ≡ s.seed

-- The state that a sampler has after the broadcast and before the reset.
abbrev loaded : ElasticSampler → ElasticSampler → List ElasticSampler → ElasticSampler
loaded s s0 ss = record s { epoch = s0.epoch; processed_indices = union (gathered (s0 ∷ ss)) }

module _ (shuffled : ℕ → List ℕ → List ℕ) where
  -- A sampler like another one iterates over the same indices.
  iter_like :
      (size rank : ℕ) (s t : ElasticSampler)
      → IsLike s t
      → t.epoch ≡ s.epoch
      → t.processed_indices ≡ s.processed_indices
      → iter shuffled (reset size rank t) ≡ elim (iter shuffled (reset size rank s)) [
        | none ↦ none
        | some u ↦ some (record (reset size rank t) { indices = u.indices })
      ]
  unfolding iter reset padded_indices ordered_indices
  iter_like size rank s t like e p =
      rw (like.same_data, like.same_shuffle, like.same_seed, e, p) (ground arith)

  same_remaining :
      (size rank : ℕ) (s t : ElasticSampler)
      → IsLike s t
      → t.processed_indices ≡ s.processed_indices
      → (reset size rank t).remaining_indices ≡ (reset size rank s).remaining_indices
  unfolding reset
  same_remaining size rank s t like p = rw (like.same_data, p) refl

  -- Some worker gets the index.
  abbrev pub HandedOut : List ElasticSampler → ℕ → Type 0
  HandedOut ws x =
      (rank : ℕ) × (t u : ElasticSampler) × (mine : List ℕ) × (get_elem? ws rank ≡ some t)
      × (iter shuffled t ≡ some u)
      × (u.indices ≡ some mine)
      × (contains x mine ≡ true)

  module _ (sh : IsShuffling shuffled) (s0 : ElasticSampler) (ss : List ElasticSampler) where
    abbrev left : List ℕ
    left = not_processed (union (gathered (s0 ∷ ss))) (range_from 0 s0.dataset_size)

    remaining-loaded :
        (rank x : ℕ) (s : ElasticSampler)
        → IsLike s0 s
        → contains x (reset (length (s0 ∷ ss)) rank (loaded s s0 ss)).remaining_indices
          ≡ (ltb x s0.dataset_size && not (in_any x (gathered (s0 ∷ ss))))
    remaining-loaded rank x s like =
        remaining-reset (length (s0 ∷ ss)) rank x (loaded s s0 ss)
        ∙ rw (like.same_data, contains-union x (gathered (s0 ∷ ss))) refl

    many-loaded :
        (rank : ℕ) (s : ElasticSampler)
        → IsLike s0 s
        → length (s0 ∷ ss) ≤ length left
        → length (s0 ∷ ss)
          ≤ length (reset (length (s0 ∷ ss)) rank (loaded s s0 ss)).remaining_indices
    unfolding reset
    many-loaded rank s like many = rw (like.same_data) many

    -- What a worker gets, no worker had processed.
    handed_out_left :
        (x rank : ℕ) (s u : ElasticSampler) (mine : List ℕ)
        → rank < length (s0 ∷ ss)
        → IsLike s0 s
        → length (s0 ∷ ss) ≤ length left
        → iter shuffled (reset (length (s0 ∷ ss)) rank (loaded s s0 ss)) ≡ some u
        → u.indices ≡ some mine
        → contains x mine ≡ true
        → (ltb x s0.dataset_size && not (in_any x (gathered (s0 ∷ ss)))) ≡ true
    handed_out_left x rank s u mine h like many e i c =
        let t = reset (length (s0 ∷ ss)) rank (loaded s s0 ss) in
        let (own, f, _, all) =
          iter-num_samples shuffled sh (length (s0 ∷ ss)) rank (loaded s s0 ss) h
            (many-loaded rank s like many) in
        let got : u ≡ record t { indices = some own } = cc in
        let same : some mine ≡ some own = sym i ∙ ap (λ v. v.indices) got in
        let own_mine : mine ≡ own = cc in
        sym (remaining-loaded rank x s like)
        ∙ contains-All (λ y. contains y t.remaining_indices ≡ true) own x all (rw (← own_mine) c)

    handed_out :
        (x : ℕ)
        → All (IsLike s0) ss
        → length (s0 ∷ ss) ≤ length left
        → (ltb x s0.dataset_size && not (in_any x (gathered (s0 ∷ ss)))) ≡ true
        → HandedOut (sync_samplers (s0 ∷ ss)) x
    unfolding Sampler.load_state_dict
    handed_out x likes many c =
        let base = loaded s0 s0 ss in
        let own : IsLike s0 s0 = record {
          same_data = refl;
          same_shuffle = refl;
          same_seed = refl;
        } in
        let (rank, h, mine, f, has) =
          iter_covers shuffled sh (length (s0 ∷ ss)) x base (omega arith)
            (many-loaded 0 s0 own many) (remaining-loaded 0 x s0 own ∙ c) in
        let (s, here) = get_elem?-below (s0 ∷ ss) rank h in
        let like = get_elem?-All (IsLike s0) (s0 ∷ ss) rank s (own, likes) here in
        let t = reset (length (s0 ∷ ss)) rank (loaded s s0 ss) in
        let alike : IsLike base (loaded s s0 ss) = record {
          same_data = like.same_data;
          same_shuffle = like.same_shuffle;
          same_seed = like.same_seed;
        } in
        (
          rank,
          t,
          record t { indices = some mine },
          mine,
          get_elem?-sync_samplers rank s0 s ss here,
          iter_like (length (s0 ∷ ss)) rank base (loaded s s0 ss) alike refl refl ∙ rw (f) refl,
          refl,
          has,
        )

    -- After a synchronisation of samplers over the same data, shuffled alike, with at least as many
    -- indices left as there are workers, the workers iterate over exactly the indices of the
    -- dataset that none of them had processed.
    pub sync_samplers_cover :
        (x : ℕ)
        → All (IsLike s0) ss
        → length (s0 ∷ ss) ≤ length left
        → HandedOut (sync_samplers (s0 ∷ ss)) x
          ↔ ((ltb x s0.dataset_size && not (in_any x (gathered (s0 ∷ ss)))) ≡ true)
    unfolding Sampler.load_state_dict
    sync_samplers_cover x likes many = (
      λ (rank, t, u, mine, at_rank, e, i, c).
          let (s, here, same) = sync_samplers_from rank s0 t ss at_rank in
          let own : IsLike s0 s0 = record {
            same_data = refl;
            same_shuffle = refl;
            same_seed = refl;
          } in
          handed_out_left x rank s u mine (get_elem?-lt (s0 ∷ ss) rank s here)
            (get_elem?-All (IsLike s0) (s0 ∷ ss) rank s (own, likes) here) many (rw (← same) e) i c,
      handed_out x likes many,
    )
