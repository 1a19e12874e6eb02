-- ===== src/Sampler/Tests.antt =====
-- Runs of the sampler over five indices, and its theorems at them.
use horovod.Common.{
  ℕ, ◌+◌, ◌<◌, ◌≤◌, ◌≡◌, ◌↔◌, refl, true, none, some, List, [], ◌∷◌, length, arith, rank_key,
}
use horovod.Common.Dict.{contains}
use horovod.Sampler.{
  ElasticSampler, new_sampler, not_processed, reset, record_indices, get_indices, ordered_indices,
  padded_indices, iter,
}
use horovod.Sampler.Stride.{every}
use horovod.Sampler.Parts.{IsShuffling}
use horovod.Sampler.Cover.{iter_fails, iter_covers}

-- A shuffling that moves nothing.
abbrev unmoved : ℕ → List ℕ → List ℕ
unmoved seed is = is

unmoved-IsShuffling : IsShuffling unmoved
unmoved-IsShuffling = record { count = λ seed xs. refl; same_items = λ seed x xs. refl }

abbrev five : ElasticSampler
five = new_sampler 5 true 7 2 1

abbrev one_left : ElasticSampler
one_left = record_indices (0 ∷ 1 ∷ 2 ∷ 3 ∷ []) five

second_of_two : iter unmoved five ≡ some (record five { indices = some (1 ∷ 3 ∷ 0 ∷ []) })
unfolding iter padded_indices ordered_indices every new_sampler reset not_processed contains
second_of_two = refl

one_for_two :
    iter unmoved (reset 2 1 one_left)
    ≡ some (record (reset 2 1 one_left) { indices = some (4 ∷ []) })
unfolding iter padded_indices ordered_indices every new_sampler reset not_processed contains
    record_indices
one_for_two = refl

one_for_three : iter unmoved (reset 3 1 one_left) ≡ none
unfolding iter padded_indices ordered_indices every new_sampler reset not_processed contains
    record_indices
one_for_three = refl

second_batch : get_indices 1 2 (record five { indices = some (1 ∷ 3 ∷ 0 ∷ []) }) ≡ some (0 ∷ [])
unfolding get_indices new_sampler reset
second_batch = refl

five-many : 2 ≤ length (reset 2 0 five).remaining_indices
unfolding new_sampler reset not_processed contains
five-many = omega arith

five-three : contains 3 (reset 2 0 five).remaining_indices ≡ true
unfolding new_sampler reset not_processed contains
five-three = refl

iter_fails_example : (iter unmoved (reset 3 1 one_left) ≡ none) ↔ (
    length (reset 3 1 one_left).remaining_indices + length (reset 3 1 one_left).remaining_indices
    < (reset 3 1 one_left).total_size)
iter_fails_example = iter_fails unmoved unmoved-IsShuffling 3 1 one_left (omega arith)

iter_covers_example :
    (rank : ℕ) × (rank < 2)
    × (mine : List ℕ) × (iter unmoved (reset 2 rank five)
        ≡ some (record (reset 2 rank five) { indices = some mine }))
    × (contains 3 mine ≡ true)
iter_covers_example =
    iter_covers unmoved unmoved-IsShuffling 2 3 five (omega arith) five-many five-three

abbrev iterated : ElasticSampler
iterated = record five { indices = some (1 ∷ 3 ∷ 0 ∷ []) }
