-- ===== src/Sampler.antt =====
-- horovod/torch/elastic/sampler.py: ElasticSampler. The numbers `size()` and `rank()` of the
-- communicator, the first positive and the second below it, are arguments of the methods that ask
-- for them, and so is the shuffling of `random.Random(seed)`.
pub mod Stride
pub mod Parts
pub mod Cover
pub mod Record
mod Tests
use horovod.Common.{
  ℕ, suc, ◌+◌, ◌*◌, ◌-◌, ◌/◌, min, Bool, true, false, Option, none, some, List, [], ◌∷◌, ◌++◌,
  length, take, drop, eqb, range_from, if◌then◌else◌, Key, rank_key,
}
use horovod.Common.Dict.{contains}
use horovod.Sampler.Stride.{every}

-- `processed_indices` is a set; `indices` is an attribute from the first iteration on.
pub record ElasticSampler : Type 0 where
  pub dataset_size : ℕ
  pub shuffle : Bool
  pub seed : ℕ
  pub epoch : ℕ
  pub processed_indices : List ℕ
  pub num_replicas : ℕ
  pub rank : ℕ
  pub remaining_indices : List ℕ
  pub num_samples : ℕ
  pub total_size : ℕ
  pub indices : Option (List ℕ)

-- [idx for idx in indices if idx not in processed]
unfoldable pub not_processed : List ℕ → List ℕ → List ℕ
not_processed processed [] = []
not_processed processed (i ∷ is) =
    let rest = not_processed processed is in if contains i processed then rest else i ∷ rest

-- int(math.ceil(a * 1.0 / b)), for numbers that a float holds exactly
abbrev pub ceil_div : ℕ → ℕ → ℕ
ceil_div a b = (a + b - 1) / b

unfoldable pub reset : ℕ → ℕ → ElasticSampler → ElasticSampler
reset size rank s =
    let remaining = not_processed s.processed_indices (range_from 0 s.dataset_size) in
    let num_samples = ceil_div (length remaining) size in
    record s {
      num_replicas = size;
      rank = rank;
      remaining_indices = remaining;
      num_samples = num_samples;
      total_size = num_samples * size;
    }

unfoldable pub new_sampler : ℕ → Bool → ℕ → ℕ → ℕ → ElasticSampler
new_sampler dataset_size shuffle seed size rank = reset size rank (record {
  dataset_size = dataset_size;
  shuffle = shuffle;
  seed = seed;
  epoch = 0;
  processed_indices = [];
  num_replicas = 0;
  rank = 0;
  remaining_indices = [];
  num_samples = 0;
  total_size = 0;
  indices = none;
})

unfoldable pub set_epoch : ℕ → ℕ → ℕ → ElasticSampler → ElasticSampler
set_epoch size rank epoch s = reset size rank (record s { epoch = epoch; processed_indices = [] })

unfoldable pub record_indices : List ℕ → ElasticSampler → ElasticSampler
record_indices is s = record s { processed_indices = s.processed_indices ++ is }

-- self.indices[start_idx:end_idx]
abbrev pub batch_of : ℕ → ℕ → List ℕ → List ℕ
batch_of batch_idx batch_size is =
    let start = batch_idx * batch_size in
    take (min (start + batch_size) (length is) - start) (drop start is)

-- `none` is the AttributeError before the first iteration.
unfoldable pub get_indices : ℕ → ℕ → ElasticSampler → Option (List ℕ)
get_indices batch_idx batch_size s = elim s.indices [
  | none ↦ none
  | some is ↦ some (batch_of batch_idx batch_size is)
]

unfoldable pub record_batch : ℕ → ℕ → ElasticSampler → Option ElasticSampler
record_batch batch_idx batch_size s = elim (get_indices batch_idx batch_size s) [
  | none ↦ none
  | some is ↦ some (record_indices is s)
]

unfoldable pub state_dict : ElasticSampler → ℕ × List ℕ
state_dict s = (s.epoch, s.processed_indices)

unfoldable pub load_state_dict : ℕ → ℕ → ℕ × List ℕ → ElasticSampler → ElasticSampler
load_state_dict size rank (epoch, processed) s =
    reset size rank (record s { epoch = epoch; processed_indices = processed })

module _ (shuffled : ℕ → List ℕ → List ℕ) where
  unfoldable pub ordered_indices : ElasticSampler → List ℕ
  ordered_indices s =
      if s.shuffle then shuffled (s.seed + s.epoch) s.remaining_indices else s.remaining_indices

  -- The indices with the extra samples.
  unfoldable pub padded_indices : ElasticSampler → List ℕ
  padded_indices s = let is = ordered_indices s in is ++ take (s.total_size - length is) is

  -- `__iter__`: the sampler with its indices, or `none` where an assertion fails.
  unfoldable pub iter : ElasticSampler → Option ElasticSampler
  iter s =
      let padded = padded_indices s in
      let mine = every s.num_replicas s.rank (take s.total_size padded) in
      if eqb (length padded) s.total_size
      then (if eqb (length mine) s.num_samples
          then some (record s { indices = some mine })
          else none)
      else none
