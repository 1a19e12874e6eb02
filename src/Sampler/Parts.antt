-- ===== src/Sampler/Parts.antt =====
-- horovod/torch/elastic/sampler.py, __iter__: the parts that the workers get.
use horovod.Common.{
  ℕ, zero, suc, ◌+◌, ◌-◌, ◌*◌, ◌≤◌, ◌<◌, ◌≡◌, refl, ap, ◌∙◌, true, none, some, List, [], ◌∷◌,
  length, get_elem?, take, min, arith, eqb_iff, ◌=?◌, rank_key, same_refl, Bool-cases, inl, inr,
  length-append, length-take,
}
use horovod.Common.Dict.{contains, contains-append}
use native.Mathlib.Nat.{div-add-mod', mod-lt}
use horovod.Sampler.{ElasticSampler, ceil_div, reset, ordered_indices, padded_indices, iter}
use horovod.Sampler.Stride.{every, length-every}

-- The numbers that `reset` leaves.
pub record IsSized (s : ElasticSampler) : Type 0 where
  pub below : s.rank < s.num_replicas
  pub total : s.total_size ≡ s.num_samples * s.num_replicas
  pub covers : length s.remaining_indices ≤ s.total_size
  pub tight : s.total_size < length s.remaining_indices + s.num_replicas

ceil_div-bounds : (a b : ℕ) → 0 < b → (a ≤ ceil_div a b * b) × (ceil_div a b * b < a + b)
ceil_div-bounds a b pos =
    let e = div-add-mod' (a + b - 1) b in
    let r = mod-lt (a + b - 1) pos in (omega (arith, e, r), omega (arith, e, r))

pub reset-IsSized : (size rank : ℕ) (s : ElasticSampler) → rank < size → IsSized (reset size rank s)
unfolding reset
reset-IsSized size rank s h =
    let n = length (reset size rank s).remaining_indices in
    let (a, b) = ceil_div-bounds n size (omega arith) in
    record { below = h; total = refl; covers = a; tight = b }

pub take_all {ℓ} : {A : Type ℓ} (n : ℕ) (xs : List A) → length xs ≤ n → take n xs ≡ xs
take_all zero [] h = refl
take_all zero (x ∷ xs) h = absurd (omega arith)
take_all (suc n) [] h = refl
take_all (suc n) (x ∷ xs) h = ap (λ t. x ∷ t) (take_all n xs (omega arith))

pub contains-take : (x n : ℕ) (xs : List ℕ) → contains x (take n xs) ≡ true → contains x xs ≡ true
unfolding contains
contains-take x zero xs c = cc
contains-take x (suc n) [] c = cc
contains-take x (suc n) (y ∷ xs) c = ground (arith, contains-take x n xs)

pub contains-every :
    (x step start : ℕ) (xs : List ℕ)
    → contains x (every step start xs) ≡ true
    → contains x xs ≡ true
unfolding contains every
contains-every x step start [] c = c
contains-every x step zero (y ∷ xs) c = ground (arith, contains-every x step (step - 1) xs)
contains-every x step (suc start) (y ∷ xs) c = ground (arith, contains-every x step start xs c)

pub contains-get_elem? : (x i : ℕ) (xs : List ℕ) → get_elem? xs i ≡ some x → contains x xs ≡ true
unfolding contains
contains-get_elem? x i [] e = cc
contains-get_elem? x zero (y ∷ xs) e = ground (arith, same_refl x)
contains-get_elem? x (suc i) (y ∷ xs) e = ground (arith, contains-get_elem? x i xs e)

pub position :
    (x : ℕ) (xs : List ℕ)
    → contains x xs ≡ true
    → (i : ℕ) × (i < length xs) × (get_elem? xs i ≡ some x)
unfolding contains
position x [] c = cc
position x (y ∷ xs) c = elim (Bool-cases (y =? x)) [
  | inl here ↦ (0, omega arith, ap some ((eqb_iff y x).0 here))
  | inr later ↦ let (i, h, e) = position x xs (rw later at c) in (suc i, omega (arith, h), e)
]

-- A shuffling keeps the number of items and the items.
pub record IsShuffling (shuffled : ℕ → List ℕ → List ℕ) : Type 0 where
  pub count : (seed : ℕ) (xs : List ℕ) → length (shuffled seed xs) ≡ length xs
  pub same_items : (seed x : ℕ) (xs : List ℕ) → contains x (shuffled seed xs) ≡ contains x xs

module _ (shuffled : ℕ → List ℕ → List ℕ) (sh : IsShuffling shuffled) (s : ElasticSampler) where
  length-ordered_indices : length (ordered_indices shuffled s) ≡ length s.remaining_indices
  unfolding ordered_indices
  length-ordered_indices = ground (arith, sh.count (s.seed + s.epoch) s.remaining_indices)

  contains-ordered_indices :
      (x : ℕ) → contains x (ordered_indices shuffled s) ≡ contains x s.remaining_indices
  unfolding ordered_indices
  contains-ordered_indices x =
      ground (arith, sh.same_items (s.seed + s.epoch) x s.remaining_indices)

  pub contains-padded_indices :
      (x : ℕ) → contains x (padded_indices shuffled s) ≡ contains x s.remaining_indices
  unfolding padded_indices
  contains-padded_indices x =
      let is = ordered_indices shuffled s in
      ground (
        arith,
        contains-ordered_indices x,
        contains-append x is (take (s.total_size - length is) is),
        contains-take x (s.total_size - length is) is,
      )

  length-padded_indices :
      length (padded_indices shuffled s)
      ≡ length s.remaining_indices
        + min (s.total_size - length s.remaining_indices) (length s.remaining_indices)
  unfolding padded_indices
  length-padded_indices = rw (length-append, length-take, length-ordered_indices) refl

  -- What `__iter__` keeps for this worker.
  abbrev pub part : List ℕ
  part = every s.num_replicas s.rank (take s.total_size (padded_indices shuffled s))

  module _ (sized : IsSized s) where
    pub iter_enough :
        s.total_size ≤ length s.remaining_indices + length s.remaining_indices
        → (length (padded_indices shuffled s) ≡ s.total_size)
          × (length part ≡ s.num_samples)
          × (iter shuffled s ≡ some (record s { indices = some part }))
    unfolding iter
    iter_enough h =
        let n : length (padded_indices shuffled s) ≡ s.total_size =
          length-padded_indices ∙ omega (arith, h, sized.covers) in
        let t = take_all s.total_size (padded_indices shuffled s) (omega (arith, n)) in
        let k : length part ≡ s.num_samples =
          length-every s.num_replicas s.rank s.num_samples
            (take s.total_size (padded_indices shuffled s)) sized.below
            (rw (t, n, sized.total) (omega arith))
            (rw (t, n, sized.total) (omega (arith, sized.below))) in
        (
          n,
          k,
          rw
              (
                (eqb_iff (length (padded_indices shuffled s)) s.total_size).1 n,
                (eqb_iff (length part) s.num_samples).1 k,
              )
              refl,
        )

    pub iter_few :
        length s.remaining_indices + length s.remaining_indices < s.total_size
        → iter shuffled s ≡ none
    unfolding iter
    iter_few h = ground (arith, length-padded_indices, h)
