-- ===== src/TorchElastic/Union.antt =====
-- horovod/torch/elastic/state.py, _union and the synchronisation of the samplers of all workers.
use horovod.Common.{
  ℕ, zero, suc, ◌+◌, ◌≡◌, refl, subst, Bool, false, ◌||◌, none, some, List, [], ◌∷◌, ◌++◌, length,
  inl, inr, Option-cases, get_elem?, map, eqb_iff, rank_key, arith,
}
use horovod.Common.Dict.{contains, contains-append, set_of}
use horovod.Sampler as Sampler
use horovod.Sampler.{ElasticSampler}
use horovod.TorchElastic.{union}

contains-set_of : (x : ℕ) (xs : List ℕ) → contains x (set_of xs) ≡ contains x xs
unfolding contains set_of
contains-set_of x [] = refl
contains-set_of x (y ∷ xs) = ground (arith, contains-set_of x xs, eqb_iff y x)

-- Whether some worker has processed the index.
unfoldable pub in_any : ℕ → List (List ℕ) → Bool
in_any x [] = false
in_any x (s ∷ sets) = contains x s || in_any x sets

pub contains-union : (x : ℕ) (sets : List (List ℕ)) → contains x (union sets) ≡ in_any x sets
unfolding union in_any contains
contains-union x [] = refl
contains-union x (s ∷ sets) = ground (
  arith,
  contains-union x sets,
  contains-set_of x (s ++ union sets),
  contains-append x s (union sets),
)

-- `sync` of the handlers of a sampler on all workers, in the order of their ranks: all gather the
-- indices and load what rank 0 broadcasts.
unfoldable pub load_all : ℕ → ℕ → ℕ × List ℕ → List ElasticSampler → List ElasticSampler
load_all size rank root [] = []
load_all size rank root (s ∷ ss) =
    Sampler.load_state_dict size rank root s ∷ load_all size (suc rank) root ss

abbrev pub gathered : List ElasticSampler → List (List ℕ)
gathered ss = map (λ s. s.processed_indices) ss

unfoldable pub sync_samplers : List ElasticSampler → List ElasticSampler
sync_samplers [] = []
sync_samplers (s ∷ ss) = load_all (length (s ∷ ss)) 0 (s.epoch, union (gathered (s ∷ ss))) (s ∷ ss)

get_elem?-load_all :
    (size rank i : ℕ) (root : ℕ × List ℕ) (ss : List ElasticSampler) (s : ElasticSampler)
    → get_elem? ss i ≡ some s
    → get_elem? (load_all size rank root ss) i
      ≡ some (Sampler.load_state_dict size (rank + i) root s)
unfolding load_all
get_elem?-load_all size rank i root [] s e = cc
get_elem?-load_all size rank zero root (t ∷ ss) s e =
    let r : rank + 0 ≡ rank = omega arith in let same : t ≡ s = cc in rw (r, same) refl
get_elem?-load_all size rank (suc i) root (t ∷ ss) s e =
    let r : rank + suc i ≡ suc rank + i = omega arith in
    rw (r) (get_elem?-load_all size (suc rank) i root ss s e)

-- After the synchronisation the worker of rank i has loaded the epoch of rank 0 and all indices.
pub get_elem?-sync_samplers :
    (i : ℕ) (s0 s : ElasticSampler) (ss : List ElasticSampler)
    → get_elem? (s0 ∷ ss) i ≡ some s
    → get_elem? (sync_samplers (s0 ∷ ss)) i
      ≡ some (Sampler.load_state_dict (length (s0 ∷ ss)) i (s0.epoch, union (gathered (s0 ∷ ss))) s)
unfolding sync_samplers
get_elem?-sync_samplers i s0 s ss e =
    let size = length (s0 ∷ ss) in
    let root : ℕ × List ℕ = (s0.epoch, union (gathered (s0 ∷ ss))) in
    let z : 0 + i ≡ i = omega arith in
    subst
      (λ r.
        get_elem? (load_all size 0 root (s0 ∷ ss)) i ≡ some (Sampler.load_state_dict size r root s))
      z (get_elem?-load_all size 0 i root (s0 ∷ ss) s e)

load_all-none :
    (size rank i : ℕ) (root : ℕ × List ℕ) (ss : List ElasticSampler)
    → get_elem? ss i ≡ none
    → get_elem? (load_all size rank root ss) i ≡ none
unfolding load_all
load_all-none size rank i root [] e = refl
load_all-none size rank zero root (s ∷ ss) e = cc
load_all-none size rank (suc i) root (s ∷ ss) e = load_all-none size (suc rank) i root ss e

-- Every sampler after the synchronisation was one before.
pub sync_samplers_from :
    (i : ℕ) (s0 t : ElasticSampler) (ss : List ElasticSampler)
    → get_elem? (sync_samplers (s0 ∷ ss)) i ≡ some t
    → (s : ElasticSampler) × (get_elem? (s0 ∷ ss) i ≡ some s)
      × (t ≡ Sampler.load_state_dict (length (s0 ∷ ss)) i (s0.epoch, union (gathered (s0 ∷ ss))) s)
unfolding sync_samplers
sync_samplers_from i s0 t ss e = elim (Option-cases (get_elem? (s0 ∷ ss) i)) [
  | inl gone ↦
      let none_too =
        load_all-none (length (s0 ∷ ss)) 0 i (s0.epoch, union (gathered (s0 ∷ ss))) (s0 ∷ ss)
          gone in
      cc
  | inr (s, here) ↦ let loaded = get_elem?-sync_samplers i s0 s ss here in (s, here, cc)
]
