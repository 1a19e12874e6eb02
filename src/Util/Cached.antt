-- ===== src/Util/Cached.antt =====
-- horovod/common/util.py, _cache: the function runs once for each key.
use horovod.Common.{◌≡◌, refl, ap, Option, none, some, List, [], ◌∷◌, Key, arith}
use horovod.Common.Dict.{Dict, lookup, lookup-insert, lookup-insert_self}
use horovod.Util.{cached, answer}

module _ {K V W : Type 0} ⦃key : Key K⦄ (f : K → W → V × W) where
  -- The state after calls with the given keys.
  unfoldable pub calls : List K → Dict K V × W → Dict K V × W
  calls [] s = s
  calls (k ∷ ks) s = calls ks (cached f k s).1

  hit :
      (k : K) (v : V) (cache : Dict K V) (w : W)
      → lookup k cache ≡ some v
      → cached f k (cache, w) ≡ (v, (cache, w))
  unfolding cached
  hit k v cache w e = ap (λ o. answer f k o cache w) e

  stored_answer :
      (k : K) (o : Option V) (cache : Dict K V) (w : W)
      → lookup k cache ≡ o
      → lookup k (answer f k o cache w).1.0 ≡ some (answer f k o cache w).0
  stored_answer k none cache w e = lookup-insert_self k (f k w).0 cache
  stored_answer k (some v) cache w e = e

  kept_answer :
      (k j : K) (v : V) (o : Option V) (cache : Dict K V) (w : W)
      → lookup j cache ≡ o
      → lookup k cache ≡ some v
      → lookup k (answer f j o cache w).1.0 ≡ some v
  kept_answer k j v none cache w miss e =
      ground (arith, lookup-insert j k (f j w).0 cache, key.same_iff j k, miss, e)
  kept_answer k j v (some u) cache w found e = e

  first_stored :
      (k : K) (cache : Dict K V) (w : W)
      → lookup k (cached f k (cache, w)).1.0 ≡ some (cached f k (cache, w)).0
  unfolding cached
  first_stored k cache w = stored_answer k (lookup k cache) cache w refl

  -- What is in the cache stays there.
  kept :
      (k : K) (v : V) (ks : List K) (s : Dict K V × W)
      → lookup k s.0 ≡ some v
      → lookup k (calls ks s).0 ≡ some v
  unfolding calls cached
  kept k v [] s e = e
  kept k v (j ∷ ks) (cache, w) e =
      kept k v ks (cached f j (cache, w)).1 (kept_answer k j v (lookup j cache) cache w refl e)

  -- Once called with a key, the function is never run with it again: after any calls it answers as the
  -- first time and changes neither the cache nor the state.
  cached_once :
      (k : K) (ks : List K) (s : Dict K V × W)
      → cached f k (calls ks (cached f k s).1) ≡ ((cached f k s).0, calls ks (cached f k s).1)
  cached_once k ks (cache, w) =
      let (v, after) = cached f k (cache, w) in
      hit k v (calls ks after).0 (calls ks after).1 (kept k v ks after (first_stored k cache w))
