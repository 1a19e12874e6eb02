-- ===== src/Util/Environment.antt =====
-- horovod/common/util.py, env: the environment after the block.
use horovod.Common.{
  ◌≡◌, ◌≢◌, refl, sym, ◌∙◌, String, false, Option, none, some, List, [], ◌∷◌, if◌then◌else◌, ◌=?◌,
  host_key, str_iff, arith, All, Option-cases, inl, inr,
}
use horovod.Common.Dict.{
  Dict, keys, contains, lookup, insert, erase, lookup-insert, lookup-erase, Nodup,
}
use horovod.Util.{Environ, given, set_all, restore_key, restore, env}

-- A key is restored to its former value, and no other key changes.
restore_key-lookup :
    (k : String) (before : Option String) (environ : Environ)
    → lookup k environ ≢ none
    → (restored : Environ) × (restore_key k before (lookup k environ) environ ≡ some restored)
      × ((j : String) → lookup j restored ≡ (if k =? j then before else lookup j environ))
restore_key-lookup k (some v) environ there =
    (insert k v environ, refl, λ j. lookup-insert k j v environ)
restore_key-lookup k none environ there = elim (Option-cases (lookup k environ)) [
  | inl gone ↦ absurd (there gone)
  | inr (w, here) ↦ (erase k environ, rw (here) refl, λ j. lookup-erase k j environ)
]

-- When every key is still there, all are restored to their former values.
restore-lookup :
    (ks : List String) (backup environ : Environ)
    → Nodup ks
    → All (λ k. lookup k environ ≢ none) ks
    → (restored : Environ) × (restore ks backup environ ≡ some restored)
      × ((j : String)
          → lookup j restored ≡ (if contains j ks then lookup j backup else lookup j environ))
unfolding restore contains
restore-lookup [] backup environ nd all = (environ, refl, λ j. refl)
restore-lookup (k ∷ ks) backup environ (fresh, nd) (here, all) =
    let (now, e, look) = restore_key-lookup k (lookup k backup) environ here in
    let (restored, f, rest) = restore-lookup ks backup now nd (still ks fresh now look all) in
    (restored, rw (e) f, λ j. ground (arith, rest j, look j, str_iff k j))
  where
    still :
        (js : List String)
        → contains k js ≡ false
        → (now : Environ)
        → ((j : String) → lookup j now ≡ (if k =? j then lookup k backup else lookup j environ))
        → All (λ j. lookup j environ ≢ none) js
        → All (λ j. lookup j now ≢ none) js
    still [] c now look a = tt
    still (j ∷ js) c now look (h, a) =
        let other : (k =? j) ≡ false = ground (arith, c, str_iff k j, str_iff j k) in
        let same : lookup j now ≡ lookup j environ = look j ∙ rw (other) refl in
        (λ e. h (sym same ∙ e), still js (ground (arith, c)) now look a)

-- When the given keys are different and the block leaves each of them in the environment, none is
-- missing at the end; each given key has its former value, or is gone as it was, and every other
-- key is as the block leaves it.
pub env_restored :
    (kwargs : Dict String (Option String)) (body : Environ → Environ) (environ : Environ)
    → Nodup (keys (given kwargs))
    → All (λ k. lookup k (body (set_all (given kwargs) environ)) ≢ none) (keys (given kwargs))
    → (after : Environ) × (env kwargs body environ ≡ some after)
      × ((j : String)
          → lookup j after ≡ (
              if contains j (keys (given kwargs))
              then lookup j environ
              else lookup j (body (set_all (given kwargs) environ))))
unfolding env
env_restored kwargs body environ nd all =
    restore-lookup (keys (given kwargs)) environ (body (set_all (given kwargs) environ)) nd all
