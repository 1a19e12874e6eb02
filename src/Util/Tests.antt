-- ===== src/Util/Tests.antt =====
-- Small inputs of the functions of util.py.
use horovod.Common.{
  ℕ, suc, ◌+◌, ◌≤◌, ◌/◌, ◌≡◌, ◌≢◌, refl, String, true, Option, none, some, List, [], ◌∷◌, length,
  All, if◌then◌else◌, arith, rank_key, host_key,
}
use horovod.Common.Dict.{Dict, keys, contains, lookup, insert, erase, Nodup}
use horovod.Util.{
  Environ, given, set_all, restore, env, split_list, average_backwards_compatibility, value_error,
  sum,
}
use horovod.Util.Environment.{env_restored}
use horovod.Util.Chunks.{concat, split_list_parts}

abbrev kwargs : Dict String (Option String)
kwargs = ("A", some "1") ∷ ("B", none) ∷ ("C", some "2") ∷ []

abbrev environ : Environ
environ = ("A", "0") ∷ ("D", "7") ∷ []

abbrev body : Environ → Environ
body e = insert "D" "8" e

restored : env kwargs body environ ≡ some (("A", "0") ∷ ("D", "8") ∷ [])
unfolding env given set_all restore insert erase lookup
restored = refl

deleted_inside : env kwargs (λ e. erase "C" e) environ ≡ none
unfolding env given set_all restore insert erase lookup
deleted_inside = refl

keys_differ : Nodup (keys (given kwargs))
unfolding given contains
keys_differ = (refl, (refl, tt))

keys_kept : All (λ k. lookup k (body (set_all (given kwargs) environ)) ≢ none) (keys (given kwargs))
unfolding given set_all insert lookup
keys_kept = ((λ e. cc), ((λ e. cc), tt))

env_restored_example :
    (after : Environ) × (env kwargs body environ ≡ some after)
    × ((j : String)
        → lookup j after ≡ (
            if contains j (keys (given kwargs))
            then lookup j environ
            else lookup j (body (set_all (given kwargs) environ))))
env_restored_example = env_restored kwargs body environ keys_differ keys_kept

abbrev seven : List ℕ
seven = 1 ∷ 2 ∷ 3 ∷ 4 ∷ 5 ∷ 6 ∷ 7 ∷ []

three_chunks : split_list seven 3 ≡ some ((1 ∷ 2 ∷ 3 ∷ []) ∷ (4 ∷ 5 ∷ []) ∷ (6 ∷ 7 ∷ []) ∷ [])
unfolding split_list
three_chunks = refl

split_list_parts_example :
    (chunks : List (List ℕ)) × (split_list seven 3 ≡ some chunks)
    × (concat chunks ≡ seven)
    × (length chunks ≡ 3)
    × All (λ c. (length seven / 3 ≤ length c) × (length c ≤ length seven / 3 + 1)) chunks
split_list_parts_example = split_list_parts seven 3 (omega arith)

both_given : average_backwards_compatibility (some sum) (some true) ≡ value_error
unfolding average_backwards_compatibility
both_given = refl

-- A function that answers with the number of its calls.
abbrev counting : ℕ → ℕ → ℕ × ℕ
counting k n = (n, suc n)
