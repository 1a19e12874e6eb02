-- ===== src/Rendezvous/Scopes.antt =====
-- DELETE in a scope of the allocation plan: the scope is cleared by its last worker.
use horovod.Common.{
  ℕ, ◌+◌, ◌<◌, String, ◌≡◌, ◌≢◌, refl, ◌∙◌, true, false, none, some, List, [], ◌∷◌, ◌++◌, arith,
  eqb, append_assoc, append-nil, host_key, str_iff, Option-cases, inl, inr, length, length-append,
}
use horovod.Common.Dict.{Dict, lookup, insert, lookup-insert}
use horovod.Rendezvous.{
  Bytes, Server, scope_or_empty, get_value, delete_value, delete_in, finish, clear_scope,
}

-- Workers that finish one after the other.
abbrev pub deletes : String → List String → Server → Server
deletes scope [] s = s
deletes scope (key ∷ ks) s = deletes scope ks (delete_value scope key s)

abbrev pub finished : String → Server → List String
finished scope s = scope_or_empty (lookup scope s.finished_list)

delete_planned :
    (scope key : String) (size : ℕ) (s : Server)
    → lookup scope s.scope_size ≡ some size
    → delete_value scope key s ≡ finish scope key size s
unfolding delete_value
delete_planned scope key size s e = rw (e, delete_in)

-- Not the last worker.
finish_early :
    (scope key : String) (size : ℕ) (s : Server)
    → length (finished scope s) + 1 < size
    → finish scope key size s
      ≡ record s { finished_list = insert scope (finished scope s ++ key ∷ []) s.finished_list }
unfolding finish
finish_early scope key size s h =
    let n : length (finished scope s ++ key ∷ []) ≡ length (finished scope s) + 1 =
      length-append (finished scope s) (key ∷ []) in
    let e : eqb size (length (finished scope s ++ key ∷ [])) ≡ false = ground (arith, n) in rw e

finish_last :
    (scope key : String) (size : ℕ) (s : Server)
    → length (finished scope s) + 1 ≡ size
    → finish scope key size s
      ≡ record s { cache = clear_scope scope (lookup scope s.cache) s.cache; finished_list = [] }
unfolding finish
finish_last scope key size s h =
    let n : length (finished scope s ++ key ∷ []) ≡ length (finished scope s) + 1 =
      length-append (finished scope s) (key ∷ []) in
    let e : eqb size (length (finished scope s ++ key ∷ [])) ≡ true = ground (arith, n) in rw e

module _ (scope : String) (size : ℕ) where
  -- The state while workers are missing.
  deletes_early :
      (ks : List String) (s : Server)
      → lookup scope s.scope_size ≡ some size
      → length (finished scope s) + length ks < size
      → ((deletes scope ks s).cache ≡ s.cache)
        × (finished scope (deletes scope ks s) ≡ finished scope s ++ ks)
        × ((deletes scope ks s).scope_size ≡ s.scope_size)
  deletes_early [] s e h = (refl, rw append-nil, refl)
  deletes_early (key ∷ ks) s e h =
      let s' : Server = record s {
        finished_list = insert scope (finished scope s ++ key ∷ []) s.finished_list;
      } in
      let step : delete_value scope key s ≡ s' =
        delete_planned scope key size s e ∙ finish_early scope key size s (omega arith) in
      let own : finished scope s' ≡ finished scope s ++ key ∷ [] = ground (
        arith,
        lookup-insert scope scope (finished scope s ++ key ∷ []) s.finished_list,
        str_iff scope scope,
      ) in
      let n : length (finished scope s') ≡ length (finished scope s) + 1 =
        rw own (length-append (finished scope s) (key ∷ [])) in
      let (cache, list, sizes) = deletes_early ks s' e (omega (arith, n)) in
      rw (step, deletes)
        (cache, list ∙ rw own (append_assoc (finished scope s) (key ∷ []) ks), sizes)

get_value-clear_scope :
    (scope k : String) (s : Server)
    → get_value scope k
        (record s { cache = clear_scope scope (lookup scope s.cache) s.cache; finished_list = [] })
      ≡ none
unfolding get_value lookup
get_value-clear_scope scope k s = elim (Option-cases (lookup scope s.cache)) [
  | inl absent ↦ rw (absent) (ground (arith, absent))
  | inr (d, there) ↦ rw there (
      ground
        (arith, lookup-insert {V = Dict String Bytes} scope scope [] s.cache, str_iff scope scope))
]

-- When no worker of a scope of the plan has finished, and then as many DELETEs of this scope as it has
-- workers follow each other, with no other request between, the store is unchanged before the last of
-- them, and the scope has no value after it.
pub deletes_clear :
    (scope last : String) (ks : List String) (s : Server)
    → lookup scope s.scope_size ≡ some (length ks + 1)
    → finished scope s ≡ []
    → ((deletes scope ks s).cache ≡ s.cache)
      × ((k : String) → get_value scope k (delete_value scope last (deletes scope ks s)) ≡ none)
deletes_clear scope last ks s e none_yet =
    let size = length ks + 1 in
    let (cache, list, sizes) = deletes_early scope size ks s e (rw none_yet (omega arith)) in
    let t = deletes scope ks s in
    let all : length (finished scope t) + 1 ≡ size = rw (list, none_yet) in
    let step = delete_planned scope last size t (rw sizes e) ∙ finish_last scope last size t all in
    (cache, λ k. rw step (get_value-clear_scope scope k t))

-- When the last worker of one scope finishes, the finished workers of the other scopes are
-- forgotten: a scope that already counts some of them keeps its values even after all of its
-- workers have finished.
other_scope_kept :
    (scope last other : String) (size : ℕ) (ks : List String) (s : Server)
    → scope ≢ other
    → lookup scope s.scope_size ≡ some size
    → length (finished scope s) + 1 ≡ size
    → 0 < length (finished other s)
    → lookup other s.scope_size ≡ some (length (finished other s) + length ks)
    → (deletes other ks (delete_value scope last s)).cache ≡ (delete_value scope last s).cache
unfolding lookup
other_scope_kept scope last other size ks s ne planned full some_done all =
    let step = delete_planned scope last size s planned ∙ finish_last scope last size s full in
    rw step
      (deletes_early other (length (finished other s) + length ks) ks
        (record s { cache = clear_scope scope (lookup scope s.cache) s.cache; finished_list = [] })
        all (omega arith)).0
