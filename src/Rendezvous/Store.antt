-- ===== src/Rendezvous/Store.antt =====
-- GET, PUT and DELETE of the key-value store against the map that they implement.
use horovod.Common.{
  String, ◌≡◌, refl, none, some, List, [], ◌∷◌, arith, ◌&&◌, if◌then◌else◌, ◌=?◌, host_key, str_iff,
  Option-cases, inl, inr,
}
use horovod.Common.Dict.{Dict, lookup, insert, erase, lookup-insert, lookup-erase}
use horovod.Hosts.{SlotInfo}
use horovod.Rendezvous.{
  Bytes, Server, value, scope_or_empty, get_value, put_value, do_get, do_put, delete_value,
  delete_in, drop_scope, init,
}

-- The value of a key after a PUT: the new one at its scope and key, the old one elsewhere.
get_value-put_value :
    (scope scope' key key' : String) (v : Bytes) (s : Server)
    → get_value scope' key' (put_value scope key v s)
      ≡ (if (scope =? scope') && (key =? key') then some v else get_value scope' key' s)
unfolding get_value put_value
get_value-put_value scope scope' key key' v s =
    let d = scope_or_empty (lookup scope s.cache) in
    ground (
      arith,
      lookup-insert scope scope' (insert key v d) s.cache,
      lookup-insert key key' v d,
      str_iff scope scope',
    )

-- A GET after a PUT of the same path returns the body, whatever else stands in the store; a path of
-- another scope or key is not affected.
do_get-do_put :
    (a scope key b scope' key' : String) (v : Bytes) (s : Server)
    → do_get (b ∷ scope' ∷ key' ∷ []) (do_put (a ∷ scope ∷ key ∷ []) (some v) s).0
      ≡ (if (scope =? scope') && (key =? key') then value v else do_get (b ∷ scope' ∷ key' ∷ []) s)
unfolding do_get do_put
do_get-do_put a scope key b scope' key' v s =
    ground (arith, get_value-put_value scope scope' key key' v s)

nothing : (key : String) → lookup {V = Bytes} key [] ≡ none
unfolding lookup
nothing key = refl

lookup-drop_scope :
    (scope scope' : String) (d : Dict String Bytes) (cache : Dict String (Dict String Bytes))
    → scope_or_empty (lookup scope' (drop_scope scope d cache))
      ≡ (if scope =? scope' then d else scope_or_empty (lookup scope' cache))
lookup-drop_scope scope scope' [] cache = ground (arith, lookup-erase scope scope' cache)
lookup-drop_scope scope scope' (e ∷ d) cache =
    ground (arith, lookup-insert scope scope' (e ∷ d) cache)

-- The value of a key after a DELETE in a scope that is not of the allocation plan.
get_value-delete_value :
    (scope scope' key key' : String) (s : Server)
    → lookup scope s.scope_size ≡ none
    → get_value scope' key' (delete_value scope key s)
      ≡ (if (scope =? scope') && (key =? key') then none else get_value scope' key' s)
unfolding get_value delete_value
get_value-delete_value scope scope' key key' s e =
    rw (e, delete_in)
      (elim (Option-cases (lookup scope s.cache)) [
        | inl none_there ↦
            rw none_there (ground (arith, none_there, nothing key', str_iff scope scope'))
        | inr (d, there) ↦ rw there (
            ground (
              arith,
              there,
              lookup-drop_scope scope scope' (erase key d) s.cache,
              lookup-erase key key' d,
              str_iff scope scope',
            ))
      ])

-- After `init` no key has a value.
get_value-init :
    (scope key : String) (plan : List SlotInfo) (s : Server)
    → get_value scope key (init plan s) ≡ none
unfolding get_value init lookup
get_value-init scope key plan s = refl
