-- ===== src/Rendezvous.antt =====
-- horovod/runner/http/http_server.py: the key-value store of the rendezvous, with its GET, PUT and
-- DELETE handlers. A handler is given the path split at the slashes, and the body where there is
-- one; `none` for the body stands for the read that timed out.
pub mod Store
pub mod Scopes
mod Tests
use horovod.Common.{
  ℕ, suc, String, Bool, true, false, Option, none, some, List, [], ◌∷◌, ◌++◌, length, eqb,
  if◌then◌else◌, Key, host_key,
}
use horovod.Common.Dict.{Dict, lookup, insert, erase}
use horovod.Hosts.{SlotInfo}
use horovod.Common.Text.{◌+++◌, str}

abbrev pub Bytes : Type 0
Bytes = List ℕ

pub record Server : Type 0 where
  pub cache : Dict String (Dict String Bytes)
  pub finished_list : Dict String (List String)
  pub scope_size : Dict String ℕ

abbrev pub new_server : Server
new_server = record { cache = []; finished_list = []; scope_size = [] }

-- What a handler answers. A path with more than two parts makes the unpacking of the path raise.
pub data Reply : Type 0 where
  value : Bytes → Reply
  not_found : Reply
  bad_request : Reply
  timeout : Reply
  done : Reply
  raised : Reply

abbrev pub scope_or_empty {ℓ} : {V : Type ℓ} → Option (List V) → List V
scope_or_empty none = []
scope_or_empty (some d) = d

-- self.server.cache.get(scope, {}).get(key)
unfoldable pub get_value : String → String → Server → Option Bytes
get_value scope key s = lookup key (scope_or_empty (lookup scope s.cache))

-- self.server.cache.setdefault(scope, {})[key] = value
unfoldable pub put_value : String → String → Bytes → Server → Server
put_value scope key v s = record s {
  cache = insert scope (insert key v (scope_or_empty (lookup scope s.cache))) s.cache;
}

abbrev pub get_reply : Option Bytes → Reply
get_reply none = not_found
get_reply (some v) = value v

unfoldable pub do_get : List String → Server → Reply
do_get [] s = bad_request
do_get (a ∷ []) s = bad_request
do_get (a ∷ b ∷ []) s = bad_request
do_get (a ∷ scope ∷ key ∷ []) s = get_reply (get_value scope key s)
do_get (a ∷ scope ∷ key ∷ more ∷ rest) s = raised

abbrev pub put_body : String → String → Option Bytes → Server → Server × Reply
put_body scope key none s = (s, timeout)
put_body scope key (some v) s = (put_value scope key v s, done)

unfoldable pub do_put : List String → Option Bytes → Server → Server × Reply
do_put [] body s = (s, bad_request)
do_put (a ∷ []) body s = (s, bad_request)
do_put (a ∷ b ∷ []) body s = (s, bad_request)
do_put (a ∷ scope ∷ key ∷ []) body s = put_body scope key body s
do_put (a ∷ scope ∷ key ∷ more ∷ rest) body s = (s, raised)

-- self.server.cache.get(scope, {}).clear()
abbrev pub clear_scope :
    String
    → Option (Dict String Bytes)
    → Dict String (Dict String Bytes)
    → Dict String (Dict String Bytes)
clear_scope scope none cache = cache
clear_scope scope (some d) cache = insert scope [] cache

-- A scope of the allocation plan: when all of its workers have finished, it is cleared, and the
-- lists of finished workers with it.
unfoldable pub finish : String → String → ℕ → Server → Server
finish scope key size s =
    let finished = scope_or_empty (lookup scope s.finished_list) ++ key ∷ [] in
    if eqb size (length finished)
    then record s { cache = clear_scope scope (lookup scope s.cache) s.cache; finished_list = [] }
    else record s { finished_list = insert scope finished s.finished_list }

abbrev pub drop_scope :
    String → Dict String Bytes → Dict String (Dict String Bytes) → Dict String (Dict String Bytes)
drop_scope scope [] cache = erase scope cache
drop_scope scope (e ∷ d) cache = insert scope (e ∷ d) cache

-- A scope added by a client: the key is deleted, and then the scope if it is empty.
abbrev pub delete_key : String → String → Option (Dict String Bytes) → Server → Server
delete_key scope key none s = s
delete_key scope key (some d) s = record s { cache = drop_scope scope (erase key d) s.cache }

abbrev pub delete_in : String → String → Option ℕ → Server → Server
delete_in scope key none s = delete_key scope key (lookup scope s.cache) s
delete_in scope key (some size) s = finish scope key size s

unfoldable pub delete_value : String → String → Server → Server
delete_value scope key s = delete_in scope key (lookup scope s.scope_size) s

unfoldable pub do_delete : List String → Server → Server × Reply
do_delete [] s = (s, bad_request)
do_delete (a ∷ []) s = (s, bad_request)
do_delete (a ∷ b ∷ []) s = (s, bad_request)
do_delete (a ∷ scope ∷ key ∷ []) s = (delete_value scope key s, done)
do_delete (a ∷ scope ∷ key ∷ more ∷ rest) s = (s, raised)

-- 'local_' + hostname and 'cross_' + str(local_rank)
abbrev pub local_name : String → String
local_name hostname = "local_" +++ hostname

abbrev pub cross_name : ℕ → String
cross_name local_rank = "cross_" +++ str local_rank

unfoldable pub extract_scope_size : List SlotInfo → Dict String ℕ → Dict String ℕ
extract_scope_size [] sizes = sizes
extract_scope_size (slot ∷ plan) sizes = extract_scope_size plan (
    insert (cross_name slot.local_rank) slot.cross_size
      (insert (local_name slot.hostname) slot.local_size (insert "global" slot.size sizes)))

-- RendezvousHTTPServer.init
unfoldable pub init : List SlotInfo → Server → Server
init plan s = record s { cache = []; finished_list = []; scope_size = extract_scope_size plan [] }
