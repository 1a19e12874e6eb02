-- ===== src/Rendezvous/Tests.antt =====
-- Runs of the rendezvous server, and its theorems at concrete requests.
use horovod.Common.{
  ◌+◌, ◌<◌, String, ◌≡◌, ◌≢◌, refl, none, some, [], ◌∷◌, arith, host_key, str_iff, length,
}
use horovod.Common.Dict.{lookup, insert}
use horovod.Common.Text.{str}
use horovod.Rendezvous.{Server, new_server, get_value, delete_value, extract_scope_size}
use horovod.Rendezvous.Scopes.{deletes, finished, deletes_clear}

abbrev filled : Server
filled = record {
  cache = ("global", ("0", 7 ∷ []) ∷ []) ∷ ("local_a", ("0", 8 ∷ []) ∷ []) ∷ [];
  finished_list = ("local_a", "0" ∷ []) ∷ [];
  scope_size = ("global", 1) ∷ ("local_a", 2) ∷ [];
}

sizes :
    extract_scope_size
      (record {
        hostname = "a";
        rank = 12;
        local_rank = 10;
        cross_rank = 0;
        size = 13;
        local_size = 11;
        cross_size = 1;
      }
        ∷ [])
      []
    ≡ ("global", 13) ∷ ("local_a", 11) ∷ ("cross_10", 1) ∷ []
unfolding extract_scope_size insert str
sizes = refl

not_planned : lookup "s" new_server.scope_size ≡ none
unfolding lookup
not_planned = refl

abbrev half : Server
half = record filled { finished_list = [] }

local_size : lookup "local_a" half.scope_size ≡ some 2
unfolding lookup
local_size = refl

none_finished : finished "local_a" half ≡ []
unfolding lookup
none_finished = refl

deletes_clear_example :
    ((deletes "local_a" ("0" ∷ []) half).cache ≡ half.cache)
    × ((k : String)
        → get_value "local_a" k (delete_value "local_a" "1" (deletes "local_a" ("0" ∷ []) half))
          ≡ none)
deletes_clear_example = deletes_clear "local_a" "1" ("0" ∷ []) half local_size none_finished

global_size : lookup "global" filled.scope_size ≡ some 1
unfolding lookup
global_size = refl

global_count : length (finished "global" filled) + 1 ≡ 1
unfolding lookup
global_count = refl

local_count : 0 < length (finished "local_a" filled)
unfolding lookup
local_count = omega arith

local_all :
    lookup "local_a" filled.scope_size
    ≡ some (length (finished "local_a" filled) + length {A = String} ("1" ∷ []))
unfolding lookup
local_all = refl

different : ◌≢◌ {A = String} "global" "local_a"
different = ground (arith, str_iff "global" "local_a")
