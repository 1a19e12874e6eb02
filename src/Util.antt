-- ===== src/Util.antt =====
-- horovod/common/util.py: the context manager `env`, the cache of the build checks, the choice of
-- the reduction and `split_list`.
mod Environment
mod Chunks
mod Cached
mod Tests
use horovod.Common.{
  ℕ, zero, suc, ◌+◌, ◌-◌, ◌*◌, ◌/◌, ◌%◌, min, String, Bool, true, false, Option, none, some, List,
  [], ◌∷◌, length, take, drop, range_from, map, eqb, if◌then◌else◌, Key, host_key,
}
use horovod.Common.Dict.{Dict, keys, lookup, insert, erase}

abbrev pub Environ : Type 0
Environ = Dict String String

-- kwargs without those that are None
unfoldable pub given : Dict String (Option String) → Environ
given [] = []
given ((k, none) ∷ kwargs) = given kwargs
given ((k, some v) ∷ kwargs) = (k, v) ∷ given kwargs

unfoldable pub set_all : Environ → Environ → Environ
set_all [] environ = environ
set_all ((k, v) ∷ kwargs) environ = set_all kwargs (insert k v environ)

-- The loop of the `finally` clause; `none` is the KeyError of `del`.
abbrev pub restore_key : String → Option String → Option String → Environ → Option Environ
restore_key k (some v) now environ = some (insert k v environ)
restore_key k none (some w) environ = some (erase k environ)
restore_key k none none environ = none

abbrev pub and_then {ℓ κ} : {A : Type ℓ} {B : Type κ} → Option A → (A → Option B) → Option B
and_then none f = none
and_then (some a) f = f a

unfoldable pub restore : List String → Environ → Environ → Option Environ
restore [] backup environ = some environ
restore (k ∷ ks) backup environ =
    and_then (restore_key k (lookup k backup) (lookup k environ) environ)
      (λ restored. restore ks backup restored)

-- `body` is what the block does to the environment, whether it returns or raises.
unfoldable pub env : Dict String (Option String) → (Environ → Environ) → Environ → Option Environ
env kwargs body environ =
    let set = given kwargs in restore (keys set) environ (body (set_all set environ))

-- `f` may read and change a state W, by which it can answer differently; its arguments are the key.
abbrev pub answer :
    {K V W : Type 0} ⦃key : Key K⦄
    → (K → W → V × W)
    → K
    → Option V
    → Dict K V
    → W
    → V × (Dict K V × W)
answer f k (some v) cache w = (v, (cache, w))
answer f k none cache w = let (v, after) = f k w in (v, (insert k v cache, after))

unfoldable pub cached :
    {K V W : Type 0} ⦃key : Key K⦄ → (K → W → V × W) → K → Dict K V × W → V × (Dict K V × W)
cached f k (cache, w) = answer f k (lookup k cache) cache w

pub data ReduceOp : Type 0 where
  average sum adasum : ReduceOp

pub data OpResult : Type 0 where
  op : ReduceOp → OpResult
  value_error : OpResult

unfoldable pub average_backwards_compatibility : Option ReduceOp → Option Bool → OpResult
average_backwards_compatibility (some o) (some a) = value_error
average_backwards_compatibility (some o) none = op o
average_backwards_compatibility none (some a) = op (if a then average else sum)
average_backwards_compatibility none none = op average

-- l[a:b], for a ≤ b
abbrev pub slice_of {ℓ} : {A : Type ℓ} → ℕ → ℕ → List A → List A
slice_of a b l = take (b - a) (drop a l)

abbrev pub chunk {ℓ} : {A : Type ℓ} → List A → ℕ → ℕ → ℕ → List A
chunk l d r i = slice_of (i * d + min i r) ((i + 1) * d + min (i + 1) r) l

-- `none` is the ZeroDivisionError.
unfoldable pub split_list {ℓ} : {A : Type ℓ} → List A → ℕ → Option (List (List A))
split_list l zero = none
split_list l (suc n) =
    some (map (λ i. chunk l (length l / suc n) (length l % suc n) i) (range_from 0 (suc n)))
