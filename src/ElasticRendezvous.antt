-- ===== src/ElasticRendezvous.antt =====
-- horovod/runner/elastic/rendezvous.py: the handler of the rendezvous server in an elastic job, which
-- joins the store, the registry of workers and the driver.
mod Clients
mod Tests
use horovod.Common.{
  ℕ, String, Bool, true, false, Option, none, some, List, [], ◌∷◌, if◌then◌else◌, ◌=?◌, host_key,
}
use Prim.Native.Char.{code}
use horovod.Common.Text.{◌+++◌, str, split, int}
use horovod.Hosts.{SlotInfo}
use horovod.Hosts.Parse.{join}
use horovod.Registry.{record_state, Recorded, ready}
use horovod.Rendezvous as Rendezvous
use horovod.Rendezvous.{Bytes, Server}
use horovod.DriverService.{Addresses}
use horovod.Driver.{
  ElasticDriver, get_slot_info, register_worker_server, SlotAnswer, found, invalid, index_error,
}

-- .encode('ascii')
unfoldable pub encode : String → Bytes
encode String.[] = []
encode (String.◌∷◌ c s) = code c ∷ encode s

-- SlotInfo.to_response_string
unfoldable pub to_response_string : SlotInfo → String
to_response_string s = join "," (
    str s.rank
    ∷ str s.size
    ∷ str s.local_rank
    ∷ str s.local_size
    ∷ str s.cross_rank
    ∷ str s.cross_size
    ∷ [])

abbrev numbered : String → Option ℕ → Option (String × ℕ)
numbered host none = none
numbered host (some n) = some (host, n)

-- host, local_rank = key.split(':'), and int(local_rank)
abbrev slot_of : List String → Option (String × ℕ)
slot_of [] = none
slot_of (host ∷ []) = none
slot_of (host ∷ rank ∷ []) = numbered host (int rank)
slot_of (host ∷ rank ∷ more ∷ rest) = none

-- What a GET comes to. A worker that asks for its rank may have to wait for the others; it is then
-- answered by the driver as it is after the wait.
pub data Asked : Type 0 where
  stored : Option Bytes → Asked
  reported : String → ℕ → ElasticDriver → Recorded → Asked
  raised : Asked

-- driver.record_ready
unfoldable pub record_ready : String → ℕ → ElasticDriver → ElasticDriver × Recorded
record_ready host slot d =
    let (registry, recorded) = record_state d.shutdown d.manager (host, slot) ready d.registry in
    (record d { registry = registry }, recorded)

abbrev report : Option (String × ℕ) → ElasticDriver → Asked
report none d = raised
report (some (host, slot)) d =
    let (after, recorded) = record_ready host slot d in reported host slot after recorded

unfoldable pub get_value : String → String → ElasticDriver → Asked
get_value scope key d =
    if scope =? "rank_and_size"
    then report (slot_of (split 58 key)) d
    else stored (Rendezvous.get_value scope key d.rendezvous)

-- The answer after the wait; `none` is the IndexError of the driver.
unfoldable pub rank_and_size : String → ℕ → ElasticDriver → Option Bytes
rank_and_size host slot d = elim (get_slot_info d host slot) [
  | found s ↦ some (encode (to_response_string s))
  | invalid ↦ some (encode "-1,-1,-1,-1,-1,-1")
  | index_error ↦ none
]

-- `loads` reads the addresses and the key out of the body; it may raise. `answers` tells which
-- addresses answer the client of the driver.
module _ (loads : Bytes → Option Addresses) (answers : String × ℕ → Bool) where
  abbrev with_client : Option (String × ℕ) → Option Addresses → ElasticDriver → Option ElasticDriver
  with_client none addresses d = none
  with_client (some slot) none d = none
  with_client (some (host, slot)) (some addresses) d =
      register_worker_server answers host slot addresses d

  abbrev registered : String → String → Bytes → ElasticDriver → Option ElasticDriver
  registered scope key v d =
      if scope =? "worker_addresses"
      then with_client (slot_of (split 58 key)) (loads v) d
      else some d

  -- `none` where the handler raises.
  unfoldable pub put_value : String → String → Bytes → ElasticDriver → Option ElasticDriver
  put_value scope key v d = elim (registered scope key v d) [
    | none ↦ none
    | some t ↦ some (record t { rendezvous = Rendezvous.put_value scope key v t.rendezvous })
  ]
