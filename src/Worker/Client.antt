-- ===== src/Worker/Client.antt =====
-- horovod/runner/common/util/network.py, BasicClient: the client of a worker's notification service
-- keeps the addresses that answer its pings. `answers` tells which do; the code collects the answers
-- in the order in which they come, here they stand in the order of the addresses.
use horovod.Common.{ℕ, String, Bool, Option, none, some, List, [], ◌∷◌, if◌then◌else◌}
use horovod.DriverService.{Addresses}

abbrev pub valid_addresses : Addresses → Option Addresses
valid_addresses [] = none
valid_addresses (a ∷ addresses) = some (a ∷ addresses)

module _ (answers : String × ℕ → Bool) where
  unfoldable pub answering : List (String × ℕ) → List (String × ℕ)
  answering [] = []
  answering (addr ∷ addrs) =
      let rest = answering addrs in if answers addr then addr ∷ rest else rest

  -- An interface without an answer is not among the result.
  abbrev pub with_answers : String → List (String × ℕ) → Addresses → Addresses
  with_answers intf [] rest = rest
  with_answers intf (addr ∷ addrs) rest = (intf, addr ∷ addrs) ∷ rest

  unfoldable pub probe : Addresses → Addresses
  probe [] = []
  probe ((intf, addrs) ∷ addresses) =
      let rest = probe addresses in with_answers intf (answering addrs) rest

  -- The constructor; `none` is NoValidAddressesFound.
  unfoldable pub new_client : Addresses → Option Addresses
  new_client addresses = valid_addresses (probe addresses)
