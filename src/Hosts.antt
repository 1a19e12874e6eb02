-- ===== src/Hosts.antt =====
-- horovod/runner/common/util/hosts.py: hosts with slots, and the assignment of ranks to slots.
pub mod Assign
pub mod Columns
pub mod Filling
pub mod Spec
pub mod Refine
pub mod Ranks
pub mod Keys
pub mod Stable
pub mod Locals
pub mod Parse
pub mod Print
mod StringTests
mod Tests
use horovod.Common.{ℕ, String, List}

-- `slots` is a count: `range` treats a negative number as 0.
pub record HostInfo : Type 0 where
  pub hostname : String
  pub slots : ℕ

pub record SlotInfo : Type 0 where
  pub hostname : String
  pub rank : ℕ
  pub local_rank : ℕ
  pub cross_rank : ℕ
  pub size : ℕ
  pub local_size : ℕ
  pub cross_size : ℕ

-- The exceptions of this module's functions.
pub data HostError : Type 0 where
  not_enough_slots key_error : HostError

pub data Result {ℓ} (A : Type ℓ) : Type ℓ where
  ok : A → Result A
  err : HostError → Result A
