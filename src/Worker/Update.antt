-- ===== src/Worker/Update.antt =====
-- `HostUpdateResult`, an IntFlag of the bits removed = 1 and added = 2.
use horovod.Common.{◌≡◌, Bool, true, false, ◌||◌, arith}

pub data HostUpdateResult : Type 0 where
  no_update removed added mixed : HostUpdateResult

-- a | b
infixl 30 ◌∪◌
unfoldable pub ◌∪◌ : HostUpdateResult → HostUpdateResult → HostUpdateResult
no_update ∪ b = b
removed ∪ no_update = removed
removed ∪ removed = removed
removed ∪ added = mixed
removed ∪ mixed = mixed
added ∪ no_update = added
added ∪ removed = mixed
added ∪ added = added
added ∪ mixed = mixed
mixed ∪ b = mixed

-- The two bits.
abbrev pub has_removed : HostUpdateResult → Bool
has_removed no_update = false
has_removed removed = true
has_removed added = false
has_removed mixed = true

abbrev pub has_added : HostUpdateResult → Bool
has_added no_update = false
has_added removed = false
has_added added = true
has_added mixed = true

-- a == b
abbrev pub same_update : HostUpdateResult → HostUpdateResult → Bool
same_update no_update no_update = true
same_update removed removed = true
same_update added added = true
same_update mixed mixed = true
same_update no_update _ = false
same_update removed _ = false
same_update added _ = false
same_update mixed _ = false

pub has_removed-∪ :
    (a b : HostUpdateResult) → has_removed (a ∪ b) ≡ (has_removed a || has_removed b)
unfolding ◌∪◌
has_removed-∪ a b = ground arith

pub has_added-∪ : (a b : HostUpdateResult) → has_added (a ∪ b) ≡ (has_added a || has_added b)
unfolding ◌∪◌
has_added-∪ a b = ground arith

eq_of_bits :
    (a b : HostUpdateResult) → has_removed a ≡ has_removed b → has_added a ≡ has_added b → a ≡ b
eq_of_bits a b r s = ground arith
