-- ===== src/Optimizer/Keys.antt =====
-- The keys of the handles: a parameter, or the tuple of the parameters of a group.
use horovod.Common.{ℕ, ◌≡◌, ◌↔◌, Bool, true, false, eqb, arith, Key}

pub data HandleKey : Type 0 where
  param : ℕ → HandleKey
  group : ℕ → HandleKey

abbrev handle_same : HandleKey → HandleKey → Bool
handle_same (param p) (param q) = eqb p q
handle_same (group g) (group h) = eqb g h
handle_same (param p) (group g) = false
handle_same (group g) (param p) = false

pub handle_same_iff : (k j : HandleKey) → (handle_same k j ≡ true) ↔ (k ≡ j)
handle_same_iff k j = ground arith

instance abbrev pub handle_key : Key HandleKey
handle_key = record { same = handle_same; same_iff = handle_same_iff }
