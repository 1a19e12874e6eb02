-- ===== src/Common/Keys.antt =====
-- Equality tests of dictionary keys: hosts, ranks, and pairs of a host and a slot.
use Prim.Native.Nat.{ℕ}
use Prim.Native.String.{String}
use mathlib.Core.Path.{◌≡◌}
use mathlib.Core.Logic.{◌↔◌}
use mathlib.Core.Bool.{Bool, true, ◌&&◌}
use native.Mathlib.Omega.{arith}
use text.Mathlib.Text.{◌==◌ as str_same}
use text.Mathlib.TextEquality.{eq_iff}
use horovod.Common.Tests.{eqb, eqb_iff}

-- The hashable types of the program.
pub record Key {ℓ} (K : Type ℓ) : Type ℓ where
  pub same : K → K → Bool
  pub same_iff : (k j : K) → (same k j ≡ true) ↔ (k ≡ j)

abbrev pair_same : String × ℕ → String × ℕ → Bool
pair_same p q = str_same p.0 q.0 && eqb p.1 q.1

pub pair_same_iff : (p q : String × ℕ) → (pair_same p q ≡ true) ↔ (p ≡ q)
pair_same_iff (h, s) (h', s') = ground (arith, eq_iff h h')

instance abbrev pub slot_key : Key (String × ℕ)
slot_key = record { same = pair_same; same_iff = pair_same_iff }

instance abbrev pub host_key : Key String
host_key = record { same = str_same; same_iff = eq_iff }

instance abbrev pub rank_key : Key ℕ
rank_key = record { same = eqb; same_iff = eqb_iff }

infix 50 ◌=?◌
abbrev pub ◌=?◌ {ℓ} : {K : Type ℓ} ⦃key : Key K⦄ → K → K → Bool
◌=?◌ ⦃key⦄ k j = key.same k j

module _ {ℓ} {K : Type ℓ} ⦃key : Key K⦄ where
  pub same_refl : (k : K) → (k =? k) ≡ true
  same_refl k = (key.same_iff k k).1 (λ _. k)

pub str_iff : (s t : String) → (str_same s t ≡ true) ↔ (s ≡ t)
str_iff = eq_iff
