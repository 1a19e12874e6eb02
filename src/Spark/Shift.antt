-- ===== src/Spark/Shift.antt =====
-- horovod/spark/runner.py: the shift of the hosts comes to an end.
use horovod.Common.{
  ℕ, zero, suc, ◌<◌, String, ◌≡◌, refl, ap, ◌∙◌, Bool, true, false, Option, none, some, List, [],
  ◌∷◌, ◌++◌, length, arith, append-nil, append_assoc, host_key, rank_key, Option-cases, inl, inr,
  All,
}
use horovod.Common.Dict.{Dict, lookup, contains}
use horovod.Spark.{shifted, barrel_shift}

-- The host is in the map, and has no task 0.
abbrev pub has_zero : Option (List ℕ) → Bool
has_zero none = false
has_zero (some indices) = contains 0 indices

abbrev pub is_known : Option (List ℕ) → Bool
is_known none = false
is_known (some indices) = true

-- The hosts of the map stand in the list, and the first one with the task 0 is `h`: then a number of
-- rounds above those of the hosts before it is enough, and the others follow in their cyclic order.
pub barrel_shift-shifted :
    (fuel : ℕ) (indices : Dict String (List ℕ)) (before after : List String) (h : String)
    → length before < fuel
    → All (λ x. is_known (lookup x indices) ≡ true) before
    → All (λ x. has_zero (lookup x indices) ≡ false) before
    → has_zero (lookup h indices) ≡ true
    → barrel_shift fuel indices (before ++ h ∷ after) ≡ shifted ((h ∷ after) ++ before)
unfolding barrel_shift
barrel_shift-shifted zero indices before after h f k z own = absurd (omega arith)
barrel_shift-shifted (suc fuel) indices [] after h f k z own =
    elim (Option-cases (lookup h indices)) [
      | inl gone ↦ cc (rw gone at own)
      | inr (is, there) ↦ rw (there, append-nil) (rw (rw there at own) refl)
    ]
barrel_shift-shifted (suc fuel) indices (x ∷ before) after h f (kx, k) (zx, z) own =
    elim (Option-cases (lookup x indices)) [
      | inl gone ↦ cc (rw gone at kx)
      | inr (is, there) ↦
          rw (there, (rw there at zx))
            (rw (append_assoc before (h ∷ after) (x ∷ [])) (
              barrel_shift-shifted fuel indices before (after ++ x ∷ []) h (omega arith) k z own
              ∙ ap shifted (append_assoc (h ∷ after) (x ∷ []) before)))
    ]
