-- ===== src/DriverService/Counts.antt =====
-- How often an index stands in a list, and what the list operations do to that.
use horovod.Common.{
  ℕ, suc, ◌+◌, ◌<◌, ◌≡◌, refl, ◌∙◌, List, [], ◌∷◌, ◌++◌, eqb, arith, if◌then◌else◌, Bool-cases, inl,
  inr,
}
use horovod.DriverService.{remove, put_in_order, sort, ok}

abbrev pub count : ℕ → List ℕ → ℕ
count i [] = 0
count i (j ∷ js) = if eqb j i then suc (count i js) else count i js

pub count-append : (i : ℕ) (xs ys : List ℕ) → count i (xs ++ ys) ≡ count i xs + count i ys
count-append i [] ys = omega arith
count-append i (x ∷ xs) ys = ground (arith, count-append i xs ys)

count-put_in_order : (i x : ℕ) (xs : List ℕ) → count i (put_in_order x xs) ≡ count i (x ∷ xs)
unfolding put_in_order
count-put_in_order i x [] = refl
count-put_in_order i x (y ∷ xs) = ground (arith, count-put_in_order i x xs)

pub count-sort : (i : ℕ) (xs : List ℕ) → count i (sort xs) ≡ count i xs
unfolding sort
count-sort i [] = refl
count-sort i (x ∷ xs) = count-put_in_order i x (sort xs) ∙ ground (arith, count-sort i xs)

-- An index that stands in the list can be removed, once.
pub remove-count :
    (i : ℕ) (xs : List ℕ)
    → 0 < count i xs
    → (ys : List ℕ) × (remove i xs ≡ ok ys)
      × ((j : ℕ) → count j ys + (if eqb i j then 1 else 0) ≡ count j xs)
unfolding remove
remove-count i [] h = absurd (omega arith)
remove-count i (x ∷ xs) h = elim (Bool-cases (eqb x i)) [
  | inl here ↦ (xs, rw here refl, λ j. ground arith)
  | inr other ↦
      let (ys, e, c) = remove-count i xs (rw other at h) in
      (x ∷ ys, rw (other, e) refl, λ j. ground (arith, c j))
]
