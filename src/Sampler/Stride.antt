-- ===== src/Sampler/Stride.antt =====
-- Slices with a step, xs[start::step].
use horovod.Common.{
  ℕ, zero, suc, ◌+◌, ◌-◌, ◌*◌, ◌≤◌, ◌<◌, ◌≡◌, refl, ap, List, [], ◌∷◌, length, get_elem?, arith,
}
use native.Mathlib.Nat.{suc-mul, zero-mul}

module _ {ℓ} {A : Type ℓ} where
  -- xs[start::step]; the step is positive
  unfoldable pub every : ℕ → ℕ → List A → List A
  every step start [] = []
  every step zero (x ∷ xs) = x ∷ every step (step - 1) xs
  every step (suc start) (x ∷ xs) = every step start xs

  pub get_elem?-every :
      (step start : ℕ) (xs : List A) (i : ℕ)
      → 0 < step
      → get_elem? (every step start xs) i ≡ get_elem? xs (start + i * step)
  unfolding every
  get_elem?-every step start [] i pos = refl
  get_elem?-every step zero (x ∷ xs) zero pos = rw (zero-mul) refl
  get_elem?-every step zero (x ∷ xs) (suc i) pos =
      let e : 0 + suc i * step ≡ suc (step - 1 + i * step) = rw suc-mul (omega arith) in
      rw e (get_elem?-every step (step - 1) xs i pos)
  get_elem?-every step (suc start) (x ∷ xs) i pos =
      let e : suc start + i * step ≡ suc (start + i * step) = omega arith in
      rw e (get_elem?-every step start xs i pos)

  -- c * step ≤ n + (step - 1 - start) < c * step + step
  pub length-every :
      (step start c : ℕ) (xs : List A)
      → start < step
      → c * step ≤ length xs + (step - 1 - start)
      → length xs + (step - 1 - start) < c * step + step
      → length (every step start xs) ≡ c
  unfolding every
  length-every step start zero [] h a b = refl
  length-every step start (suc c) [] h a b = absurd (omega (arith, rw suc-mul at a))
  length-every step zero zero (x ∷ xs) h a b = absurd (omega (arith, rw zero-mul at b))
  length-every step zero (suc c) (x ∷ xs) h a b =
      let a' = rw suc-mul at a in
      let b' = rw suc-mul at b in
      ap suc
        (length-every step (step - 1) c xs (omega arith) (omega (arith, a')) (omega (arith, b')))
  length-every step (suc start) c (x ∷ xs) h a b =
      length-every step start c xs (omega arith) (omega (arith, a)) (omega (arith, b))
