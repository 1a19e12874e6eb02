-- ===== src/Common/Dict.antt =====
-- Python's `dict`, an association list in the order of insertion.
use mathlib.Core.Path.{◌≡◌, refl, subst}
use mathlib.Core.Logic.{inl, inr}
use mathlib.Core.Bool.{Bool, true, false, ◌||◌}
use mathlib.Core.List.{List, [], ◌∷◌, ◌++◌}
use mathlib.Core.Option.{Option, none, some}
use native.Mathlib.Omega.{arith}
use horovod.Common.Tests.{Bool-cases, if◌then◌else◌}
use horovod.Common.Lists.{All}
use horovod.Common.Keys.{Key, ◌=?◌, same_refl}

abbrev pub Dict {ℓ κ} : Type ℓ → Type κ → Type (ℓ ⊔ κ)
Dict K V = List (K × V)

abbrev pub keys {ℓ κ} : {K : Type ℓ} {V : Type κ} → Dict K V → List K
keys [] = []
keys ((k, v) ∷ d) = k ∷ keys d

module _ {ℓ} {K : Type ℓ} ⦃key : Key K⦄ where
  -- x in xs
  unfoldable pub contains : K → List K → Bool
  contains k [] = false
  contains k (j ∷ js) = j =? k || contains k js

  -- set(xs)
  unfoldable pub set_of : List K → List K
  set_of [] = []
  set_of (x ∷ xs) = let rest = set_of xs in if contains x xs then rest else x ∷ rest

  pub contains-append :
      (k : K) (xs ys : List K) → contains k (xs ++ ys) ≡ (contains k xs || contains k ys)
  unfolding contains
  contains-append k [] ys = refl
  contains-append k (x ∷ xs) ys = ground (arith, contains-append k xs ys)

  -- the keys of a set or a dictionary
  abbrev pub Nodup : List K → Type 0
  Nodup [] = Unit
  Nodup (k ∷ ks) = (contains k ks ≡ false) × Nodup ks

  pub Nodup-middle : (k : K) (xs ys : List K) → Nodup (xs ++ k ∷ ys) → contains k xs ≡ false
  unfolding contains
  Nodup-middle k [] ys h = refl
  Nodup-middle k (x ∷ xs) ys (c, h) = ground (
    arith,
    contains-append x xs (k ∷ ys),
    key.same_iff x k,
    key.same_iff k x,
    Nodup-middle k xs ys h,
  )

  -- A statement about the members of a list, as `All` wants it.
  pub All-contains {μ} :
      (P : K → Type μ) (xs : List K) → ((k : K) → contains k xs ≡ true → P k) → All P xs
  unfolding contains
  All-contains P [] f = tt
  All-contains P (x ∷ xs) f =
      (f x (rw (same_refl x)), All-contains P xs (λ k c. f k (ground (arith, c))))

  pub contains-All {μ} :
      (P : K → Type μ) (xs : List K) (k : K) → All P xs → contains k xs ≡ true → P k
  unfolding contains
  contains-All P [] k h c = cc
  contains-All P (x ∷ xs) k h c = elim (Bool-cases (x =? k)) [
    | inl here ↦ subst P ((key.same_iff x k).0 here) h.0
    | inr there ↦ contains-All P xs k h.1 (rw there at c)
  ]

  pub Nodup-append :
      (xs ys : List K)
      → Nodup xs
      → Nodup ys
      → All (λ k. contains k ys ≡ false) xs
      → Nodup (xs ++ ys)
  Nodup-append [] ys nx ny h = ny
  Nodup-append (x ∷ xs) ys (c, nx) ny (d, h) =
      (rw (contains-append x xs ys, c) d, Nodup-append xs ys nx ny h)

  pub Nodup-snoc : (xs : List K) (x : K) → Nodup xs → contains x xs ≡ false → Nodup (xs ++ x ∷ [])
  unfolding contains
  Nodup-snoc [] x nd c = (refl, tt)
  Nodup-snoc (y ∷ xs) x (d, nd) c = (
    ground (arith, contains-append y xs (x ∷ []), key.same_iff x y, key.same_iff y x, d),
    Nodup-snoc xs x nd (ground (arith, c)),
  )

module _ {ℓ κ} {K : Type ℓ} {V : Type κ} ⦃key : Key K⦄ where
  -- d.get(k)
  unfoldable pub lookup : K → Dict K V → Option V
  lookup k [] = none
  lookup k ((j, v) ∷ d) = if j =? k then some v else lookup k d

  -- d[k] = v
  unfoldable pub insert : K → V → Dict K V → Dict K V
  insert k v [] = (k, v) ∷ []
  insert k v ((j, w) ∷ d) = if j =? k then (j, v) ∷ d else (j, w) ∷ insert k v d

  -- d.pop(k, None)
  unfoldable pub erase : K → Dict K V → Dict K V
  erase k [] = []
  erase k ((j, w) ∷ d) = if j =? k then erase k d else (j, w) ∷ erase k d

  pub lookup-insert :
      (k j : K) (v : V) (d : Dict K V)
      → lookup j (insert k v d) ≡ (if k =? j then some v else lookup j d)
  unfolding lookup insert
  lookup-insert k j v [] = refl
  lookup-insert k j v ((i, w) ∷ d) =
      ground (arith, key.same_iff k j, key.same_iff i k, key.same_iff i j, lookup-insert k j v d)

  pub lookup-insert_self : (k : K) (v : V) (d : Dict K V) → lookup k (insert k v d) ≡ some v
  lookup-insert_self k v d = simp (lookup-insert, same_refl)

  pub lookup-erase :
      (k j : K) (d : Dict K V) → lookup j (erase k d) ≡ (if k =? j then none else lookup j d)
  unfolding lookup erase
  lookup-erase k j [] = ground arith
  lookup-erase k j ((i, w) ∷ d) =
      ground (arith, key.same_iff k j, key.same_iff i k, key.same_iff i j, lookup-erase k j d)

  -- a new key goes to the end
  pub insert_fresh :
      (k : K) (v : V) (d : Dict K V) → lookup k d ≡ none → insert k v d ≡ d ++ (k, v) ∷ []
  unfolding lookup insert
  insert_fresh k v [] h = refl
  insert_fresh k v ((j, w) ∷ d) h = ground (arith, insert_fresh k v d)

  pub lookup-contains : (k : K) (d : Dict K V) → contains k (keys d) ≡ false → lookup k d ≡ none
  unfolding lookup contains
  lookup-contains k [] h = refl
  lookup-contains k ((j, w) ∷ d) h = ground (arith, lookup-contains k d)

  lookup-append :
      (k : K) (d d' : Dict K V)
      → lookup k (d ++ d') ≡ elim (lookup k d) [ none ↦ lookup k d' | some v ↦ some v ]
  unfolding lookup
  lookup-append k [] d' = refl
  lookup-append k ((j, w) ∷ d) d' = ground (arith, lookup-append k d d')

  contains-insert :
      (k j : K) (v : V) (d : Dict K V)
      → contains j (keys (insert k v d)) ≡ (k =? j || contains j (keys d))
  unfolding contains insert
  contains-insert k j v [] = ground arith
  contains-insert k j v ((i, w) ∷ d) =
      ground (arith, key.same_iff k j, key.same_iff i k, key.same_iff i j, contains-insert k j v d)

  pub Nodup-insert : (k : K) (v : V) (d : Dict K V) → Nodup (keys d) → Nodup (keys (insert k v d))
  unfolding insert contains
  Nodup-insert k v [] h = (refl, tt)
  Nodup-insert k v ((i, w) ∷ d) (c, h) = elim (Bool-cases (i =? k)) [
    | inl e ↦ rw (e) (c, h)
    | inr e ↦ rw (e) (
      ground (arith, key.same_iff k i, key.same_iff i k, contains-insert k i v d),
      Nodup-insert k v d h,
    )
  ]
