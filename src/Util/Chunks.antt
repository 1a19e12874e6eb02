-- ===== src/Util/Chunks.antt =====
-- horovod/common/util.py, split_list.
use horovod.Common.{
  ℕ, zero, suc, ◌+◌, ◌-◌, ◌*◌, ◌/◌, ◌%◌, ◌≤◌, ◌<◌, min, ◌≡◌, refl, sym, ap, ◌∙◌, some, List, [],
  ◌∷◌, ◌++◌, append_assoc, append-nil, length, take, drop, length-take, length-drop, range_from,
  map, arith, All,
}
use native.Mathlib.Nat.{mod-lt, div-add-mod', mul-le-mul_right, mul_comm}
use horovod.Util.{chunk, slice_of, split_list}

abbrev pub concat {ℓ} : {A : Type ℓ} → List (List A) → List A
concat [] = []
concat (xs ∷ xss) = xs ++ concat xss

module _ {ℓ} {A : Type ℓ} where
  take-append-drop : (n : ℕ) (l : List A) → take n l ++ drop n l ≡ l
  take-append-drop zero l = refl
  take-append-drop (suc n) [] = refl
  take-append-drop (suc n) (x ∷ l) = ap (λ t. x ∷ t) (take-append-drop n l)

  drop_nil : (n : ℕ) → drop {A = A} n [] ≡ []
  drop_nil zero = refl
  drop_nil (suc n) = refl

  drop-drop : (a b : ℕ) (l : List A) → a ≤ b → drop (b - a) (drop a l) ≡ drop b l
  drop-drop zero b l h = let e : b - 0 ≡ b = omega arith in rw (e) refl
  drop-drop (suc a) zero l h = absurd (omega arith)
  drop-drop (suc a) (suc b) [] h = drop_nil (suc b - suc a)
  drop-drop (suc a) (suc b) (x ∷ l) h =
      let e : suc b - suc a ≡ b - a = omega arith in rw (e) (drop-drop a b l (omega (arith, h)))

  drop_all : (l : List A) → drop (length l) l ≡ []
  drop_all [] = refl
  drop_all (x ∷ l) = drop_all l

  -- A chunk and all that comes behind it.
  slice_of-drop : (a b : ℕ) (l : List A) → a ≤ b → slice_of a b l ++ drop b l ≡ drop a l
  slice_of-drop a b l h = rw (← drop-drop a b l h) (take-append-drop (b - a) (drop a l))

  module _ (d r : ℕ) (l : List A) where
    start_le : (i : ℕ) → i * d + min i r ≤ (i + 1) * d + min (i + 1) r
    start_le i = omega arith

    chunks-drop :
        (k n : ℕ)
        → concat (map (λ i. chunk l d r i) (range_from k n)) ++ drop ((k + n) * d + min (k + n) r) l
          ≡ drop (k * d + min k r) l
    chunks-drop k zero = let e : k + 0 ≡ k = omega arith in rw (e) refl
    chunks-drop k (suc n) =
        let e : k + suc n ≡ suc k + n = omega arith in
        let s : k + 1 ≡ suc k = omega arith in
        rw
          (
            e,
            append_assoc (chunk l d r k) (concat (map (λ i. chunk l d r i) (range_from (suc k) n)))
                (drop ((suc k + n) * d + min (suc k + n) r) l),
            chunks-drop (suc k) n,
            ← s,
          )
          (slice_of-drop (k * d + min k r) ((k + 1) * d + min (k + 1) r) l (start_le k))

    length-chunk :
        (i n : ℕ)
        → length l ≡ n * d + r
        → r < n
        → i < n
        → (d ≤ length (chunk l d r i)) × (length (chunk l d r i) ≤ d + 1)
    length-chunk i n size below h =
        let a = i * d + min i r in
        let b = (i + 1) * d + min (i + 1) r in
        let taken = length-take (b - a) (drop a l) in
        let left = length-drop a l in
        let scaled : (i + 1) * d ≤ n * d = mul-le-mul_right {m = i + 1} {n = n} d (omega arith) in
        (omega (arith, taken, left, scaled, size), omega (arith, taken, left, scaled, size))

  All-map-range_from {κ} :
      (P : List A → Type κ) (f : ℕ → List A) (k m n : ℕ)
      → k + m ≤ n
      → ((i : ℕ) → i < n → P (f i))
      → All P (map f (range_from k m))
  All-map-range_from P f k zero n h g = tt
  All-map-range_from P f k (suc m) n h g =
      (g k (omega arith), All-map-range_from P f (suc k) m n (omega arith) g)

  length-map-range_from : (f : ℕ → List A) (k m : ℕ) → length (map f (range_from k m)) ≡ m
  length-map-range_from f k zero = refl
  length-map-range_from f k (suc m) = ap suc (length-map-range_from f (suc k) m)

  -- For a positive n the list is split into n chunks that follow each other, and each has the
  -- quotient of the length by n as its length, or one more.
  pub split_list_parts :
      (l : List A) (n : ℕ)
      → 0 < n
      → (chunks : List (List A)) × (split_list l n ≡ some chunks)
        × (concat chunks ≡ l)
        × (length chunks ≡ n)
        × All (λ c. (length l / n ≤ length c) × (length c ≤ length l / n + 1)) chunks
  unfolding split_list
  split_list_parts l zero h = absurd (omega arith)
  split_list_parts l (suc n) h =
      let d = length l / suc n in
      let r = length l % suc n in
      let below : r < suc n = mod-lt (length l) h in
      let whole : length l ≡ suc n * d + r =
        sym (div-add-mod' (length l) (suc n)) ∙ ap (λ k. k + r) (mul_comm d (suc n)) in
      let chunks = map (λ i. chunk l d r i) (range_from 0 (suc n)) in
      let stop : (0 + suc n) * d + min (0 + suc n) r ≡ length l = omega (arith, whole, below) in
      let begin : 0 * d + min 0 r ≡ 0 = omega arith in
      let end_nil : drop ((0 + suc n) * d + min (0 + suc n) r) l ≡ [] = rw (stop) (drop_all l) in
      (
        chunks,
        refl,
        sym (append-nil (concat chunks))
            ∙ ap (λ t. concat chunks ++ t) (sym end_nil)
            ∙ chunks-drop d r l 0 (suc n)
            ∙ ap (λ i. drop i l) begin,
        length-map-range_from (λ i. chunk l d r i) 0 (suc n),
        All-map-range_from (λ c. (d ≤ length c) × (length c ≤ d + 1)) (λ i. chunk l d r i) 0 (suc n)
            (suc n) (omega arith) (λ i b. length-chunk d r l i (suc n) whole below b),
      )
