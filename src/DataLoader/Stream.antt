-- ===== src/DataLoader/Stream.antt =====
-- horovod/data/data_loader_base.py: the order of the batches, whichever of the two threads goes on.
use horovod.Common.{
  ℕ, zero, suc, ◌≤◌, ◌≡◌, refl, ap, subst, ◌⊎◌, Bool, true, false, Option, none, some, List, [],
  ◌∷◌, ◌++◌, length, map, if◌then◌else◌, inl, inr,
}
use horovod.DataLoader.{
  Pass, Item, batch, failure, nothing, Stage, at_loop, looping, putting, pass_over, failing, failed,
  ending, ended, Loader, worker_step, Next, next, iter_step,
}

pub some_subst {ℓ μ} : {A : Type ℓ} (P : A → Type μ) {x t : A} → P x → some x ≡ some t → P t
some_subst P {x = x} p e = subst P (ap (λ o. elim o [ none ↦ x | some y ↦ y ]) e) p

pub if_false {ℓ} : {C : Type ℓ} (b : Bool) (x y : C) → b ≡ false → (if b then x else y) ≡ y
if_false true x y e = cc
if_false false x y e = refl

pub if_true {ℓ} : {C : Type ℓ} (b : Bool) (x y : C) → b ≡ true → (if b then x else y) ≡ x
if_true true x y e = refl
if_true false x y e = cc

pub if_some {ℓ} :
    {C : Type ℓ} (b : Bool) (o : Option C) {t : C}
    → (if b then o else none) ≡ some t
    → (b ≡ true) × (o ≡ some t)
if_some true o e = (refl, e)
if_some false o e = cc

pub List-cases {ℓ} :
    {A : Type ℓ} (xs : List A) → (xs ≡ []) ⊎ ((x : A) × (ys : List A) × (xs ≡ x ∷ ys))
List-cases [] = inl refl
List-cases (x ∷ xs) = inr (x, xs, refl)

module _ {ℓ κ} {A : Type ℓ} {E : Type κ} where
  -- What the thread puts into the queue behind the batches of a pass.
  abbrev pub last_items : Option E → List (Item A E)
  last_items none = nothing ∷ []
  last_items (some e) = failure e ∷ nothing ∷ nothing ∷ []

  -- What it puts for a pass.
  abbrev pub items_of : List A → Option E → List (Item A E)
  items_of bs e = map (λ b. batch b) bs ++ last_items e

  -- What it has yet to put for the pass in which it stands.
  abbrev pub to_put : Stage A E → List (Item A E)
  to_put at_loop = []
  to_put (looping bs e) = items_of bs e
  to_put (putting b bs e) = batch b ∷ items_of bs e
  to_put pass_over = nothing ∷ []
  to_put (failing e) = failure e ∷ nothing ∷ nothing ∷ []
  to_put failed = nothing ∷ nothing ∷ []
  to_put ending = nothing ∷ []
  to_put ended = []

  module _ (passes : ℕ → Pass A E) where
    -- The items of the first passes, in order.
    unfoldable pub stream : ℕ → List (Item A E)
    stream zero = []
    stream (suc n) = stream n ++ items_of (passes n).batches (passes n).raises

    module _ (process : A → A) where
      -- A loader that is reached when the thread and the iteration take turns in any way, with what the
      -- iteration has come to, in order. An iteration that has stopped may begin again.
      pub data Runs (first : Loader A E) : List (Next A E) → Loader A E → Type (ℓ ⊔ κ) where
        begins : Runs first [] first
        works :
            {seen : List (Next A E)} {l t : Loader A E}
            → Runs first seen l
            → worker_step passes l ≡ some t
            → Runs first seen t
        iterates :
            {seen : List (Next A E)} {l t : Loader A E} {x : Next A E}
            → Runs first seen l
            → iter_step process l ≡ some (x, t)
            → Runs first (seen ++ x ∷ []) t

      -- The loader is not closed, and what has been seen, with what stands in the queue and what the
      -- thread has yet to put, is the stream of the passes that it has called.
      pub record IsInOrder (seen : List (Next A E)) (l : Loader A E) : Type (ℓ ⊔ κ) where
        pub not_closed : l.finished_event ≡ false
        pub all :
            seen ++ map (next process) (l.queue ++ to_put l.stage)
            ≡ map (next process) (stream l.calls)
        pub bounded : length l.queue ≤ l.async_loader_queue_size
