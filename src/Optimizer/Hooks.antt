-- ===== src/Optimizer/Hooks.antt =====
-- The hooks of the ungrouped optimizer: what has been handed over, and what waits for more passes.
use horovod.Common.{
  ℕ, zero, suc, ◌+◌, ◌≡◌, refl, ◌∙◌, subst, inl, inr, Bool, true, false, Option, none, some, List,
  [], ◌∷◌, ◌++◌, length, eqb, if◌then◌else◌, rank_key, arith, Bool-cases,
}
use horovod.Common.Dict.{keys, contains, lookup, insert, lookup-insert, Nodup, Nodup-insert}
use horovod.Optimizer.Keys.{param, group, handle_key}
use horovod.Optimizer.{
  Optimizer, Handles, OptimizerError, assertion_error, Result, ok, err, ◌>>=◌, item, handed, submit,
  set_handle, last_pass, hook_at, hook,
}

-- A sequence that raises nothing raises nothing in its first step.
pub bind-ok {ℓ κ} :
    {A : Type ℓ} {B : Type κ} (r : Result A) (f : A → Result B) (b : B)
    → (r >>= f) ≡ ok b
    → (a : A) × (r ≡ ok a) × (f a ≡ ok b)
bind-ok (ok a) f b h = (a, refl, h)
bind-ok (err e) f b h = cc

if_else_ok {ℓ} :
    {A : Type ℓ} (b : Bool) (e : OptimizerError) (r : Result A) (a : A)
    → (if b then err e else r) ≡ ok a
    → (b ≡ false) × (r ≡ ok a)
if_else_ok true e r a h = cc
if_else_ok false e r a h = (refl, h)

-- How often p stands in the list.
unfoldable pub count : ℕ → List ℕ → ℕ
count p [] = 0
count p (q ∷ qs) = let rest = count p qs in if eqb q p then suc rest else rest

pub count-append : (p : ℕ) (xs ys : List ℕ) → count p (xs ++ ys) ≡ count p xs + count p ys
unfolding count
count-append p [] ys = omega arith
count-append p (x ∷ xs) ys = ground (arith, count-append p xs ys)

abbrev pub one : Bool → ℕ
one b = if b then 1 else 0

pub count-snoc : (p q : ℕ) (xs : List ℕ) → count p (xs ++ q ∷ []) ≡ count p xs + one (eqb q p)
unfolding count
count-snoc p q xs = ground (arith, count-append p xs (q ∷ []))

pub lookup-insert_param :
    (p q : ℕ) (v : Option ℕ) (d : Handles)
    → lookup (param q) (insert (param p) v d) ≡ (if eqb p q then some v else lookup (param q) d)
lookup-insert_param p q v d = lookup-insert (param p) (param q) v d

-- Without groups every handle is one of a parameter.
abbrev pub OnlyParams : Handles → Type 0
OnlyParams [] = Unit
OnlyParams ((param p, h) ∷ d) = OnlyParams d
OnlyParams ((group g, h) ∷ d) = ⊥

pub OnlyParams-insert :
    (p : ℕ) (h : Option ℕ) (d : Handles) → OnlyParams d → OnlyParams (insert (param p) h d)
unfolding insert
OnlyParams-insert p h [] only = tt
OnlyParams-insert p h ((param q, g) ∷ d) only = elim (Bool-cases (eqb q p)) [
  | inl e ↦ rw (e) only
  | inr e ↦ rw (e) (OnlyParams-insert p h d only)
]
OnlyParams-insert p h ((group g, v) ∷ d) only = absurd only

-- What holds between a synchronisation and the next: `base` is what had been handed over before.
pub record Sent (base : ℕ → ℕ) (s : Optimizer) : Type 0 where
  pub counted : (p : ℕ) → count p s.submitted ≡ base p + one (handed (lookup (param p) s.handles))
  pub no_delay :
      (p : ℕ) → handed (lookup (param p) s.handles) ≡ true → lookup p s.allreduce_delay ≡ some 0
  pub only_params : OnlyParams s.handles
  pub one_each : Nodup (keys s.handles)

waits :
    (base : ℕ → ℕ) (p d : ℕ) (s : Optimizer)
    → lookup p s.allreduce_delay ≡ some (suc d)
    → Sent base s
    → handed (lookup (param p) s.handles) ≡ false
waits base p d s e sent = elim (Bool-cases (handed (lookup (param p) s.handles))) [
  | inl h ↦ ground (arith, sent.no_delay p h)
  | inr h ↦ h
]

hand_over :
    (base : ℕ → ℕ) (p : ℕ) (s : Optimizer)
    → Sent base s
    → handed (lookup (param p) s.handles) ≡ false
    → Sent base (
        set_handle p
          (some (length s.submitted))
          (submit p (record s { allreduce_delay = insert p 0 s.allreduce_delay })))
hand_over base p s sent free =
    let h = some (length s.submitted) in
    record {
      counted = λ q.
          ground (
            arith,
            sent.counted q,
            count-snoc q p s.submitted,
            lookup-insert_param p q h s.handles,
          );
      no_delay = λ q e. ground (
        arith,
        sent.no_delay q,
        lookup-insert p q 0 s.allreduce_delay,
        lookup-insert_param p q h s.handles,
      );
      only_params = OnlyParams-insert p h s.handles sent.only_params;
      one_each = Nodup-insert (param p) h s.handles sent.one_each;
    }

hold_back :
    (base : ℕ → ℕ) (p d : ℕ) (s : Optimizer)
    → Sent base s
    → handed (lookup (param p) s.handles) ≡ false
    → Sent base (set_handle p none (record s { allreduce_delay = insert p d s.allreduce_delay }))
hold_back base p d s sent free = record {
  counted = λ q. ground (arith, sent.counted q, lookup-insert_param p q none s.handles);
  no_delay = λ q e. ground (
    arith,
    sent.no_delay q,
    lookup-insert p q d s.allreduce_delay,
    lookup-insert_param p q none s.handles,
  );
  only_params = OnlyParams-insert p none s.handles sent.only_params;
  one_each = Nodup-insert (param p) none s.handles sent.one_each;
}

-- The fields that no hook of an ungrouped optimizer changes.
pub record Fixed (s u : Optimizer) : Type 0 where
  pub same_groups : u.groups ≡ s.groups
  pub same_requires : u.requires_update ≡ s.requires_update
  pub same_grads : u.grads_require_grad ≡ s.grads_require_grad
  pub same_passes : u.backward_passes_per_step ≡ s.backward_passes_per_step

hook_at-Sent :
    (base : ℕ → ℕ) (p d : ℕ) (s u : Optimizer)
    → s.groups ≡ false
    → lookup p s.allreduce_delay ≡ some d
    → Sent base s
    → hook_at p d s ≡ ok u
    → Sent base u × Fixed s u
unfolding last_pass
hook_at-Sent base p zero s u g e sent h = cc
hook_at-Sent base p (suc zero) s u g e sent h =
    let t =
      set_handle p (some (length s.submitted))
        (submit p (record s { allreduce_delay = insert p 0 s.allreduce_delay })) in
    let made : t ≡ u = ground arith in
    subst (λ v. Sent base v × Fixed s v) made
      (
        hand_over base p s sent (waits base p 0 s e sent),
        record { same_groups = refl; same_requires = refl; same_grads = refl; same_passes = refl },
      )
hook_at-Sent base p (suc (suc d)) s u g e sent h =
    let t = set_handle p none (record s { allreduce_delay = insert p (suc d) s.allreduce_delay }) in
    let made : t ≡ u = ground arith in
    subst (λ v. Sent base v × Fixed s v) made
      (
        hold_back base p (suc d) s sent (waits base p (suc d) s e sent),
        record { same_groups = refl; same_requires = refl; same_grads = refl; same_passes = refl },
      )

-- One call of a hook that raises nothing.
pub hook-Sent :
    (base : ℕ → ℕ) (p : ℕ) (s u : Optimizer)
    → s.groups ≡ false
    → Sent base s
    → hook p s ≡ ok u
    → Sent base u × Fixed s u
unfolding hook
hook-Sent base p s u g sent h =
    let (detached, run) =
      if_else_ok (contains p s.grads_require_grad) assertion_error
        (do delay ← item (lookup p s.allreduce_delay); hook_at p delay s) u h in
    let (d, e, r) = bind-ok (item (lookup p s.allreduce_delay)) (λ d. hook_at p d s) u run in
    hook_at-Sent base p d s u g (ground arith) sent r

-- The hooks of one or more backward passes.
unfoldable pub hooks : List ℕ → Optimizer → Result Optimizer
hooks [] s = ok s
hooks (p ∷ ps) s = do t ← hook p s; hooks ps t

pub hooks-Sent :
    (base : ℕ → ℕ) (ps : List ℕ) (s u : Optimizer)
    → s.groups ≡ false
    → Sent base s
    → hooks ps s ≡ ok u
    → Sent base u × Fixed s u
unfolding hooks
hooks-Sent base [] s u g sent h =
    let made : s ≡ u = cc in
    subst (λ v. Sent base v × Fixed s v) made
      (
        sent,
        record { same_groups = refl; same_requires = refl; same_grads = refl; same_passes = refl },
      )
hooks-Sent base (p ∷ ps) s u g sent h =
    let (t, e, r) = bind-ok (hook p s) (λ t. hooks ps t) u h in
    let (now, same) = hook-Sent base p s t g sent e in
    let (later, kept) = hooks-Sent base ps t u (same.same_groups ∙ g) now r in
    (
      later,
      record {
        same_groups = kept.same_groups ∙ same.same_groups;
        same_requires = kept.same_requires ∙ same.same_requires;
        same_grads = kept.same_grads ∙ same.same_grads;
        same_passes = kept.same_passes ∙ same.same_passes;
      },
    )
