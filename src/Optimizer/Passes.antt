-- ===== src/Optimizer/Passes.antt =====
-- How often the hook of a parameter may be called before the next synchronisation.
use horovod.Common.{
  ℕ, zero, suc, ◌≡◌, refl, ap, ◌∙◌, true, false, none, some, List, [], ◌∷◌, length, if◌then◌else◌,
  rank_key, arith,
}
use horovod.Common.Dict.{Dict, contains, lookup, insert, lookup-insert, lookup-insert_self, Nodup}
use horovod.Optimizer.Keys.{handle_key}
use horovod.Optimizer.{
  Optimizer, ok, err, assertion_error, completed, submit_missing, restart_delays, synchronize,
  last_pass, set_handle, submit, hook,
}
use horovod.Optimizer.Hooks.{count, Sent, hooks, hooks-Sent}
use horovod.Optimizer.Rounds.{clean-Sent, contains-completed, submit_missing-Filled}

lookup-restart_delays :
    (passes : ℕ) (ps : List ℕ) (delays : Dict ℕ ℕ) (p : ℕ)
    → lookup p (restart_delays passes ps delays)
      ≡ (if contains p ps then some passes else lookup p delays)
unfolding restart_delays contains
lookup-restart_delays passes [] delays p = refl
lookup-restart_delays passes (q ∷ ps) delays p = ground (
  arith,
  lookup-restart_delays passes ps (insert q passes delays) p,
  lookup-insert q p passes delays,
)

delay-synchronize :
    (base : ℕ → ℕ) (u : Optimizer) (p : ℕ)
    → Sent base u
    → Nodup u.requires_update
    → contains p u.requires_update ≡ true
    → lookup p (synchronize u).allreduce_delay ≡ some u.backward_passes_per_step
unfolding synchronize
delay-synchronize base u p sent nd c =
    let done = completed u.group_members u.handles in
    let t = submit_missing done u.requires_update u in
    let f = submit_missing-Filled done u.requires_update u nd sent.only_params sent.one_each in
    ground (
      arith,
      lookup-restart_delays u.backward_passes_per_step (completed u.group_members t.handles)
          t.allreduce_delay p,
      contains-completed u.group_members p t.handles f.only_params,
      contains-completed u.group_members p u.handles sent.only_params,
      f.now_present p,
    )

groups-submit_missing :
    (done ps : List ℕ) (s : Optimizer) → (submit_missing done ps s).groups ≡ s.groups
unfolding submit_missing
groups-submit_missing done [] s = refl
groups-submit_missing done (q ∷ ps) s =
    groups-submit_missing done ps
      (if contains q done then s else set_handle q (some (length s.submitted)) (submit q s))
    ∙ (ground arith)

abbrev pub times : ℕ → ℕ → List ℕ
times zero p = []
times (suc n) p = p ∷ times n p

hook-pass :
    (n p : ℕ) (s : Optimizer)
    → s.groups ≡ false
    → contains p s.grads_require_grad ≡ false
    → lookup p s.allreduce_delay ≡ some (suc n)
    → (t : Optimizer) × (hook p s ≡ ok t)
      × (t.groups ≡ false)
      × (contains p t.grads_require_grad ≡ false)
      × (lookup p t.allreduce_delay ≡ some n)
unfolding hook last_pass
hook-pass zero p s g plain e =
    let t = record s { allreduce_delay = insert p 0 s.allreduce_delay } in
    rw (plain, e)
      (
        set_handle p (some (length s.submitted)) (submit p t),
        rw (g, last_pass) refl,
        g,
        plain,
        lookup-insert_self p 0 s.allreduce_delay,
      )
hook-pass (suc n) p s g plain e =
    let t = record s { allreduce_delay = insert p (suc n) s.allreduce_delay } in
    rw (plain, e)
      (set_handle p none t, ground arith, g, plain, lookup-insert_self p (suc n) s.allreduce_delay)

-- With n passes left the hook of an ungrouped parameter can be called n times, and then raises.
hooks-times :
    (n p : ℕ) (s : Optimizer)
    → s.groups ≡ false
    → contains p s.grads_require_grad ≡ false
    → lookup p s.allreduce_delay ≡ some n
    → (u : Optimizer) × (hooks (times n p) s ≡ ok u) × (hook p u ≡ err assertion_error)
unfolding hooks hook
hooks-times zero p s g plain e = (s, refl, rw (plain, e) refl)
hooks-times (suc n) p s g plain e =
    let (t, now, g2, plain2, e2) = hook-pass n p s g plain e in
    let (u, more, stop) = hooks-times n p t g2 plain2 e2 in (u, rw (now) more, stop)

groups-synchronize : (u : Optimizer) → (synchronize u).groups ≡ u.groups
unfolding synchronize
groups-synchronize u =
    groups-submit_missing (completed u.group_members u.handles) u.requires_update u

grads-submit_missing :
    (done ps : List ℕ) (s : Optimizer)
    → (submit_missing done ps s).grads_require_grad ≡ s.grads_require_grad
unfolding submit_missing
grads-submit_missing done [] s = refl
grads-submit_missing done (q ∷ ps) s =
    grads-submit_missing done ps
      (if contains q done then s else set_handle q (some (length s.submitted)) (submit q s))
    ∙ (ground arith)

grads-synchronize : (u : Optimizer) → (synchronize u).grads_require_grad ≡ u.grads_require_grad
unfolding synchronize
grads-synchronize u = grads-submit_missing (completed u.group_members u.handles) u.requires_update u

-- After hooks that raise nothing and a `synchronize`, the hook of an ungrouped parameter that is to
-- be updated can be called `backward_passes_per_step` times, and a further call raises
-- AssertionError, when there was no handle before, the parameters to be updated are different, and
-- the gradient of the parameter requires no gradient itself.
pub passes_per_step :
    (ps : List ℕ) (s u : Optimizer) (p : ℕ)
    → s.groups ≡ false
    → s.handles ≡ []
    → Nodup s.requires_update
    → contains p s.requires_update ≡ true
    → contains p s.grads_require_grad ≡ false
    → hooks ps s ≡ ok u
    → (v : Optimizer) × (hooks (times s.backward_passes_per_step p) (synchronize u) ≡ ok v)
      × (hook p v ≡ err assertion_error)
passes_per_step ps s u p g clean nd c plain h =
    let base : ℕ → ℕ = λ q. count q s.submitted in
    let (sent, same) = hooks-Sent base ps s u g (clean-Sent s clean) h in
    hooks-times s.backward_passes_per_step p (synchronize u)
      (groups-synchronize u ∙ same.same_groups ∙ g)
      (ap (λ ks. contains p ks) (grads-synchronize u ∙ same.same_grads) ∙ plain)
      (delay-synchronize base u p sent (rw (same.same_requires) nd) (rw (same.same_requires) c)
        ∙ ap some same.same_passes)
