-- ===== src/Optimizer/Tests.antt =====
-- Two parameters, two passes, and a step after the first parameter is complete.
use horovod.Common.{ℕ, ◌≡◌, refl, suc, true, false, none, some, List, [], ◌∷◌, rank_key}
use horovod.Common.Dict.{contains, lookup, insert, erase, Nodup}
use horovod.Optimizer.Keys.{param, group}
use horovod.Optimizer.{
  Optimizer, ok, err, assertion_error, synchronize, hook, zero_grad, step, last_pass,
  count_in_group, pop_all, submit_missing, completed, unsent,
}
use horovod.Optimizer.Hooks.{count, hooks}
use horovod.Optimizer.Rounds.{synchronize_once}
use horovod.Optimizer.Passes.{times, passes_per_step}

abbrev fresh : Optimizer
fresh = record {
  backward_passes_per_step = 2;
  allreduce_delay = (7, 2) ∷ (8, 2) ∷ [];
  handles = [];
  requires_update = 7 ∷ 8 ∷ [];
  synchronized = false;
  should_synchronize = true;
  groups = false;
  p_to_group = [];
  group_members = [];
  group_counts = [];
  grads_require_grad = [];
  submitted = [];
  steps = 0;
}

abbrev after : Optimizer
after = record fresh {
  allreduce_delay = (7, 0) ∷ (8, 1) ∷ [];
  handles = (param 7, some 0) ∷ (param 8, none) ∷ [];
  submitted = 7 ∷ [];
}

abbrev turns : List ℕ
turns = 7 ∷ 7 ∷ 8 ∷ []

hooks_run : hooks turns fresh ≡ ok after
unfolding hooks hook contains last_pass lookup insert
hooks_run = refl

third_call : hook 7 after ≡ err assertion_error
unfolding hook contains lookup
third_call = refl

no_reset : zero_grad after ≡ err assertion_error
unfolding zero_grad
no_reset = refl

stepped : (step after).submitted ≡ 7 ∷ 8 ∷ []
unfolding step synchronize submit_missing completed unsent contains
stepped = refl

-- A group is handed over by the last of its parameters.
abbrev grouped : Optimizer
grouped = record fresh {
  groups = true;
  p_to_group = (7, 1) ∷ (8, 1) ∷ [];
  group_members = (1, 7 ∷ 8 ∷ []) ∷ [];
  group_counts = (1, 0) ∷ [];
  allreduce_delay = (7, 1) ∷ (8, 1) ∷ [];
}

group_handed :
    hooks (8 ∷ 7 ∷ []) grouped
    ≡ ok (record grouped {
      allreduce_delay = (7, 0) ∷ (8, 0) ∷ [];
      handles = (group 1, some 0) ∷ [];
      submitted = 7 ∷ 8 ∷ [];
    })
unfolding hooks hook contains last_pass count_in_group pop_all lookup insert erase
group_handed = refl

different : Nodup fresh.requires_update
unfolding contains
different = (refl, (refl, tt))

has_eight : contains 8 fresh.requires_update ≡ true
unfolding contains
has_eight = refl

synchronize_once_example : count 8 (synchronize after).submitted ≡ suc (count 8 fresh.submitted)
synchronize_once_example =
    synchronize_once turns fresh after 8 refl refl different has_eight hooks_run

eight_plain : contains 8 fresh.grads_require_grad ≡ false
unfolding contains
eight_plain = refl

passes_per_step_example :
    (v : Optimizer) × (hooks (times fresh.backward_passes_per_step 8) (synchronize after) ≡ ok v)
    × (hook 8 v ≡ err assertion_error)
passes_per_step_example =
    passes_per_step turns fresh after 8 refl refl different has_eight eight_plain hooks_run
