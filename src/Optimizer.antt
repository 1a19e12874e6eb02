-- ===== src/Optimizer.antt =====
-- horovod/torch/optimizer.py, _DistributedOptimizer: when the gradient of a parameter is handed to an
-- allreduce. A parameter is a number; its tensors, their compression and the reduction itself are
-- left to the C++ core and to PyTorch, and `submitted` lists the parameters in the order in which
-- they are handed over. A group is known by a number.
pub mod Keys
pub mod Hooks
pub mod Rounds
pub mod Passes
mod Tests
use horovod.Common.{
  ℕ, zero, suc, ◌+◌, ◌-◌, Bool, true, false, not, Option, none, some, List, [], ◌∷◌, ◌++◌, length,
  eqb, leb, if◌then◌else◌, Key, ◌=?◌, rank_key,
}
use horovod.Common.Dict.{Dict, contains, lookup, insert, erase}
use horovod.Optimizer.Keys.{HandleKey, param, group, handle_key}

pub data OptimizerError : Type 0 where
  assertion_error key_error value_error : OptimizerError

pub data Result {ℓ} (A : Type ℓ) : Type ℓ where
  ok : A → Result A
  err : OptimizerError → Result A

infixl 5 ◌>>=◌
abbrev pub ◌>>=◌ {ℓ κ} : {A : Type ℓ} {B : Type κ} → Result A → (A → Result B) → Result B
ok a >>= f = f a
err e >>= f = err e

-- A handle is the number of the submission; `none` marks a parameter that waits for more passes.
abbrev pub Handles : Type 0
Handles = Dict HandleKey (Option ℕ)

-- `grads_require_grad` are the parameters p with p.grad.requires_grad, as after a backward pass that
-- creates a graph; PyTorch sets it, and no method of the class.
pub record Optimizer : Type 0 where
  pub backward_passes_per_step : ℕ
  pub allreduce_delay : Dict ℕ ℕ
  pub handles : Handles
  pub requires_update : List ℕ
  pub synchronized : Bool
  pub should_synchronize : Bool
  pub groups : Bool
  pub p_to_group : Dict ℕ ℕ
  pub group_members : Dict ℕ (List ℕ)
  pub group_counts : Dict ℕ ℕ
  pub grads_require_grad : List ℕ
  pub submitted : List ℕ
  pub steps : ℕ

-- d[k]
abbrev pub item {ℓ} : {A : Type ℓ} → Option A → Result A
item none = err key_error
item (some a) = ok a

unfoldable pub find_duplicates_in : List ℕ → List ℕ → List ℕ
find_duplicates_in seen [] = []
find_duplicates_in seen (x ∷ xs) =
    let rest = find_duplicates_in (x ∷ seen) xs in if contains x seen then x ∷ rest else rest

-- The set of the duplicates, as a list.
unfoldable pub find_duplicates : List ℕ → List ℕ
find_duplicates xs = find_duplicates_in [] xs

-- {p: passes for p in delays}
unfoldable pub reset_delays : ℕ → Dict ℕ ℕ → Dict ℕ ℕ
reset_delays passes [] = []
reset_delays passes ((p, delay) ∷ delays) = (p, passes) ∷ reset_delays passes delays

-- What `load_state_dict` does before it calls that of PyTorch.
unfoldable pub load_state_dict : Optimizer → Optimizer
load_state_dict s = record s {
  handles = [];
  synchronized = false;
  should_synchronize = true;
  allreduce_delay = reset_delays s.backward_passes_per_step s.allreduce_delay;
}

unfoldable pub set_backward_passes_per_step : ℕ → Optimizer → Optimizer
set_backward_passes_per_step passes s = record s {
  backward_passes_per_step = passes;
  allreduce_delay = reset_delays passes s.allreduce_delay;
}

abbrev pub handed : Option (Option ℕ) → Bool
handed none = false
handed (some none) = false
handed (some (some h)) = true

-- `_allreduce_grad_async`, whose handle is the position of the submission.
abbrev pub submit : ℕ → Optimizer → Optimizer
submit p s = record s { submitted = s.submitted ++ p ∷ [] }

abbrev pub set_handle : ℕ → Option ℕ → Optimizer → Optimizer
set_handle p h s = record s { handles = insert (param p) h s.handles }

unfoldable pub pop_all : List ℕ → Handles → Handles
pop_all [] handles = handles
pop_all (p ∷ ps) handles = pop_all ps (erase (param p) handles)

-- The last gradient of a group hands the group over.
unfoldable pub count_in_group : ℕ → Optimizer → Result Optimizer
count_in_group p s = do
  g ← item (lookup p s.p_to_group)
  members ← item (lookup g s.group_members)
  n ← item (lookup g s.group_counts)
  ok (
      if eqb (n + 1) (length members)
      then record s {
        handles = pop_all members (insert (group g) (some (length s.submitted)) s.handles);
        submitted = s.submitted ++ members;
        group_counts = insert g 0 s.group_counts;
      }
      else set_handle p none (record s { group_counts = insert g (n + 1) s.group_counts }))

unfoldable pub last_pass : ℕ → Optimizer → Result Optimizer
last_pass p s =
    if s.groups
    then count_in_group p s
    else ok (set_handle p (some (length s.submitted)) (submit p s))

-- The two assertions on the delay come to one.
abbrev pub hook_at : ℕ → ℕ → Optimizer → Result Optimizer
hook_at p zero s = err assertion_error
hook_at p (suc delay) s =
    let t = record s { allreduce_delay = insert p delay s.allreduce_delay } in
    if eqb delay 0 then last_pass p t else ok (set_handle p none t)

-- The hook that `_make_hook` registers, called when the gradient of the parameter is there. Every
-- parameter with a hook has a delay.
unfoldable pub hook : ℕ → Optimizer → Result Optimizer
hook p s =
    if contains p s.grads_require_grad
    then err assertion_error
    else do delay ← item (lookup p s.allreduce_delay); hook_at p delay s

abbrev pub params_of : Dict ℕ (List ℕ) → HandleKey → List ℕ
params_of members (param p) = p ∷ []
params_of members (group g) = elim (lookup g members) [ none ↦ [] | some ps ↦ ps ]

unfoldable pub completed : Dict ℕ (List ℕ) → Handles → List ℕ
completed members [] = []
completed members ((k, h) ∷ handles) = params_of members k ++ completed members handles

-- for p in missing_p, where the set is met in the order of the list
unfoldable pub submit_missing : List ℕ → List ℕ → Optimizer → Optimizer
submit_missing done [] s = s
submit_missing done (p ∷ ps) s =
    submit_missing done ps
      (if contains p done then s else set_handle p (some (length s.submitted)) (submit p s))

-- The second loop of `synchronize`: the parameters with no handle yet, in the order of the dictionary.
unfoldable pub unsent : Handles → List ℕ
unsent [] = []
unsent ((param p, none) ∷ handles) = p ∷ unsent handles
unsent ((param p, some h) ∷ handles) = unsent handles
unsent ((group g, h) ∷ handles) = unsent handles

-- The third loop: delays and counts start anew for what has been reduced.
unfoldable pub restart_delays : ℕ → List ℕ → Dict ℕ ℕ → Dict ℕ ℕ
restart_delays passes [] delays = delays
restart_delays passes (p ∷ ps) delays = restart_delays passes ps (insert p passes delays)

unfoldable pub restart_counts : List ℕ → Dict ℕ ℕ → Dict ℕ ℕ → Dict ℕ ℕ
restart_counts [] groups counts = counts
restart_counts (p ∷ ps) groups counts =
    restart_counts ps groups (elim (lookup p groups) [ none ↦ counts | some g ↦ insert g 0 counts ])

unfoldable pub synchronize : Optimizer → Optimizer
synchronize s =
    let t = submit_missing (completed s.group_members s.handles) s.requires_update s in
    let reduced = completed s.group_members t.handles in
    record t {
      submitted = t.submitted ++ unsent t.handles;
      allreduce_delay = restart_delays s.backward_passes_per_step reduced t.allreduce_delay;
      group_counts =
          if s.groups then restart_counts reduced s.p_to_group t.group_counts else t.group_counts;
      handles = [];
      synchronized = true;
    }

-- The `with` block of `skip_synchronize`; the flag is set again also when the block raises.
unfoldable pub skip_synchronize : (Optimizer → Optimizer) → Optimizer → Optimizer
skip_synchronize body s = record (body (record s { should_synchronize = false })) {
  should_synchronize = true;
}

unfoldable pub step : Optimizer → Optimizer
step s =
    let t = if s.should_synchronize then synchronize s else s in
    record t { synchronized = false; steps = t.steps + 1 }

abbrev pub zero_grad_if : Handles → Optimizer → Result Optimizer
zero_grad_if [] s = ok s
zero_grad_if (h ∷ handles) s = err assertion_error

unfoldable pub zero_grad : Optimizer → Result Optimizer
zero_grad s = zero_grad_if s.handles s
