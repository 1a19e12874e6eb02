-- ===== src/Aggregation/Tests.antt =====
-- Tensors of one byte on two workers with the same gradients, and two steps in a cycle.
use horovod.Common.{
  ℕ, ◌+◌, ◌-◌, ◌/◌, ◌%◌, ◌≡◌, refl, true, false, Option, none, some, List, [], ◌∷◌, map, rank_key,
}
use horovod.Common.Dict.{insert, lookup}
use horovod.Aggregation.{
  Tensors, Grad, dense, slices, ok, err, assertion_error, value_error, Helper,
  init_aggregation_vars, init_from, not_none, convert_all, compute_gradients, insert_none,
  aggregate_grads, add_all, clear_grads, allreduce_grads_helper, Applied,
}
use horovod.Aggregation.Eager.{
  HelperEager, compute_gradients_eager, aggregate_from, allreduce_helper, clear_vars, clear_all,
}
use horovod.Aggregation.EagerCycle.{none_fails}

abbrev bytes : Tensors ℕ
bytes = record {
  zeros = 0;
  plus = λ a b. (a + b) % 256;
  negate = λ a. (256 - a) % 256;
  divide = λ a n. a / n;
  allreduce = λ ts. map (λ t. t + t) ts;
}

abbrev twice : Option ℕ → Option ℕ
twice none = none
twice (some t) = some (t + t)

abbrev allreduce : List (Option ℕ) → List (Option ℕ)
allreduce ts = map twice ts

-- The second of three variables gets no gradient.
abbrev first : List (Option (Grad ℕ))
first = some (dense 1) ∷ none ∷ some (slices 3) ∷ []

abbrev second : List (Option (Grad ℕ))
second = some (dense 5) ∷ none ∷ some (dense 7) ∷ []

abbrev helper : Helper ℕ
helper = record {
  backward_passes_per_step = 2;
  average_aggregated_gradients = true;
  sparse_as_dense = true;
  locally_aggregated_grads = 0 ∷ 0 ∷ [];
  counter = 0;
  not_none_indexes = (0, 0) ∷ (2, 1) ∷ [];
  num_none_grad_updates = 1;
}

abbrev fresh : Helper ℕ
fresh = record helper {
  locally_aggregated_grads = [];
  not_none_indexes = [];
  num_none_grad_updates = 0;
}

no_slices :
    init_aggregation_vars bytes first (record fresh { sparse_as_dense = false }) ≡ err value_error
unfolding init_aggregation_vars init_from insert
no_slices = refl

abbrev applied : Applied
applied = record { closure_calls = 0; iterations = some 0; global_step = none }

abbrev after_first : Helper ℕ
after_first = record helper { locally_aggregated_grads = 1 ∷ 3 ∷ []; counter = 1 }

kept : compute_gradients bytes first helper ≡ ok (after_first, some 1 ∷ none ∷ some 3 ∷ [])
unfolding compute_gradients aggregate_grads clear_grads add_all not_none convert_all insert_none
    lookup
kept = refl

summed :
    compute_gradients bytes second after_first
    ≡ ok (record helper { locally_aggregated_grads = 6 ∷ 10 ∷ [] }, some 6 ∷ none ∷ some 10 ∷ [])
unfolding compute_gradients aggregate_grads add_all not_none allreduce_grads_helper insert_none
    lookup
summed = refl

abbrev eager : HelperEager ℕ
eager = record {
  backward_passes_per_step = 2;
  average_aggregated_gradients = false;
  sparse_as_dense = true;
  locally_aggregated_grads = [];
  counter = 0;
}

abbrev whole : List (Option (Grad ℕ))
whole = some (dense 1) ∷ some (slices 2) ∷ []

eager_cleared :
    compute_gradients_eager bytes allreduce whole
      (record eager { locally_aggregated_grads = (0, 4) ∷ (1, 5) ∷ []; counter = 1 })
    ≡ ok (record eager { locally_aggregated_grads = (0, 0) ∷ (1, 0) ∷ [] }, some 10 ∷ some 14 ∷ [])
unfolding compute_gradients_eager aggregate_from allreduce_helper clear_vars clear_all insert lookup
eager_cleared = refl

converts : convert_all true (not_none first) ≡ ok (1 ∷ 3 ∷ [])
unfolding not_none convert_all
converts = refl

none_fails_example : compute_gradients_eager bytes allreduce first eager ≡ err assertion_error
none_fails_example = none_fails bytes allreduce eager first (1 ∷ 3 ∷ []) refl refl converts
