-- ===== src/ProcessSets/Tests.antt =====
-- Runs of the process sets, and their theorem at a list with a duplicate.
use horovod.Common.{ℕ, ◌≡◌, ◌≢◌, refl, true, false, Option, none, some, List, [], ◌∷◌, rank_key}
use horovod.Common.Dict.{Dict, lookup, insert, contains}
use horovod.ProcessSets.{
  ProcessSet, Store, Loop, same_ranks, id_of_ranks, resolve, settle, visit, visit_all,
  init_process_sets, added, add_process_set, remove_process_set,
}
use horovod.ProcessSets.Distinct.{id_at, init_process_sets-apart}

abbrev of_ranks : List ℕ → Option ℕ → ProcessSet
of_ranks ranks i = record { process_set_id = i; ranks = some ranks; mpi_comm = none }

abbrev refs : List ℕ
refs = 10 ∷ 11 ∷ 12 ∷ []

abbrev last_given : ℕ
last_given = 12

abbrev id_given : ℕ
id_given = 2

abbrev core_table : Dict ℕ (List ℕ)
core_table = (0, 0 ∷ 1 ∷ 2 ∷ []) ∷ (1, 0 ∷ 1 ∷ []) ∷ (2, 2 ∷ []) ∷ []

abbrev comm_id : ℕ → ℕ
comm_id comm = 2

abbrev given : Store
given =
    (10, of_ranks (0 ∷ 1 ∷ []) none)
    ∷ (11, of_ranks (0 ∷ 1 ∷ []) none)
    ∷ (12, record { process_set_id = none; ranks = none; mpi_comm = some 7 })
    ∷ []

abbrev settled : Loop
settled = record {
  store =
      (10, of_ranks (0 ∷ 1 ∷ []) (some 1))
      ∷ (11, of_ranks (0 ∷ 1 ∷ []) none)
      ∷ (12, record { process_set_id = some 2; ranks = some (2 ∷ []); mpi_comm = some 7 })
      ∷ [];
  ids_seen = 2 ∷ 1 ∷ 0 ∷ [];
}

three_given : init_process_sets core_table comm_id refs given ≡ some settled
unfolding init_process_sets visit_all visit settle resolve id_of_ranks same_ranks lookup insert
    contains
three_given = refl

unknown_ranks :
    init_process_sets core_table comm_id (10 ∷ []) ((10, of_ranks (1 ∷ []) none) ∷ []) ≡ none
unfolding init_process_sets visit_all visit settle resolve id_of_ranks same_ranks lookup insert
    contains
unknown_ranks = refl

new_set :
    add_process_set (λ ranks. some 3) (of_ranks (1 ∷ 2 ∷ []) none)
    ≡ added (of_ranks (1 ∷ 2 ∷ []) (some 3))
unfolding add_process_set
new_set = refl

not_removed_but_invalid :
    remove_process_set (λ i. none) (of_ranks (2 ∷ []) (some 2)) ≡ (of_ranks (2 ∷ []) none, false)
unfolding remove_process_set
not_removed_but_invalid = refl

given-contains : contains last_given refs ≡ true
unfolding contains
given-contains = refl

settled-id : id_at 12 settled.store ≡ some 2
unfolding lookup
settled-id = refl

init_process_sets-apart_example : (last_given ≡ last_given) × (id_given ≢ 0)
init_process_sets-apart_example =
    init_process_sets-apart core_table comm_id refs given settled last_given last_given id_given
      three_given given-contains given-contains settled-id settled-id
