-- ===== src/ProcessSets.antt =====
-- horovod/common/process_sets.py: the objects that stand for sets of processes, and their numbers.
-- Objects live in a store, since one may be passed twice. What the C++ core answers is an argument:
-- its table of process sets, the set of a communicator, and the results of adding and removing.
pub mod Distinct
mod Tests
use horovod.Common.{
  ℕ, zero, suc, Bool, true, false, Option, none, some, List, [], ◌∷◌, ◌&&◌, eqb, if◌then◌else◌, Key,
  rank_key,
}
use horovod.Common.Dict.{Dict, lookup, insert, contains}

-- `mpi_comm` is opaque.
pub record ProcessSet : Type 0 where
  pub process_set_id : Option ℕ
  pub ranks : Option (List ℕ)
  pub mpi_comm : Option ℕ

abbrev pub Store : Type 0
Store = Dict ℕ ProcessSet

abbrev pub invalidate : ProcessSet → ProcessSet
invalidate ps = record ps { process_set_id = none }

unfoldable pub same_ranks : List ℕ → List ℕ → Bool
same_ranks [] [] = true
same_ranks [] (b ∷ bs) = false
same_ranks (a ∷ rest) [] = false
same_ranks (a ∷ rest) (b ∷ bs) = eqb a b && same_ranks rest bs

-- ranks_to_id_dict[tuple(ranks)], where later entries of the core's table win
unfoldable pub id_of_ranks : List ℕ → Dict ℕ (List ℕ) → Option ℕ
id_of_ranks ranks [] = none
id_of_ranks ranks ((i, rs) ∷ table) =
    let later = id_of_ranks ranks table in
    elim later [ none ↦ if same_ranks rs ranks then some i else none | some j ↦ some j ]

-- What `_init_process_sets` changes in its loop.
pub record Loop : Type 0 where
  pub store : Store
  pub ids_seen : List ℕ

module _ (table : Dict ℕ (List ℕ)) (comm_process_set_id : ℕ → ℕ) where
  abbrev pub with_id : ProcessSet → Option ℕ → Option ProcessSet
  with_id ps none = none
  with_id ps (some i) = some (record ps { process_set_id = some i })

  abbrev pub with_ranks : ProcessSet → ℕ → Option (List ℕ) → Option ProcessSet
  with_ranks ps i none = none
  with_ranks ps i (some ranks) = some (record ps { process_set_id = some i; ranks = some ranks })

  abbrev pub from_comm : ProcessSet → Option ℕ → Option ProcessSet
  from_comm ps none = some ps
  from_comm ps (some comm) =
      with_ranks ps (comm_process_set_id comm) (lookup (comm_process_set_id comm) table)

  -- The object with its number and ranks; `none` is a KeyError.
  abbrev pub resolve_by : ProcessSet → Option (List ℕ) → Option ProcessSet
  resolve_by ps none = from_comm ps ps.mpi_comm
  resolve_by ps (some ranks) = with_id ps (id_of_ranks ranks table)

  unfoldable pub resolve : ProcessSet → Option ProcessSet
  resolve ps = resolve_by ps ps.ranks

  -- An object without a number gets none, and changes no later test of a number.
  abbrev pub settle_at : ℕ → ProcessSet → Option ℕ → Loop → Loop
  settle_at r ps none l = record l { store = insert r (invalidate ps) l.store }
  settle_at r ps (some i) l =
      if contains i l.ids_seen
      then record l { store = insert r (invalidate ps) l.store }
      else record { store = insert r ps l.store; ids_seen = i ∷ l.ids_seen }

  unfoldable pub settle : ℕ → ProcessSet → Loop → Loop
  settle r ps l = settle_at r ps ps.process_set_id l

  abbrev pub visit_with : ℕ → Option ProcessSet → Loop → Option Loop
  visit_with r none l = none
  visit_with r (some ps) l = some (settle r ps l)

  -- An object that is passed is in the store.
  abbrev pub visit_object : ℕ → Option ProcessSet → Loop → Option Loop
  visit_object r none l = some l
  visit_object r (some ps) l = visit_with r (resolve ps) l

  unfoldable pub visit : ℕ → Loop → Option Loop
  visit r l = visit_object r (lookup r l.store) l

  abbrev pub and_visit : Option Loop → (Loop → Option Loop) → Option Loop
  and_visit none rest = none
  and_visit (some l) rest = rest l

  unfoldable pub visit_all : List ℕ → Loop → Option Loop
  visit_all [] l = some l
  visit_all (r ∷ rs) l = and_visit (visit r l) (visit_all rs)

  -- The loop of `_init_process_sets`; the global process set, whose number is 0, is not in the list.
  unfoldable pub init_process_sets : List ℕ → Store → Option Loop
  init_process_sets rs store = visit_all rs (record { store = store; ids_seen = 0 ∷ [] })

pub data Added : Type 0 where
  added : ProcessSet → Added
  not_implemented : Added
  assertion_error : Added
  duplicate : Added

abbrev pub added_as : ProcessSet → Option ℕ → Added
added_as ps none = duplicate
added_as ps (some i) = added (record ps { process_set_id = some i })

abbrev pub add_ranks : (List ℕ → Option ℕ) → ProcessSet → Option (List ℕ) → Option ℕ → Added
add_ranks core ps (some ranks) comm = added_as ps (core ranks)
add_ranks core ps none (some comm) = not_implemented
add_ranks core ps none none = assertion_error

-- `core` is `_add_process_set_impl`.
unfoldable pub add_process_set : (List ℕ → Option ℕ) → ProcessSet → Added
add_process_set core ps = add_ranks core ps ps.ranks ps.mpi_comm

abbrev pub is_some : Option ℕ → Bool
is_some none = false
is_some (some i) = true

abbrev pub remove_id : (ℕ → Option ℕ) → ProcessSet → Option ℕ → ProcessSet × Bool
remove_id core ps none = (ps, false)
remove_id core ps (some zero) = (ps, false)
remove_id core ps (some (suc i)) = (invalidate ps, is_some (core (suc i)))

-- `core` is `_remove_process_set_impl`. The object is invalidated whatever the core answers.
unfoldable pub remove_process_set : (ℕ → Option ℕ) → ProcessSet → ProcessSet × Bool
remove_process_set core ps = remove_id core ps ps.process_set_id
