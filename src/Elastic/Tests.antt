-- ===== src/Elastic/Tests.antt =====
-- Runs of the elastic loop, and its theorems at a state with a counter.
use horovod.Common.{◌≡◌, refl, true, false, not, ◌&&◌, none, some, [], ◌∷◌, if◌then◌else◌, host_key}
use horovod.Common.Dict.{lookup, insert, keys, contains, Nodup}
use horovod.Worker.Update.{removed, added, has_removed, has_added, ◌∪◌}
use horovod.Elastic.{
  Attrs, State, new_object_state, set_attrs, on_hosts_updated, register_reset_callbacks,
  run_callbacks, on_reset, drain, proposal, check_host_updates, read_attrs, save, commit, restore,
  sync, Turn, internal_error, hosts_updated, other_error, returned, raised, again, handle, entered,
  turn, run,
}
use horovod.Elastic.Updates.{any_new, new_with, check_host_updates-interrupts}
use horovod.Elastic.Commit.{first_of, AllPresent, restore-save}
use horovod.Elastic.Run.{internal_error-entered}

abbrev fresh : State
fresh = new_object_state (("batch", 0) ∷ ("epoch", 3) ∷ [])

abbrev counted : State
counted = record fresh { attrs = ("batch", 5) ∷ ("epoch", 3) ∷ [] }

abbrev later : Attrs
later = ("batch", 7) ∷ []

abbrev no_attrs : Attrs
no_attrs = []

abbrev told : State
told = on_hosts_updated 12 removed (
    on_hosts_updated 11 removed
      (on_hosts_updated 10 added (record fresh { last_updated_timestamp = 10 })))

interrupted : (check_host_updates (proposal told) fresh).1 ≡ some true
unfolding check_host_updates proposal drain on_hosts_updated new_object_state ◌∪◌
interrupted = refl

committed :
    commit (proposal fresh) counted
    ≡ some (record counted { saved_state = ("batch", 5) ∷ ("epoch", 3) ∷ [] }, none)
unfolding commit save read_attrs lookup check_host_updates proposal drain new_object_state set_attrs
    insert
committed = refl

called_back :
    (on_reset (register_reset_callbacks ((λ a. insert "lr" 1 a) ∷ []) fresh)).attrs
    ≡ ("batch", 0) ∷ ("epoch", 3) ∷ ("lr", 1) ∷ []
unfolding on_reset register_reset_callbacks run_callbacks new_object_state set_attrs insert
called_back = refl

abbrev count_batch : State → State
count_batch s = record s { attrs = insert "batch" 9 s.attrs }

abbrev zero : Attrs
zero = ("batch", 0) ∷ ("epoch", 3) ∷ []

abbrev fails : Turn
fails = record {
  coordinator = zero;
  sync_raises = none;
  work = count_batch;
  raises = some internal_error;
}

abbrev grows : Turn
grows = record {
  coordinator = zero;
  sync_raises = none;
  work = count_batch;
  raises = some (hosts_updated true);
}

abbrev ends : Turn
ends = record { coordinator = zero; sync_raises = none; work = λ s. s; raises = none }

skipped : run false fresh (grows ∷ ends ∷ []) ≡ some (returned (count_batch fresh))
unfolding run turn entered sync handle on_reset run_callbacks new_object_state set_attrs insert
skipped = refl

gave_up : run false fresh (record ends { raises = some other_error } ∷ []) ≡ some (raised fresh)
unfolding run turn entered sync handle new_object_state set_attrs insert
gave_up = refl

check_host_updates-interrupts_example : (check_host_updates (proposal told) fresh).1 ≡ (
    if any_new told.last_updated_timestamp told.host_messages
    then some (
        new_with has_removed told.last_updated_timestamp told.host_messages
        && not (new_with has_added told.last_updated_timestamp told.host_messages))
    else none)
check_host_updates-interrupts_example = check_host_updates-interrupts told fresh

fresh-Nodup : Nodup (keys fresh.saved_state)
unfolding contains new_object_state
fresh-Nodup = (refl, (refl, tt))

fresh-AllPresent : AllPresent (keys counted.saved_state) counted.attrs
unfolding lookup new_object_state
fresh-AllPresent = ((λ e. cc), ((λ e. cc), tt))

restore-save_example :
    (t : State) × (save counted ≡ some t)
    × (lookup "batch" (restore (record t { attrs = later })).attrs ≡ (
        if contains "batch" (keys counted.saved_state)
        then lookup "batch" counted.attrs
        else lookup "batch" later))
restore-save_example = restore-save counted later "batch" fresh-Nodup fresh-AllPresent

zero-Nodup : Nodup (keys zero)
unfolding contains
zero-Nodup = (refl, (refl, tt))

internal_error-entered_example :
    (u : State) × (turn true fails counted ≡ again false u)
    × (lookup "batch" (entered false ends u).attrs
        ≡ first_of (lookup "batch" ends.coordinator) (lookup "batch" u.attrs))
unfolding entered new_object_state
internal_error-entered_example =
    internal_error-entered true fails ends counted "batch" refl refl refl zero-Nodup
