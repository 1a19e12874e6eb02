-- ===== src/Elastic.antt =====
-- horovod/common/elastic.py: the state of a worker, and the loop that runs its training function.
-- What the coordinator broadcasts is an argument of the methods that receive it.
pub mod Updates
pub mod Commit
pub mod Run
mod Tests
use horovod.Common.{
  ℕ, String, Bool, true, false, not, Option, none, some, List, [], ◌∷◌, ◌++◌, ltb, if◌then◌else◌,
  Key, host_key,
}
use horovod.Common.Dict.{Dict, keys, lookup, insert}
use horovod.Worker.Update.{HostUpdateResult, no_update, removed, ◌∪◌, same_update}

-- The objects that attributes refer to, by their numbers. A save keeps the references and copies
-- nothing: an object that is changed in place is the same object, with its new contents, after a
-- restore.
abbrev pub Attrs : Type 0
Attrs = Dict String ℕ

-- `saved_state` is of ObjectState; `attrs` are the attributes of the object that it names, and those
-- that the program adds. A callback may change the attributes.
pub record State : Type 0 where
  pub attrs : Attrs
  pub saved_state : Attrs
  pub host_messages : List (ℕ × HostUpdateResult)
  pub last_updated_timestamp : ℕ
  pub reset_callbacks : List (Attrs → Attrs)

-- for attr, value in self._saved_state.items(): setattr(self, attr, value)
unfoldable pub set_attrs : Attrs → Attrs → Attrs
set_attrs [] attrs = attrs
set_attrs ((k, v) ∷ saved) attrs = set_attrs saved (insert k v attrs)

unfoldable pub new_object_state : Attrs → State
new_object_state kwargs = record {
  attrs = set_attrs kwargs [];
  saved_state = kwargs;
  host_messages = [];
  last_updated_timestamp = 0;
  reset_callbacks = [];
}

unfoldable pub register_reset_callbacks : List (Attrs → Attrs) → State → State
register_reset_callbacks callbacks s = record s { reset_callbacks = s.reset_callbacks ++ callbacks }

unfoldable pub run_callbacks : List (Attrs → Attrs) → Attrs → Attrs
run_callbacks [] attrs = attrs
run_callbacks (callback ∷ callbacks) attrs = run_callbacks callbacks (callback attrs)

-- `reset()` of this class does nothing.
unfoldable pub on_reset : State → State
on_reset s = record s { host_messages = []; attrs = run_callbacks s.reset_callbacks s.attrs }

unfoldable pub on_hosts_updated : ℕ → HostUpdateResult → State → State
on_hosts_updated timestamp kind s = record s {
  host_messages = s.host_messages ++ (timestamp, kind) ∷ [];
}

-- The loop of `check_host_updates` over the queue.
unfoldable pub drain : List (ℕ × HostUpdateResult) → ℕ → HostUpdateResult → ℕ × HostUpdateResult
drain [] last all = (last, all)
drain ((timestamp, kind) ∷ messages) last all =
    if ltb last timestamp then drain messages timestamp (all ∪ kind) else drain messages last all

-- The three values that a worker gives to the broadcast.
pub record Proposal : Type 0 where
  pub prev_timestamp : ℕ
  pub last_updated_timestamp : ℕ
  pub all_update : HostUpdateResult

unfoldable pub proposal : State → Proposal
proposal s =
    let (last, all) = drain s.host_messages s.last_updated_timestamp no_update in
    record {
      prev_timestamp = s.last_updated_timestamp;
      last_updated_timestamp = last;
      all_update = all;
    }

-- HostsUpdatedInterrupt(skip_sync), if it is raised. `coordinator` is what rank 0 has broadcast.
unfoldable pub check_host_updates : Proposal → State → State × Option Bool
check_host_updates coordinator s = (
  record s { host_messages = []; last_updated_timestamp = coordinator.last_updated_timestamp },
  if ltb coordinator.prev_timestamp coordinator.last_updated_timestamp
      then some (same_update coordinator.all_update removed)
      else none,
)

-- `none` is the AttributeError of a deleted attribute.
unfoldable pub read_attrs : List String → Attrs → Option Attrs
read_attrs [] attrs = some []
read_attrs (k ∷ ks) attrs =
    let rest = read_attrs ks attrs in
    elim (lookup k attrs) [
      | none ↦ none
      | some v ↦ elim rest [ none ↦ none | some saved ↦ some ((k, v) ∷ saved) ]
    ]

unfoldable pub save : State → Option State
save s = elim (read_attrs (keys s.saved_state) s.attrs) [
  | none ↦ none
  | some new_state ↦ some (record s { saved_state = new_state })
]

unfoldable pub commit : Proposal → State → Option (State × Option Bool)
commit coordinator s = elim (save s) [
  | none ↦ none
  | some t ↦ some (check_host_updates coordinator t)
]

unfoldable pub restore : State → State
restore s = record s { attrs = set_attrs s.saved_state s.attrs }

-- A state with nothing saved takes no part in the broadcast.
abbrev pub sync_with : Attrs → Attrs → State → State
sync_with coordinator [] s = s
sync_with coordinator (e ∷ saved) s = record s {
  saved_state = coordinator;
  attrs = set_attrs coordinator s.attrs;
}

unfoldable pub sync : Attrs → State → State
sync coordinator s = sync_with coordinator s.saved_state s

pub data Raised : Type 0 where
  internal_error : Raised
  hosts_updated : Bool → Raised
  other_error : Raised

-- One turn of the loop of `run_fn`: what the coordinator broadcasts, how `sync` fails, if it does,
-- what the function does to the state, and how it ends: `none` where it returns. The reset of the
-- communicator does not touch the state.
pub record Turn : Type 0 where
  pub coordinator : Attrs
  pub sync_raises : Option Raised
  pub work : State → State
  pub raises : Option Raised

pub data After : Type 0 where
  returned : State → After
  raised : State → After
  again : Bool → State → After

-- The handlers, and what follows them.
unfoldable pub handle : Raised → State → After
handle internal_error s = again false (on_reset (restore s))
handle (hosts_updated skip_sync) s = again skip_sync (on_reset s)
handle other_error s = raised s

abbrev pub after_call : Option Raised → State → After
after_call none s = returned s
after_call (some e) s = handle e s

-- The state in which the function is called, unless the synchronisation fails.
unfoldable pub entered : Bool → Turn → State → State
entered skip_sync t s = if skip_sync then s else sync t.coordinator s

abbrev pub after_sync : Option Raised → Turn → State → State → After
after_sync none t s u = after_call t.raises (t.work u)
after_sync (some e) t s u = handle e s

unfoldable pub turn : Bool → Turn → State → After
turn skip_sync t s =
    after_sync (if skip_sync then none else t.sync_raises) t s (entered skip_sync t s)

abbrev pub and_then : After → (Bool → State → Option After) → Option After
and_then (returned u) rest = some (returned u)
and_then (raised u) rest = some (raised u)
and_then (again skip_sync u) rest = rest skip_sync u

-- `none` where the function has not come to an end yet.
unfoldable pub run : Bool → State → List Turn → Option After
run skip_sync s [] = none
run skip_sync s (t ∷ turns) = and_then (turn skip_sync t s) (λ skip u. run skip u turns)
