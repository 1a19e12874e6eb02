-- ===== src/TorchElastic.antt =====
-- horovod/torch/elastic/state.py: TorchState, whose handlers save, restore and synchronise the
-- attributes that have a state of their own, and the synchronisation of the samplers of all workers.
-- Objects stand in a memory and are known by their numbers, so that a state dictionary can refer to
-- what the training changes in place, and a deep copy cannot. The registry of handlers is the one of
-- the file. An attribute with a handler is the value of the handler: the object is one and the same.
mod Frames
mod Each
mod Handlers
mod Saved
mod Union
mod World
mod Tests
use horovod.Common.{
  ℕ, suc, Option, none, some, List, [], ◌∷◌, ◌++◌, String, Bool, true, false, eqb, if◌then◌else◌,
  Key, host_key, rank_key,
}
use horovod.Common.Dict.{Dict, contains, lookup, insert, set_of}
use horovod.Elastic as Elastic
use horovod.Elastic.{State, Attrs, new_object_state}
use horovod.Sampler as Sampler
use horovod.Sampler.{ElasticSampler}

-- The state of a module or an optimizer is a number. A sampler refers to the set of its processed
-- indices; the field of ElasticSampler is not read here.
pub data Object : Type 0 where
  module_object optimizer_object plain_object : ℕ → Object
  set_object : List ℕ → Object
  sampler_object : ElasticSampler → ℕ → Object

pub record Memory : Type 0 where
  pub next : ℕ
  pub objects : ℕ → Object

abbrev pub write : ℕ → Object → Memory → Memory
write r o mem = record mem { objects = λ k. if eqb k r then o else mem.objects k }

abbrev pub alloc : Object → Memory → Memory
alloc o mem = record (write mem.next o mem) { next = suc mem.next }

-- value.state_dict(): `tensors_of` are the live tensors of an object, `frozen` are copies of tensors;
-- `progress` is the dictionary of a sampler, with its epoch and the set that it refers to.
pub data StateDict : Type 0 where
  tensors_of frozen : ℕ → StateDict
  progress : ℕ → ℕ → StateDict

pub data HandlerClass : Type 0 where
  model_state_handler optimizer_state_handler sampler_state_handler : HandlerClass

pub record StateHandler : Type 0 where
  pub handler_class : HandlerClass
  pub value : ℕ
  pub saved : StateDict

infixl 5 ◌>>=◌
abbrev pub ◌>>=◌ {ℓ κ} : {A : Type ℓ} {B : Type κ} → Option A → (A → Option B) → Option B
none >>= f = none
some a >>= f = f a

abbrev pub state_dict_of : ℕ → Object → Option StateDict
state_dict_of r (module_object n) = some (tensors_of r)
state_dict_of r (optimizer_object n) = some (tensors_of r)
state_dict_of r (sampler_object s set) = some (progress s.epoch set)
state_dict_of r (plain_object n) = none
state_dict_of r (set_object xs) = none

-- `none` is the AttributeError of an object without the method.
abbrev pub state_dict : Memory → ℕ → Option StateDict
state_dict mem r = state_dict_of r (mem.objects r)

abbrev pub tensors_at : Object → Option ℕ
tensors_at (module_object n) = some n
tensors_at (optimizer_object n) = some n
tensors_at (plain_object n) = none
tensors_at (set_object xs) = none
tensors_at (sampler_object s set) = none

abbrev pub set_at : Object → Option (List ℕ)
set_at (set_object xs) = some xs
set_at (module_object n) = none
set_at (optimizer_object n) = none
set_at (plain_object n) = none
set_at (sampler_object s set) = none

-- copy.deepcopy of a state dictionary
abbrev pub deepcopy : StateDict → Memory → Option (Memory × StateDict)
deepcopy (tensors_of r) mem = do n ← tensors_at (mem.objects r); some (mem, frozen n)
deepcopy (frozen n) mem = some (mem, frozen n)
deepcopy (progress epoch set) mem = do
  xs ← set_at (mem.objects set)
  some (alloc (set_object xs) mem, progress epoch mem.next)

abbrev pub tensors_in : StateDict → Memory → Option ℕ
tensors_in (tensors_of r) mem = tensors_at (mem.objects r)
tensors_in (frozen n) mem = some n
tensors_in (progress epoch set) mem = none

-- The first entry of the registry whose type fits.
abbrev pub get_handler : Object → Option HandlerClass
get_handler (module_object n) = some model_state_handler
get_handler (optimizer_object n) = some optimizer_state_handler
get_handler (sampler_object s set) = some sampler_state_handler
get_handler (plain_object n) = none
get_handler (set_object xs) = none

abbrev pub save_handler : StateHandler → Memory → Option (Memory × StateHandler)
save_handler h mem = do
  d ← state_dict mem h.value
  (copied, c) ← deepcopy d mem
  some (copied, record h { saved = c })

abbrev pub new_handler : HandlerClass → ℕ → Memory → Option (Memory × StateHandler)
new_handler c r mem =
    save_handler (record { handler_class = c; value = r; saved = tensors_of r }) mem

abbrev pub set_value : ℕ → StateHandler → Memory → Option (Memory × StateHandler)
set_value r h mem = save_handler (record h { value = r }) mem

unfoldable pub save_handlers :
    Dict String StateHandler → Memory → Option (Memory × Dict String StateHandler)
save_handlers [] mem = some (mem, [])
save_handlers ((k, h) ∷ hs) mem = do
  (copied, saved) ← save_handler h mem
  (last, rest) ← save_handlers hs copied
  some (last, (k, saved) ∷ rest)

-- `load old new` is what load_state_dict of PyTorch makes of the tensors `old` when it is given `new`,
-- or `none` where it raises. The sampler asks for size and rank, and takes the set of the dictionary
-- itself, not a copy.
module _ (load : ℕ → ℕ → Option ℕ) (size rank : ℕ) where
  abbrev pub load_tensors : StateDict → ℕ → Memory → Option ℕ
  load_tensors d old mem = do new ← tensors_in d mem; load old new

  abbrev pub load_object : StateDict → Object → Memory → Option Object
  load_object d (module_object n) mem = do m ← load_tensors d n mem; some (module_object m)
  load_object d (optimizer_object n) mem = do m ← load_tensors d n mem; some (optimizer_object m)
  load_object (progress epoch set) (sampler_object s old) mem = do
    xs ← set_at (mem.objects set)
    some (sampler_object (Sampler.load_state_dict size rank (epoch, xs) s) set)
  load_object (tensors_of r) (sampler_object s old) mem = none
  load_object (frozen n) (sampler_object s old) mem = none
  load_object d (plain_object n) mem = none
  load_object d (set_object xs) mem = none

  -- value.load_state_dict(d)
  abbrev pub load_state_dict : StateDict → ℕ → Memory → Option Memory
  load_state_dict d r mem = do o ← load_object d (mem.objects r) mem; some (write r o mem)

  unfoldable pub restore_handlers : Dict String StateHandler → Memory → Option Memory
  restore_handlers [] mem = some mem
  restore_handlers ((k, h) ∷ hs) mem = do
    loaded ← load_state_dict h.saved h.value mem
    restore_handlers hs loaded

-- set().union(*sets)
unfoldable pub union : List (List ℕ) → List ℕ
union [] = []
union (s ∷ sets) = let rest = union sets in set_of (s ++ rest)

-- What a worker receives from rank 0: tensors, or the epoch and the indices of a sampler.
pub data Received : Type 0 where
  tensors : ℕ → Received
  sampler_state : ℕ → List ℕ → Received

-- What a handler broadcasts where its worker is the root; `gathered` are the processed indices of the
-- samplers of all workers.
abbrev pub offered : List (List ℕ) → Object → Option Received
offered gathered (sampler_object s set) = some (sampler_state s.epoch (union gathered))
offered gathered (module_object n) = some (tensors n)
offered gathered (optimizer_object n) = some (tensors n)
offered gathered (plain_object n) = none
offered gathered (set_object xs) = none

-- `sync` of a handler that receives `root`: the broadcast writes tensors in place, and makes a new set
-- for a sampler. The saved state stays as it was.
abbrev pub sync_object : ℕ → ℕ → Received → ℕ → Object → Memory → Option Memory
sync_object size rank (tensors n) r (module_object m) mem = some (write r (module_object n) mem)
sync_object size rank (tensors n) r (optimizer_object m) mem =
    some (write r (optimizer_object n) mem)
sync_object size rank (sampler_state epoch xs) r (sampler_object s old) mem =
    let o = sampler_object (Sampler.load_state_dict size rank (epoch, xs) s) mem.next in
    some (write r o (alloc (set_object xs) mem))
sync_object size rank root r o mem = none

-- The broadcasts follow each other in the order of the handlers.
unfoldable pub sync_handlers :
    ℕ → ℕ → List Received → Dict String StateHandler → Memory → Option Memory
sync_handlers size rank roots [] mem = some mem
sync_handlers size rank [] ((k, h) ∷ hs) mem = none
sync_handlers size rank (root ∷ roots) ((k, h) ∷ hs) mem = do
  synced ← sync_object size rank root h.value (mem.objects h.value) mem
  sync_handlers size rank roots hs synced

-- `object` is what ObjectState keeps of it; its attributes refer to objects of the memory too.
pub record TorchState : Type 0 where
  pub handlers : Dict String StateHandler
  pub object : State

abbrev maybe_handler : ℕ → Option HandlerClass → Memory → Option (Memory × Option StateHandler)
maybe_handler r none mem = some (mem, none)
maybe_handler r (some c) mem = do (copied, h) ← new_handler c r mem; some (copied, some h)

abbrev with_handler :
    String
    → ℕ
    → Option StateHandler
    → Memory × Dict String StateHandler × Attrs
    → Memory × Dict String StateHandler × Attrs
with_handler k r none (mem, handlers, remainder) = (mem, handlers, (k, r) ∷ remainder)
with_handler k r (some h) (mem, handlers, remainder) = (mem, (k, h) ∷ handlers, remainder)

-- What has a handler, and the rest.
unfoldable pub get_handlers :
    Dict String ℕ → Memory → Option (Memory × Dict String StateHandler × Attrs)
get_handlers [] mem = some (mem, [], [])
get_handlers ((k, r) ∷ kwargs) mem = do
  (copied, h) ← maybe_handler r (get_handler (mem.objects r)) mem
  rest ← get_handlers kwargs copied
  some (with_handler k r h rest)

-- `kwargs` with `model` and `optimizer`.
unfoldable pub new_torch_state : Dict String ℕ → Memory → Option (Memory × TorchState)
new_torch_state kwargs mem = do
  (copied, handlers, remainder) ← get_handlers kwargs mem
  some (copied, record { handlers = handlers; object = new_object_state remainder })

unfoldable pub save : TorchState → Memory → Option (Memory × TorchState)
save s mem = do
  (copied, handlers) ← save_handlers s.handlers mem
  object ← Elastic.save s.object
  some (copied, record { handlers = handlers; object = object })

unfoldable pub restore :
    (ℕ → ℕ → Option ℕ) → ℕ → ℕ → TorchState → Memory → Option (Memory × TorchState)
restore load size rank s mem = do
  loaded ← restore_handlers load size rank s.handlers mem
  some (loaded, record s { object = Elastic.restore s.object })

unfoldable pub sync :
    ℕ → ℕ → List Received → Attrs → TorchState → Memory → Option (Memory × TorchState)
sync size rank roots coordinator s mem = do
  synced ← sync_handlers size rank roots s.handlers mem
  some (synced, record s { object = Elastic.sync coordinator s.object })

-- `__setattr__` of an attribute that has a handler; KeyError, which cannot be, where it has none.
unfoldable pub set_attr : String → ℕ → TorchState → Memory → Option (Memory × TorchState)
set_attr name r s mem = do
  h ← lookup name s.handlers
  (copied, changed) ← set_value r h mem
  some (copied, record s { handlers = insert name changed s.handlers })
