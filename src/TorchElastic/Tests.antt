-- ===== src/TorchElastic/Tests.antt =====
-- Two workers over six indices, and the state of one of them.
use horovod.Common.{
  ℕ, ◌≡◌, ◌↔◌, refl, true, not, ◌&&◌, ltb, length, range_from, ◌≤◌, ◌+◌, eqb, Option, none, some,
  List, [], ◌∷◌, String, All, if◌then◌else◌, arith, host_key, rank_key,
}
use horovod.Common.Dict.{Dict, contains, set_of}
use horovod.Elastic.{Attrs, new_object_state}
use horovod.Sampler as Sampler
use horovod.Sampler.{ElasticSampler, new_sampler, reset, not_processed, record_indices}
use horovod.Sampler.Parts.{IsShuffling}
use horovod.TorchElastic.{
  Object, module_object, optimizer_object, plain_object, set_object, sampler_object, Memory, write,
  alloc, StateDict, frozen, progress, HandlerClass, TorchState, new_torch_state, get_handlers,
  restore_handlers, load_state_dict, state_dict, union, StateHandler, sampler_state_handler,
  model_state_handler, optimizer_state_handler,
}
use horovod.TorchElastic.Frames.{contents, sampler_state}
use horovod.TorchElastic.Union.{in_any, gathered, sync_samplers}
use horovod.TorchElastic.World.{IsLike, HandedOut, sync_samplers_cover}

abbrev in_order : ℕ → List ℕ → List ℕ
in_order seed xs = xs

in_order-IsShuffling : IsShuffling in_order
in_order-IsShuffling = record { count = λ seed xs. refl; same_items = λ seed x xs. refl }

abbrev first : ElasticSampler
first = record_indices (0 ∷ []) (new_sampler 6 true 0 2 0)

abbrev second : ElasticSampler
second = record_indices (3 ∷ []) (new_sampler 6 true 0 2 1)

alike : All (IsLike first) (second ∷ [])
unfolding new_sampler record_indices reset
alike = (record { same_data = refl; same_shuffle = refl; same_seed = refl }, tt)

abbrev unprocessed : List ℕ
unprocessed =
    not_processed (union (gathered (first ∷ second ∷ []))) (range_from 0 first.dataset_size)

four_left : 2 ≤ length unprocessed
unfolding not_processed union set_of contains new_sampler record_indices reset
four_left = omega arith

sync_samplers_cover_example :
    HandedOut in_order (sync_samplers (first ∷ second ∷ [])) 4
    ↔ ((ltb 4 first.dataset_size && not (in_any 4 (gathered (first ∷ second ∷ [])))) ≡ true)
sync_samplers_cover_example =
    sync_samplers_cover in_order in_order-IsShuffling first (second ∷ []) 4 alike four_left

-- The set of the sampler is the object 4, the first copy the object 5.
abbrev memory : Memory
memory = record {
  next = 5;
  objects = λ r.
      if eqb r 0
      then plain_object 5
      else if eqb r 1
      then sampler_object first 4
      else if eqb r 2
      then module_object 40
      else if eqb r 3
      then optimizer_object 50
      else set_object (0 ∷ []);
}

abbrev kwargs : Dict String ℕ
kwargs = ("batch", 0) ∷ ("sampler", 1) ∷ ("model", 2) ∷ ("optimizer", 3) ∷ []

abbrev handler : HandlerClass → ℕ → StateDict → StateHandler
handler c r d = record { handler_class = c; value = r; saved = d }

abbrev handled : Dict String StateHandler
handled =
    ("sampler", handler sampler_state_handler 1 (progress 0 5))
    ∷ ("model", handler model_state_handler 2 (frozen 40))
    ∷ ("optimizer", handler optimizer_state_handler 3 (frozen 50))
    ∷ []

abbrev state : TorchState
state = record { handlers = handled; object = new_object_state (("batch", 0) ∷ []) }

abbrev copied : Memory
copied = alloc (set_object (0 ∷ [])) memory

constructed : new_torch_state kwargs memory ≡ some (copied, state)
unfolding new_torch_state get_handlers new_sampler record_indices reset
constructed = refl

-- The training moves the model and the optimizer on, and processes the indices 1 and 0.
abbrev trained : ℕ → Object → Object
trained r (module_object n) = module_object (n + 1)
trained r (optimizer_object n) = optimizer_object (n + 1)
trained r (set_object xs) = set_object (1 ∷ xs)
trained r o = o

-- The tensors are taken as they are.
abbrev take_new : ℕ → ℕ → Option ℕ
take_new old new = some new

abbrev changed : Attrs
changed = ("batch", 9) ∷ []

-- The sampler takes the saved set itself at a restore: the index 2 that is processed after it is in
-- the saved state, so a second restore does not take it back.
abbrev saved_sampler : StateHandler
saved_sampler = handler sampler_state_handler 1 (progress 0 5)

abbrev restored : Option Memory
restored = load_state_dict take_new 2 1 saved_sampler.saved 1 copied

abbrev after_batch : Memory → Memory
after_batch mem = write 5 (set_object (0 ∷ 2 ∷ [])) mem

shared_set : (mem : Memory) × (restored ≡ some mem) × (state_dict mem 1 ≡ some saved_sampler.saved)
unfolding Sampler.load_state_dict reset
shared_set = (_, refl, refl)

twice_restored :
    elim (restore_handlers take_new 2 1 (("sampler", saved_sampler) ∷ []) copied) [
      | none ↦ none
      | some mem ↦
          elim (restore_handlers take_new 2 1 (("sampler", saved_sampler) ∷ []) (after_batch mem)) [
            | none ↦ none
            | some last ↦ contents last 1
          ]
    ]
    ≡ some (sampler_state 0 (0 ∷ 2 ∷ []))
unfolding restore_handlers Sampler.load_state_dict reset
twice_restored = refl
