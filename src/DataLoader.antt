-- ===== src/DataLoader.antt =====
-- horovod/data/data_loader_base.py: AsyncDataLoaderMixin, a thread that loads batches into a queue of
-- bounded size, and the iteration that takes them from it.
pub mod Stream
pub mod Close
mod Tests
use horovod.Common.{
  ℕ, zero, suc, ◌+◌, Bool, true, false, Option, none, some, List, [], ◌∷◌, ◌++◌, ◌&&◌, length, map,
  ltb, if◌then◌else◌,
}

-- What a call of `_iterate` yields, and the exception that it raises behind, if any.
pub record Pass {ℓ κ} (A : Type ℓ) (E : Type κ) : Type (ℓ ⊔ κ) where
  pub batches : List A
  pub raises : Option E

-- What stands in the queue; `nothing` is None.
pub data Item {ℓ κ} (A : Type ℓ) (E : Type κ) : Type (ℓ ⊔ κ) where
  batch : A → Item A E
  failure : E → Item A E
  nothing : Item A E

-- Where the thread stands in `_async_worker`: at the test of the outer loop, in the inner loop before
-- the next batch, or before one of the calls of `put`.
pub data Stage {ℓ κ} (A : Type ℓ) (E : Type κ) : Type (ℓ ⊔ κ) where
  at_loop : Stage A E
  looping : List A → Option E → Stage A E
  putting : A → List A → Option E → Stage A E
  pass_over : Stage A E
  failing : E → Stage A E
  failed : Stage A E
  ending : Stage A E
  ended : Stage A E

pub record Loader {ℓ κ} (A : Type ℓ) (E : Type κ) : Type (ℓ ⊔ κ) where
  pub async_loader_queue_size : ℕ
  pub finished_event : Bool
  pub queue : List (Item A E)
  pub started : Bool
  pub stage : Stage A E
  pub calls : ℕ

-- What the iteration does with an item.
pub data Next {ℓ κ} (A : Type ℓ) (E : Type κ) : Type (ℓ ⊔ κ) where
  yielded : A → Next A E
  raised : E → Next A E
  stopped : Next A E

module _ {ℓ κ} {A : Type ℓ} {E : Type κ} where
  unfoldable pub new_loader : ℕ → Loader A E
  new_loader size = record {
    async_loader_queue_size = size;
    finished_event = false;
    queue = [];
    started = false;
    stage = at_loop;
    calls = 0;
  }

  -- queue.put, which waits in a full queue: `none`.
  abbrev pub put : Item A E → Stage A E → Loader A E → Option (Loader A E)
  put i next l =
      if ltb (length l.queue) l.async_loader_queue_size
      then some (record l { queue = l.queue ++ i ∷ []; stage = next })
      else none

  abbrev pub move : Stage A E → Loader A E → Option (Loader A E)
  move next l = some (record l { stage = next })

  -- `passes` are the calls of `_iterate`, in their order.
  module _ (passes : ℕ → Pass A E) where
    abbrev pub next_pass : Loader A E → Loader A E
    next_pass l = record l {
      stage = looping (passes l.calls).batches (passes l.calls).raises;
      calls = suc l.calls;
    }

    abbrev pub step_at : Stage A E → Loader A E → Option (Loader A E)
    step_at at_loop l = if l.finished_event then move ending l else some (next_pass l)
    step_at (looping [] none) l = move pass_over l
    step_at (looping [] (some e)) l = move (failing e) l
    step_at (looping (b ∷ bs) e) l =
        if l.finished_event then move pass_over l else move (putting b bs e) l
    step_at (putting b bs e) l = put (batch b) (looping bs e) l
    step_at pass_over l = put nothing at_loop l
    step_at (failing e) l = put (failure e) failed l
    step_at failed l = put nothing ending l
    step_at ending l = put nothing ended l
    step_at ended l = none

    -- The next step of the thread; `none` where it has not been started, waits or has ended.
    unfoldable pub worker_step : Loader A E → Option (Loader A E)
    worker_step l = if l.started then step_at l.stage l else none

    -- The thread alone, for as many steps, or until it waits.
    unfoldable pub worker_run : ℕ → Loader A E → Loader A E
    worker_run zero l = l
    worker_run (suc n) l = elim (worker_step l) [ none ↦ l | some t ↦ worker_run n t ]

  -- thread.start(), in the first iteration
  unfoldable pub start : Loader A E → Loader A E
  start l = record l { started = true }

  -- queue.get, which waits in an empty queue: `none`.
  abbrev pub get : Loader A E → Option (Item A E × Loader A E)
  get l = elim l.queue [ [] ↦ none | i ∷ is ↦ some (i, record l { queue = is }) ]

  abbrev pub next : (A → A) → Item A E → Next A E
  next process (batch b) = yielded (process b)
  next process (failure e) = raised e
  next process nothing = stopped

  -- One turn of the loop in `__iter__`.
  unfoldable pub iter_step : (A → A) → Loader A E → Option (Next A E × Loader A E)
  iter_step process l = elim (get l) [ none ↦ none | some (i, t) ↦ some (next process i, t) ]

  -- The iteration without a thread, of a loader with size 0.
  unfoldable pub iter_sync : (A → A) → Pass A E → List A × Option E
  iter_sync process p = (map process p.batches, p.raises)

  abbrev pub tail : List (Item A E) → List (Item A E)
  tail [] = []
  tail (i ∷ is) = is

  -- `_close_async_loader` up to thread.join(), which waits until the thread has ended.
  unfoldable pub close : Loader A E → Loader A E
  close l =
      if ltb 0 l.async_loader_queue_size && l.started
      then record l { finished_event = true; queue = tail l.queue }
      else l
