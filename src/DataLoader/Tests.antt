-- ===== src/DataLoader/Tests.antt =====
-- Runs of the asynchronous data loader, and its theorems at a queue of one batch.
use horovod.Common.{
  ℕ, suc, ◌+◌, ◌≤◌, ◌<◌, ◌≡◌, ◌≢◌, refl, true, false, none, some, [], ◌∷◌, length, arith,
}
use horovod.DataLoader.{
  Pass, batch, nothing, putting, ended, Loader, yielded, new_loader, start, worker_step, worker_run,
  iter_step, iter_sync, tail, close,
}
use horovod.DataLoader.Close.{puts_left, close_ends, close_waits}

abbrev passes : ℕ → Pass ℕ ℕ
passes n = record { batches = 7 ∷ 8 ∷ []; raises = none }

abbrev plus_one : ℕ → ℕ
plus_one n = suc n

abbrev loader : ℕ → Loader ℕ ℕ
loader size = start (new_loader size)

-- Seven steps put two batches and the end of the first pass.
first_pass : (worker_run passes 7 (loader 4)).queue ≡ batch 7 ∷ batch 8 ∷ nothing ∷ []
unfolding worker_run worker_step start new_loader
first_pass = refl

-- The thread waits in a full queue.
full_queue : worker_run passes 9 (loader 1) ≡ worker_run passes 4 (loader 1)
unfolding worker_run worker_step start new_loader
full_queue = refl

without_thread : iter_sync plus_one (passes 0) ≡ (8 ∷ 9 ∷ [], none)
unfolding iter_sync
without_thread = refl

abbrev waiting : Loader ℕ ℕ
waiting = record {
  async_loader_queue_size = 1;
  finished_event = false;
  queue = batch 7 ∷ [];
  started = true;
  stage = putting 8 [] none;
  calls = 1;
}

abbrev taken : Loader ℕ ℕ
taken = record waiting { queue = [] }

it_waits : worker_run passes 4 (loader 1) ≡ waiting
unfolding worker_run worker_step start new_loader
it_waits = refl

took : iter_step plus_one waiting ≡ some (yielded 8, taken)
unfolding iter_step
took = refl

close_ends_example :
    (length (tail waiting.queue) + puts_left waiting.stage ≤ 1
      → (worker_run passes 5 (close waiting)).stage ≡ ended)
    × ((n : ℕ)
        → 1 < length (tail waiting.queue) + puts_left waiting.stage
        → (worker_run passes n (close waiting)).stage ≢ ended)
close_ends_example = close_ends passes waiting refl (omega arith) (omega arith)

waiting_never_ends : (worker_run passes 9 (close waiting)).stage ≢ ended
waiting_never_ends = close_waits passes waiting 8 [] none refl (omega arith) refl refl 9
