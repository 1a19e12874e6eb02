-- ===== src/DataLoader/Close.antt =====
-- horovod/data/data_loader_base.py: whether the thread of a loader that is closed comes to its end.
use horovod.Common.{
  ℕ, zero, suc, ◌+◌, ◌≤◌, ◌<◌, ◌≡◌, ◌≢◌, refl, sym, ap, ◌∙◌, true, ◌&&◌, Option, none, some, List,
  [], ◌∷◌, ◌++◌, length, length-append, ltb, lt→ltb, ltb→lt, ltb→ge, arith, Bool-cases,
  Option-cases, inl, inr,
}
use horovod.DataLoader.{
  Pass, Item, batch, failure, nothing, Stage, at_loop, looping, putting, pass_over, failing, failed,
  ending, ended, Loader, step_at, worker_step, worker_run, put, move, next_pass, tail, close,
}
use horovod.DataLoader.Stream.{some_subst, if_some, if_true}

module _ {ℓ κ} {A : Type ℓ} {E : Type κ} where
  -- How many items the thread puts after the loop of a pass that it leaves before the next batch.
  abbrev pub puts_leaving : List A → Option E → ℕ
  puts_leaving [] (some e) = 3
  puts_leaving [] none = 2
  puts_leaving (b ∷ bs) e = 2

  -- How many items the thread of a closed loader has yet to put until its end.
  abbrev pub puts_left : Stage A E → ℕ
  puts_left at_loop = 1
  puts_left (looping bs e) = puts_leaving bs e
  puts_left (putting b bs e) = suc (puts_leaving bs e)
  puts_left pass_over = 2
  puts_left (failing e) = 3
  puts_left failed = 2
  puts_left ending = 1
  puts_left ended = 0

  -- How many steps it is from its end at most.
  abbrev pub steps_left : Stage A E → ℕ
  steps_left at_loop = 2
  steps_left (looping bs e) = 4
  steps_left (putting b bs e) = 5
  steps_left pass_over = 3
  steps_left (failing e) = 3
  steps_left failed = 2
  steps_left ending = 1
  steps_left ended = 0

  abbrev pub load : Loader A E → ℕ
  load l = length l.queue + puts_left l.stage

  abbrev Continues : Loader A E → Loader A E → Type 0
  Continues l t =
      (t.finished_event ≡ l.finished_event)
      × (t.started ≡ l.started)
      × (t.async_loader_queue_size ≡ l.async_loader_queue_size)
      × (load t ≡ load l)
      × (length t.queue ≤ t.async_loader_queue_size)
      × (steps_left t.stage < steps_left l.stage)

  module _ (passes : ℕ → Pass A E) where
    put-Continues :
        (i : Item A E) (s : Stage A E) (l t : Loader A E)
        → puts_left l.stage ≡ suc (puts_left s)
        → steps_left s < steps_left l.stage
        → put i s l ≡ some t
        → Continues l t
    put-Continues i s l t puts steps step =
        let (room, made) =
          if_some (ltb (length l.queue) l.async_loader_queue_size)
            (some (record l { queue = l.queue ++ i ∷ []; stage = s })) step in
        let size = length-append l.queue (i ∷ []) in
        some_subst (Continues l)
          (
            refl,
            refl,
            refl,
            omega (arith, size, puts),
            omega (arith, size, ltb→lt (length l.queue) l.async_loader_queue_size room),
            steps,
          )
          made

    move-Continues :
        (s : Stage A E) (l t : Loader A E)
        → length l.queue ≤ l.async_loader_queue_size
        → puts_left l.stage ≡ puts_left s
        → steps_left s < steps_left l.stage
        → move s l ≡ some t
        → Continues l t
    move-Continues s l t ok puts steps step =
        some_subst (Continues l) (refl, refl, refl, omega (arith, puts), ok, steps) step

    -- `f at` turns a fact of the stage into one of the loader's stage.
    abbrev later :
        (s : Stage A E) (l : Loader A E) (n : ℕ)
        → l.stage ≡ s
        → n < steps_left s
        → n < steps_left l.stage
    later s l n at h = omega (arith, ap steps_left at, h)

    step-Continues :
        (s : Stage A E) (l t : Loader A E)
        → l.stage ≡ s
        → l.finished_event ≡ true
        → length l.queue ≤ l.async_loader_queue_size
        → step_at passes s l ≡ some t
        → Continues l t
    step-Continues at_loop l t at fin ok step =
        move-Continues ending l t ok (ap puts_left at) (later at_loop l 1 at (omega arith))
          (sym (if_true l.finished_event (move ending l) (some (next_pass passes l)) fin) ∙ step)
    step-Continues (looping [] none) l t at fin ok step =
        move-Continues pass_over l t ok (ap puts_left at)
          (later (looping [] none) l 3 at (omega arith)) step
    step-Continues (looping [] (some e)) l t at fin ok step =
        move-Continues (failing e) l t ok (ap puts_left at)
          (later (looping [] (some e)) l 3 at (omega arith)) step
    step-Continues (looping (b ∷ bs) e) l t at fin ok step =
        move-Continues pass_over l t ok (ap puts_left at)
          (later (looping (b ∷ bs) e) l 3 at (omega arith))
          (sym (if_true l.finished_event (move pass_over l) (move (putting b bs e) l) fin) ∙ step)
    step-Continues (putting b bs e) l t at fin ok step =
        put-Continues (batch b) (looping bs e) l t (ap puts_left at)
          (later (putting b bs e) l 4 at (omega arith)) step
    step-Continues pass_over l t at fin ok step =
        put-Continues nothing at_loop l t (ap puts_left at) (later pass_over l 2 at (omega arith))
          step
    step-Continues (failing e) l t at fin ok step =
        put-Continues (failure e) failed l t (ap puts_left at)
          (later (failing e) l 2 at (omega arith)) step
    step-Continues failed l t at fin ok step =
        put-Continues nothing ending l t (ap puts_left at) (later failed l 1 at (omega arith)) step
    step-Continues ending l t at fin ok step =
        put-Continues nothing ended l t (ap puts_left at) (later ending l 0 at (omega arith)) step
    step-Continues ended l t at fin ok step = cc

    put_waits :
        (i : Item A E) (s : Stage A E) (l : Loader A E)
        → put i s l ≡ none
        → l.async_loader_queue_size ≤ length l.queue
    put_waits i s l waits = elim (Bool-cases (ltb (length l.queue) l.async_loader_queue_size)) [
      | inl room ↦
          (let made =
              if_true (ltb (length l.queue) l.async_loader_queue_size)
                (some (record l { queue = l.queue ++ i ∷ []; stage = s })) none room in
            let never : some (record l { queue = l.queue ++ i ∷ []; stage = s }) ≡ none =
              sym made ∙ waits in
            cc)
      | inr full ↦ ltb→ge (length l.queue) l.async_loader_queue_size full
    ]

    -- With room for all that is left to put only the end has no next step.
    step_none :
        (s : Stage A E) (l : Loader A E)
        → length l.queue + puts_left s ≤ l.async_loader_queue_size
        → step_at passes s l ≡ none
        → s ≡ ended
    step_none at_loop l room waits = ground arith
    step_none (looping [] none) l room waits = cc
    step_none (looping [] (some e)) l room waits = cc
    step_none (looping (b ∷ bs) e) l room waits = ground arith
    step_none (putting b bs e) l room waits =
        ground (arith, put_waits (batch b) (looping bs e) l waits, room)
    step_none pass_over l room waits = ground (arith, put_waits nothing at_loop l waits, room)
    step_none (failing e) l room waits = ground (arith, put_waits (failure e) failed l waits, room)
    step_none failed l room waits = ground (arith, put_waits nothing ending l waits, room)
    step_none ending l room waits = ground (arith, put_waits nothing ended l waits, room)
    step_none ended l room waits = refl

    no_steps : (s : Stage A E) → steps_left s ≤ 0 → s ≡ ended
    no_steps s h = ground arith

    worker_run-none :
        (n : ℕ) (l : Loader A E) → worker_step passes l ≡ none → worker_run passes (suc n) l ≡ l
    unfolding worker_run
    worker_run-none n l e = ap (λ o. elim o [ none ↦ l | some t ↦ worker_run passes n t ]) e

    worker_run-some :
        (n : ℕ) (l t : Loader A E)
        → worker_step passes l ≡ some t
        → worker_run passes (suc n) l ≡ worker_run passes n t
    unfolding worker_run
    worker_run-some n l t e = ap (λ o. elim o [ none ↦ l | some t ↦ worker_run passes n t ]) e

    worker_run_ends :
        (n : ℕ) (l : Loader A E)
        → steps_left l.stage ≤ n
        → l.finished_event ≡ true
        → l.started ≡ true
        → length l.queue ≤ l.async_loader_queue_size
        → load l ≤ l.async_loader_queue_size
        → (worker_run passes n l).stage ≡ ended
    unfolding worker_run worker_step
    worker_run_ends zero l steps fin on ok room = no_steps l.stage steps
    worker_run_ends (suc n) l steps fin on ok room =
        let at = if_true l.started (step_at passes l.stage l) none on in
        elim (Option-cases (worker_step passes l)) [
          | inl waits ↦
              ap (λ r. r.stage) (worker_run-none n l waits)
              ∙ step_none l.stage l room (sym at ∙ waits)
          | inr (t, step) ↦
              (let (fin', on', size, left, ok', fewer) =
                  step-Continues l.stage l t refl fin ok (sym at ∙ step) in
                ap (λ r. r.stage) (worker_run-some n l t step)
                ∙ worker_run_ends n t (omega (arith, steps, fewer)) (fin' ∙ fin) (on' ∙ on) ok'
                    (omega (arith, room, left, size)))
        ]

    ended-worker_run :
        (n : ℕ) (l : Loader A E)
        → l.finished_event ≡ true
        → l.started ≡ true
        → length l.queue ≤ l.async_loader_queue_size
        → (worker_run passes n l).stage ≡ ended
        → load l ≤ l.async_loader_queue_size
    unfolding worker_run worker_step
    ended-worker_run zero l fin on ok end = omega (arith, ap puts_left end, ok)
    ended-worker_run (suc n) l fin on ok end =
        let at = if_true l.started (step_at passes l.stage l) none on in
        elim (Option-cases (worker_step passes l)) [
          | inl waits ↦
              (let here : l.stage ≡ ended =
                  sym (ap (λ r. r.stage) (worker_run-none n l waits)) ∙ end in
                omega (arith, ap puts_left here, ok))
          | inr (t, step) ↦
              (let (fin', on', size, left, ok', fewer) =
                  step-Continues l.stage l t refl fin ok (sym at ∙ step) in
                let rest =
                  ended-worker_run n t (fin' ∙ fin) (on' ∙ on) ok'
                    (sym (ap (λ r. r.stage) (worker_run-some n l t step)) ∙ end) in
                omega (arith, rest, left, size))
        ]

    leaving : (bs : List A) (e : Option E) → 2 ≤ puts_leaving bs e
    leaving bs e = ground arith

    one_more : (is : List (Item A E)) → length is ≤ suc (length (tail is))
    one_more [] = omega arith
    one_more (i ∷ is) = omega arith

    puts_putting :
        (l : Loader A E) (b : A) (bs : List A) (e : Option E)
        → l.stage ≡ putting b bs e
        → 3 ≤ puts_left l.stage
    puts_putting l b bs e at = omega (arith, ap puts_left at, leaving bs e)

    most_steps : (s : Stage A E) → steps_left s ≤ 5
    most_steps s = ground arith

    length-tail : (is : List (Item A E)) → length (tail is) ≤ length is
    length-tail [] = omega arith
    length-tail (i ∷ is) = omega arith

    -- What is closed is a started loader with a thread, whose queue has no more items than its size.
    -- If the queue, less the item that is taken from it, has room for what the thread has yet to put,
    -- the thread ends within five steps and the join returns; if not, it never ends.
    pub close_ends :
        (l : Loader A E)
        → l.started ≡ true
        → 0 < l.async_loader_queue_size
        → length l.queue ≤ l.async_loader_queue_size
        → (length (tail l.queue) + puts_left l.stage ≤ l.async_loader_queue_size
            → (worker_run passes 5 (close l)).stage ≡ ended)
          × ((n : ℕ)
              → l.async_loader_queue_size < length (tail l.queue) + puts_left l.stage
              → (worker_run passes n (close l)).stage ≢ ended)
    unfolding close
    close_ends l on some_size ok =
        let c = record l { finished_event = true; queue = tail l.queue } in
        let e : close l ≡ c =
          if_true (ltb 0 l.async_loader_queue_size && l.started) c l
            (ground (arith, lt→ltb 0 l.async_loader_queue_size some_size, on)) in
        let less : length (tail l.queue) ≤ l.async_loader_queue_size =
          omega (arith, length-tail l.queue, ok) in
        (
          λ room.
              ap (λ d. (worker_run passes 5 d).stage) e
              ∙ worker_run_ends 5 c (most_steps l.stage) refl on less room,
          λ n full end.
              (let fits =
                  ended-worker_run n c refl on less
                    (sym (ap (λ d. (worker_run passes n d).stage) e) ∙ end) in
                omega (arith, fits, full)),
        )

    -- A loader that is closed while its thread waits to put a batch into the full queue: the thread
    -- never ends, so the join never returns.
    pub close_waits :
        (l : Loader A E) (b : A) (bs : List A) (e : Option E)
        → l.started ≡ true
        → 0 < l.async_loader_queue_size
        → length l.queue ≡ l.async_loader_queue_size
        → l.stage ≡ putting b bs e
        → (n : ℕ) → (worker_run passes n (close l)).stage ≢ ended
    close_waits l b bs e on some_size full at n =
        (close_ends l on some_size (omega (arith, full))).1 n
          (omega (arith, one_more l.queue, puts_putting l b bs e at, full, some_size))
