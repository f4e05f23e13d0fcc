-- ===== src/Core/Workers.antt =====
-- `task_loop` of src/core.c in several threads: the steps between which another thread may come.
use streem.Base.{Bool, true, false, List, [], ◌∷◌, ◌++◌, if◌then◌else◌, ◌==◌, ℕ, zero, suc}

-- Where a worker stands: before it asks `queue`, before it asks `prod_queue`, with a stream in hand, in
-- the loop over the stream's tasks, behind that loop, before it looks at `stream_count`, and out.
pub data Place : Type 0 where
  asking looking checking stopped : Place
  picked running leaving : ℕ → Place

-- The two queues, the flag `excl` and the number of tasks of each stream, `stream_count`, and the place
-- of each worker.
pub record Threads : Type 0 where
  pub queue : List ℕ
  pub prod_queue : List ℕ
  pub excl : ℕ → Bool
  pub waiting : ℕ → ℕ
  pub stream_count : ℕ
  pub place : ℕ → Place

-- What a task that is run does to the others: the streams that it adds tasks to, and `stream_count`
-- afterwards.
pub record Effect : Type 0 where
  pub pushes : List ℕ
  pub count : ℕ

module _ {A : Type 0} where
  -- A write at a number.
  abbrev pub write : (ℕ → A) → ℕ → A → ℕ → A
  write f a x b = if a == b then x else f b

module _ (producer : ℕ → Bool) where
  -- `strm_task_add`
  abbrev pub pushed : Threads → ℕ → Threads
  pushed w s =
      let added : Threads = record w { waiting = write w.waiting s (suc (w.waiting s)) } in
      if producer s
      then record added { prod_queue = w.prod_queue ++ (s ∷ []) }
      else record added { queue = w.queue ++ (s ∷ []) }

  abbrev pub add_tasks : Threads → List ℕ → Threads
  add_tasks w [] = w
  add_tasks w (s ∷ ss) = add_tasks (pushed w s) ss

  abbrev pub goes : Threads → ℕ → Place → Threads
  goes w u p = record w { place = write w.place u p }

  -- The next step of the worker u, which is in the loop of a stream's tasks.
  abbrev pub run_step : Threads → ℕ → ℕ → ℕ → Effect → Threads
  run_step w u s zero e = goes w u (leaving s)
  run_step w u s (suc n) e =
      record (add_tasks (record w { waiting = write w.waiting s n }) e.pushes) {
        stream_count = e.count;
      }

  -- The next step of the worker u, by its place.
  unfoldable pub step : Threads → ℕ → Place → Effect → Threads
  step w u asking e = elim w.queue [
    | [] ↦ goes w u looking
    | s ∷ q ↦ goes (record w { queue = q }) u (picked s)
  ]
  step w u looking e = elim w.prod_queue [
    | [] ↦ goes w u checking
    | s ∷ q ↦ goes (record w { prod_queue = q }) u (picked s)
  ]
  step w u (picked s) e =
      if w.excl s
      then goes w u checking
      else goes (record w { excl = write w.excl s true }) u (running s)
  step w u (running s) e = run_step w u s (w.waiting s) e
  step w u (leaving s) e = goes (record w { excl = write w.excl s false }) u checking
  step w u checking e = goes w u (if w.stream_count == 0 then stopped else asking)
  step w u stopped e = w

  -- An interleaving: the workers in the order of their steps.
  unfoldable pub interleave : Threads → List (ℕ × Effect) → Threads
  unfolding step
  interleave w [] = w
  interleave w ((u, e) ∷ es) = interleave (step w u (w.place u) e) es
