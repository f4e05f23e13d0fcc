-- ===== src/Core.antt =====
-- src/core.c: streams, their tasks, and the two queues that the workers serve.
--
-- A stream is known by its address. A queue is the list of what it holds (`Queue` is
-- about the linked list itself); the operations here are the ones of one thread, with no other thread between
-- their steps.
mod Tests
mod Races
pub mod Push
pub mod Emit
pub mod Close
pub mod Schedule
pub mod Round
pub mod Workers
pub mod Exclusive
use streem.Base.{
  ◌≡◌, Bool, true, false, not, Option, none, some, List, [], ◌∷◌, ◌++◌, if◌then◌else◌, ◌==◌, ◌&&◌,
  leb, ℕ, zero, suc, ◌+◌, ◌*◌, ◌%◌, ◌^◌, length, Status, ok, ng, i32_inc, i32_dec, i32_negative,
  ◌||◌,
}
use streem.Value.{Value, nil, nil_p}

-- `strm_stream_mode`
pub data Mode : Type 0 where
  producer filter consumer dying killed : Mode

abbrev pub killed_p : Mode → Bool
killed_p killed = true
killed_p _ = false

abbrev pub dying_p : Mode → Bool
dying_p dying = true
dying_p _ = false

abbrev pub producer_p : Mode → Bool
producer_p producer = true
producer_p _ = false

abbrev pub consumer_p : Mode → Bool
consumer_p consumer = true
consumer_p _ = false

-- A `strm_callback`: one of the program's, or `strm_stream_close` itself, cast to one.
pub data Callback : Type 0 where
  user : ℕ → Callback
  closing : Callback

-- `struct strm_task`
pub record Task : Type 0 where
  pub func : Callback
  pub data_of : Value

-- `struct strm_stream`: `rest` has the `rsize` streams of its field, `rcapa` is a `size_t`, and
-- `refcnt` the pattern of an `int32_t`. `has_data` says that `data` is not NULL, and `tasks` is its queue.
pub record Stream : Type 0 where
  pub mode : Mode
  pub start_func : Callback
  pub close_func : Option ℕ
  pub has_data : Bool
  pub dst : Option ℕ
  pub rest : List ℕ
  pub rcapa : ℕ
  pub refcnt : ℕ
  pub tasks : List Task

-- The streams, the queue of filters and consumers, the one of producers, and `stream_count`.
pub record World : Type 0 where
  pub streams : ℕ → Stream
  pub queue : List ℕ
  pub prod_queue : List ℕ
  pub stream_count : ℕ

abbrev pub with_stream : World → ℕ → Stream → World
with_stream w s x = record w { streams = λ t. if s == t then x else w.streams t }

-- `strm_task_add`
unfoldable pub strm_task_add : World → ℕ → Task → World
strm_task_add w s t =
    let x = w.streams s in
    let w' = with_stream w s (record x { tasks = x.tasks ++ (t ∷ []) }) in
    if producer_p x.mode
    then record w' { prod_queue = w.prod_queue ++ (s ∷ []) }
    else record w' { queue = w.queue ++ (s ∷ []) }

-- `strm_task_push`
unfoldable pub strm_task_push : World → ℕ → Callback → Value → World
unfolding strm_task_add
strm_task_push w s f v =
    let m = (w.streams s).mode in
    if killed_p m || dying_p m then w else strm_task_add w s (record { func = f; data_of = v })

-- The loop of `strm_emit` over `rest`.
unfoldable pub emit_rest : World → List ℕ → Value → World
unfolding strm_task_push
emit_rest w [] v = w
emit_rest w (t ∷ ts) v = emit_rest (strm_task_push w t (w.streams t).start_func v) ts v

-- The loop of the termination check: no stream of the list has a mode but `strm_killed`.
abbrev pub all_killed : World → List ℕ → Bool
all_killed w [] = true
all_killed w (t ∷ ts) = killed_p (w.streams t).mode && all_killed w ts

-- What `strm_emit` does with `dst`, which is forgotten where it is killed.
unfoldable pub emit_dst : World → ℕ → Option ℕ → Value → World
unfolding strm_task_push
emit_dst w s none v = w
emit_dst w s (some d) v =
    let w' = strm_task_push w d (w.streams d).start_func v in
    if killed_p (w'.streams d).mode
    then with_stream w' s (record (w'.streams s) { dst = none })
    else w'

-- What `strm_emit` gives to the streams that s is connected to.
unfoldable pub emit_data : World → ℕ → Value → World
unfolding emit_rest emit_dst
emit_data w s v = let w1 = emit_dst w s (w.streams s).dst v in emit_rest w1 (w1.streams s).rest v

-- Its last step: the stream's own next task.
unfoldable pub emit_again : World → ℕ → Option Callback → World
unfolding strm_task_push
emit_again w s none = w
emit_again w s (some f) = strm_task_push w s f nil

-- The termination check: no stream is left to emit to.
abbrev pub is_closed : World → ℕ → Bool
is_closed w s = elim (w.streams s).dst [ none ↦ all_killed w (w.streams s).rest | some d ↦ false ]

-- `strm_emit`
unfoldable pub strm_emit : World → ℕ → Value → Option Callback → World
unfolding emit_data emit_again
strm_emit w s v f =
    if dying_p (w.streams s).mode
    then w
    else if nil_p v
    then emit_again w s f
    else (let w2 = emit_data w s v in
        if is_closed w2 s
        then with_stream w2 s (record (w2.streams s) { mode = dying })
        else emit_again w2 s f)

-- `strm_stream_connect`: none where an assertion fails, or `rest` is written past its capacity.
-- `realloc` has the memory it is asked for.
unfoldable pub strm_stream_connect : World → ℕ → ℕ → Option World
unfolding strm_task_push
strm_stream_connect w src dst =
    let x = w.streams src in
    let capa = if leb (length x.rest) x.rcapa then (x.rcapa * 2 + 2) % 2 ^ 64 else x.rcapa in
    let linked : Option Stream = elim x.dst [
      | none ↦ some (record x { dst = some dst })
      | some d ↦
          if leb capa (length x.rest)
          then none
          else some (record x { rest = x.rest ++ (dst ∷ []); rcapa = capa })
    ] in
    if consumer_p x.mode || producer_p (w.streams dst).mode then none else (elim linked [
      | none ↦ none
      | some y ↦
          let w1 = with_stream w src y in
          let z = w1.streams dst in
          let w2 = with_stream w1 dst (record z { refcnt = i32_inc z.refcnt }) in
          some (if producer_p x.mode then strm_task_push w2 src x.start_func nil else w2)
    ])

-- `strm_stream_new`, at the address s that `malloc` returned.
unfoldable pub strm_stream_new : World → ℕ → Mode → Callback → Option ℕ → Bool → World
strm_stream_new w s m f c d =
    let x : Stream = record {
      mode = m;
      start_func = f;
      close_func = c;
      has_data = d;
      dst = none;
      rest = [];
      rcapa = 0;
      refcnt = 0;
      tasks = [];
    } in
    record (with_stream w s x) { stream_count = i32_inc w.stream_count }

-- The tasks that a stream's close leaves to the streams in a list.
unfoldable pub close_rest : World → List ℕ → World
unfolding strm_task_push
close_rest w [] = w
close_rest w (t ∷ ts) = close_rest (strm_task_push w t closing nil) ts

-- The tasks that a stream's close leaves to its targets.
unfoldable pub close_targets : World → Option ℕ → List ℕ → World
unfolding close_rest strm_task_push
close_targets w none l = close_rest w l
close_targets w (some d) l = close_rest (strm_task_push w d closing nil) l

-- A stream whose last reference is gone.
abbrev pub mark_killed : World → ℕ → World
mark_killed w s =
    let x = w.streams s in with_stream w s (record x { refcnt = i32_dec x.refcnt; mode = killed })

-- The end of `strm_stream_close`, after the close function returned. It frees the array of `rest`; the
-- model keeps it, and is no account of a stream that is used after its close.
unfoldable pub finish_close : World → ℕ → Status → World
unfolding close_targets
finish_close w s ng = w
finish_close w s _ =
    let w' = close_targets w (w.streams s).dst (w.streams s).rest in
    record w' { stream_count = i32_dec w'.stream_count }

-- The first task of a stream's queue, taken from it.
unfoldable pub take_task : World → ℕ → List Task → World
take_task w s ts = with_stream w s (record (w.streams s) { tasks = ts })

-- The stream that `task_loop` takes next, from `queue` before `prod_queue`.
unfoldable pub next_stream : World → List ℕ → List ℕ → Option (ℕ × World)
next_stream w (s ∷ q) p = some (s, record w { queue = q })
next_stream w [] (s ∷ p) = some (s, record w { prod_queue = p })
next_stream w [] [] = none

-- What the program's callbacks do, with the stream and the value that they are called with.
module _ (callback : ℕ → World → ℕ → Value → Status × World) where
  -- The close function of a stream; without one, its data is freed.
  unfoldable pub run_close : World → ℕ → Option ℕ → Status × World
  run_close w s none = (ok, with_stream w s (record (w.streams s) { has_data = false }))
  run_close w s (some c) = callback c w s nil

  -- `strm_stream_close`
  unfoldable pub strm_stream_close : World → ℕ → World
  unfolding finish_close run_close
  strm_stream_close w s =
      let x = w.streams s in
      let n = i32_dec x.refcnt in
      let (r, w3) = run_close (mark_killed w s) s x.close_func in
      if killed_p x.mode
      then w
      else if not (i32_negative n) && not (n == 0)
      then with_stream w s (record x { refcnt = n })
      else finish_close w3 s r

  -- A task's function with its data.
  unfoldable pub run_task : World → ℕ → Callback → Value → World
  unfolding strm_stream_close
  run_task w s (user f) v = (callback f w s v).1
  run_task w s closing v = strm_stream_close w s

  -- `task_exec`; the status that a callback returns is printed at most.
  unfoldable pub task_exec : World → ℕ → Task → World
  unfolding strm_stream_close run_task
  task_exec w s t =
      let w1 = run_task w s t.func t.data_of in
      if killed_p (w.streams s).mode
      then w
      else if dying_p (w1.streams s).mode
      then strm_stream_close w1 s
      else w1

  -- The inner loop of `task_loop`, with the stream's queue: none if it is still going after the
  -- fuel.
  unfoldable pub tasks_from : ℕ → World → ℕ → List Task → Option World
  unfolding task_exec take_task
  tasks_from fuel w s [] = some w
  tasks_from zero w s (t ∷ ts) = none
  tasks_from (suc fuel) w s (t ∷ ts) =
      let w' = task_exec (take_task w s ts) s t in tasks_from fuel w' s (w'.streams s).tasks

  unfoldable pub run_tasks : ℕ → World → ℕ → Option World
  unfolding tasks_from
  run_tasks fuel w s = tasks_from fuel w s (w.streams s).tasks

  -- One round of `task_loop`. `held` tells the streams whose `excl` another thread holds: for them the
  -- CAS fails, and the stream is off its queue with its tasks undone.
  unfoldable pub task_round : (held : ℕ → Bool) → ℕ → World → Option World
  unfolding next_stream run_tasks
  task_round held fuel w = elim (next_stream w w.queue w.prod_queue) [
    | none ↦ some w
    | some (s, w') ↦ elim (held s) [ true ↦ some w' | false ↦ run_tasks fuel w' s ]
  ]
