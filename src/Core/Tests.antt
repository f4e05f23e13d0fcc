-- ===== src/Core/Tests.antt =====
-- Small pipelines for src/core.c.
use streem.Base.{
  ◌≡◌, refl, Bool, true, false, Option, none, some, List, [], ◌∷◌, ◌++◌, ℕ, ◌==◌, if◌then◌else◌,
  Status, ok, i32_dec, arith,
}
use streem.Value.{Value, nil, int}
use streem.Core.{
  Mode, filter, consumer, killed, dying, user, closing, Task, Stream, World, strm_emit,
  strm_stream_close, task_round, mark_killed,
}
use streem.Core.Push.{over, accept, copies, count}
use streem.Core.Emit.{targets, start_task, no_target, strm_emit_tasks, strm_emit_mode}
use streem.Core.Close.{strm_stream_close_last}
use streem.Core.Round.{task_round-IsScheduled}
use streem.Core.Schedule.{IsScheduled, strm_emit-IsScheduled}

abbrev stream : Mode → Option ℕ → Option ℕ → List ℕ → List Task → Stream
stream m c d r ts = record {
  mode = m;
  start_func = user 1;
  close_func = c;
  has_data = true;
  dst = d;
  rest = r;
  rcapa = 2;
  refcnt = 1;
  tasks = ts;
}

-- Stream 0 gives to 1, and twice to 2; stream 3 is killed.
abbrev world : World
world = record {
  streams = λ s.
      if s == 0
      then stream filter none (some 1) (2 ∷ 2 ∷ []) (record { func = user 7; data_of = int 4 } ∷ [])
      else if s == 3
      then stream killed none none [] []
      else stream consumer (some 9) none [] [];
  queue = 0 ∷ [];
  prod_queue = [];
  stream_count = 3;
}

-- Each callback gives its value on.
abbrev relay : ℕ → World → ℕ → Value → Status × World
relay f w s v = (ok, strm_emit w s v none)

strm_emit_tasks_example : ((strm_emit world 0 (int 5) none).streams 2).tasks ≡ (
    if over (world.streams 2)
    then (world.streams 2).tasks
    else (world.streams 2).tasks
      ++ copies (count 2 (targets (world.streams 0))) (start_task (world.streams 2) (int 5)))
strm_emit_tasks_example = strm_emit_tasks world 0 2 (int 5) none refl refl refl

strm_emit_mode_example :
    ((strm_emit world 1 (int 5) none).streams 1).mode
    ≡ (if no_target world 1 then dying else (world.streams 1).mode)
strm_emit_mode_example = strm_emit_mode world 1 (int 5) none refl refl

-- The world after the close function of stream 1.
abbrev after_close : World
after_close = strm_emit (mark_killed world 1) 1 nil none

strm_stream_close_last_example :
    ((strm_stream_close relay world 1).streams 2
      ≡ accept (after_close.streams 2) (
          copies
            (count 2 (targets (after_close.streams 1)))
            (record { func = closing; data_of = nil })))
    × ((strm_stream_close relay world 1).stream_count ≡ i32_dec after_close.stream_count)
strm_stream_close_last_example =
    strm_stream_close_last relay world after_close 1 2 9 refl refl refl refl

relay_keeps :
    (skip : ℕ → Bool) (f : ℕ) (w : World) (s : ℕ) (v : Value)
    → IsScheduled skip w
    → IsScheduled skip (relay f w s v).1
relay_keeps skip f w s v i = strm_emit-IsScheduled skip w s v none i

world-IsScheduled : IsScheduled (λ s. false) world
world-IsScheduled s = ground arith

abbrev after_round : World
after_round = elim (task_round relay (λ s. false) 3 world) [ none ↦ world | some w ↦ w ]

round_ends : task_round relay (λ s. false) 3 world ≡ some after_round
unfolding task_round strm_emit
round_ends = refl

task_round-IsScheduled_example : IsScheduled (λ s. false) after_round
task_round-IsScheduled_example =
    task_round-IsScheduled relay relay_keeps (λ s. false) 3 world after_round (λ s. refl)
      world-IsScheduled round_ends
