-- ===== src/Core/Races.antt =====
-- Two workers of src/core.c on two streams.
use streem.Base.{◌≡◌, refl, Bool, false, List, [], ◌∷◌, ℕ, if◌then◌else◌, ◌==◌, arith}
use streem.Core.Workers.{Threads, Effect, asking, step, interleave}
use streem.Core.Exclusive.{IsExclusive, interleave-IsExclusive}

-- Streams 7 and 9 have a task each.
abbrev start : Threads
start = record {
  queue = 7 ∷ 9 ∷ [];
  prod_queue = [];
  excl = λ s. false;
  waiting = λ s. if s == 7 then 1 else if s == 9 then 1 else 0;
  stream_count = 2;
  place = λ u. asking;
}

abbrev plain : Effect
plain = record { pushes = []; count = 2 }

abbrev filters : ℕ → Bool
filters s = false

-- Worker 0 has run the task of stream 7 and is behind the loop; then worker 1 runs the task of stream 9,
-- which adds one to 7, takes 7 off the queue and finds its flag set; then 0 clears the flag.
abbrev race : List (ℕ × Effect)
race =
    (0, plain)
    ∷ (1, plain)
    ∷ (0, plain)
    ∷ (1, plain)
    ∷ (0, plain)
    ∷ (0, plain)
    ∷ (1, record { pushes = 7 ∷ []; count = 2 })
    ∷ (1, plain)
    ∷ (1, plain)
    ∷ (1, plain)
    ∷ (1, plain)
    ∷ (1, plain)
    ∷ (0, plain)
    ∷ []

nobody : IsExclusive start
nobody = record { set = λ u s h. ground arith; alone = λ u v s h k. ground arith }

interleave-IsExclusive_example : IsExclusive (interleave filters start race)
interleave-IsExclusive_example = interleave-IsExclusive filters start race nobody

-- The task is left, with its stream on no queue and its flag clear.
forgotten :
    ((interleave filters start race).waiting 7 ≡ 1)
    × ((interleave filters start race).queue ≡ [])
    × ((interleave filters start race).excl 7 ≡ false)
unfolding interleave step
forgotten = (refl, refl, refl)
