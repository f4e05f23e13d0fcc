-- ===== src/Io/Tests.antt =====
-- The reader of src/io.c on small inputs.
use streem.Base.{[], ◌∷◌, ◌≡◌, refl, true, false, none, replicate, arith}
use streem.Io.{io_run, strm_readio, stuck}
use streem.Io.Lines.{lines, lines_from}
use streem.Io.Runs.{Ends}
use streem.Io.Waiting.{strm_readio-waiting}
use streem.Io.Mapped.{strm_readio-mapped, strm_readio-overrun}

strm_readio-waiting_example :
    Ends (replicate 10 2) (strm_readio false true (97 ∷ 10 ∷ 98 ∷ [])) (lines (97 ∷ 10 ∷ 98 ∷ []))
strm_readio-waiting_example =
    strm_readio-waiting (97 ∷ 10 ∷ 98 ∷ []) true (replicate 10 2) (omega arith) (omega arith)
      (omega arith)

strm_readio-mapped_example :
    Ends (replicate 4 0) (strm_readio true true (97 ∷ 98 ∷ 10 ∷ [])) (lines (97 ∷ 98 ∷ 10 ∷ []))
strm_readio-mapped_example =
    strm_readio-mapped 97 (98 ∷ 10 ∷ []) (replicate 4 0) (omega arith) refl (omega arith)

strm_readio-overrun_example :
    io_run (replicate 4 0) (strm_readio true true (97 ∷ 10 ∷ 98 ∷ [])) ≡ none
strm_readio-overrun_example =
    strm_readio-overrun 97 (10 ∷ 98 ∷ []) (replicate 4 0) (omega arith) refl (omega arith)

lines_test : lines (97 ∷ 10 ∷ 10 ∷ 98 ∷ []) ≡ (97 ∷ []) ∷ [] ∷ (98 ∷ []) ∷ []
unfolding lines_from
lines_test = refl

-- An empty file cannot be mapped, and epoll does not take it: its stream never stops.
empty_stuck : (strm_readio true true []).next ≡ stuck
unfolding strm_readio
empty_stuck = refl
