-- ===== src/Stat/Rolling.antt =====
-- The moving average of src/stat.c over a stream of numbers.
use streem.Base.{ℕ, true, false, List, [], ◌∷◌, ◌++◌, ◌≡◌, length, ◌≤◌, ◌<◌, Bool, none, drop, ◌⊎◌}
use streem.Base.Ring.{view}
use streem.Value.{float}
use streem.Stat.{StatOps}
use streem.Stat.Window.{MvavgData, iter_mvavg}

-- The array is full from the number n on, and before that the place is the number of writes.
abbrev Full : ℕ → ℕ → ℕ → Bool → Type 0
Full n i l f = ((f ≡ false) × (i ≡ l)) ⊎ ((f ≡ true) × (n ≤ l))

-- The data after the numbers xs, on an array that had `buf` in it.
record Rolled (buf xs : List ℕ) (d : MvavgData) : Type 0 where
  size : length d.buf ≡ length buf
  place : d.i < length d.buf
  window : view d.i d.buf ≡ drop (length xs) (buf ++ xs)
  full : Full (length buf) d.i (length xs) d.filled

-- The data after a task for each number.
abbrev pub mvavg_all : StatOps → MvavgData → List ℕ → MvavgData
mvavg_all so d [] = d
mvavg_all so d (x ∷ xs) = mvavg_all so (iter_mvavg so none d (float x)).state xs
