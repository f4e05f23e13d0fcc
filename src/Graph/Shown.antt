-- ===== src/Graph/Shown.antt =====
-- What `graph_bar` of src/graph.c shows.
use streem.Base.{ℕ, List, [], ◌∷◌, ◌++◌, ◌≡◌, length, ◌<◌, none, if◌then◌else◌, drop}
use streem.Value.{float}
use streem.Graph.{BarData, GraphOps, shown_heights, iter_bar}

-- A height: no number is below zero.
abbrev pub height : GraphOps → ℕ → ℕ
height ops x = if ops.ar.ops.flt x (ops.ar.ops.of_int 0) then ops.ar.ops.of_int 0 else x

-- The data after these heights, on an array that was `buf`.
record Drew (buf xs : List ℕ) (d : BarData) : Type 0 where
  size : length d.buf ≡ length buf
  place : d.offset < length d.buf
  window : shown_heights d ≡ drop (length xs) (buf ++ xs)

-- The data after a task for each double.
abbrev pub draw_all : GraphOps → BarData → List ℕ → BarData
draw_all ops d [] = d
draw_all ops d (x ∷ xs) = draw_all ops (iter_bar ops none d (float x)).state xs
