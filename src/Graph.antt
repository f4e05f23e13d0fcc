-- ===== src/Graph.antt =====
-- src/graph.c: the bars of `graph_bar`.
--
-- The heights are doubles, by their patterns. What is printed is the list of the bars from left to
-- right, and of the cells of a bar from the bottom up.
mod Tests
pub mod Shown
use streem.Base.{
  ℕ, zero, suc, Bool, true, false, Option, none, some, List, [], ◌∷◌, ◌++◌, map, if◌then◌else◌,
  ◌==◌, ◌+◌, ◌-◌, ltb, length, set, take, drop, replicate, Status, ok, ng, abort,
}
use streem.Base.Ring.{view, ring_next}
use streem.Value.{Value, FloatOps, number_p, value_float}
use streem.Number.{Arith}

-- `struct bar_data`: `buf` is `data`, of `dlen` heights, and `llen` the number of lines.
pub record BarData : Type 0 where
  pub col : ℕ
  pub row : ℕ
  pub llen : ℕ
  pub offset : ℕ
  pub max : ℕ
  pub buf : List ℕ

-- The operations of src/graph.c on doubles: the integer that a double is cut to, and how many lines
-- a height fills, by `line < f`.
pub record GraphOps : Type 0 where
  pub ar : Arith
  pub to_int : ℕ → ℕ

-- `init_bar` for a terminal of that size, if its size is known; none is STRM_NG. A terminal of less
-- than six columns has no memory for the heights, and one of less than three rows no line.
abbrev pub init_bar : GraphOps → Option (ℕ × ℕ) → Option BarData
init_bar ops none = none
init_bar ops (some (row, col)) = some (record {
  col = col;
  row = row;
  llen = row - 3;
  offset = 0;
  max = 1;
  buf = replicate (col - 6) (ops.ar.ops.of_int 0);
})

-- The greatest of the heights and m.
abbrev pub greatest : GraphOps → ℕ → List ℕ → ℕ
greatest ops m [] = m
greatest ops m (f ∷ fs) = greatest ops (if ops.ar.ops.flt m f then f else m) fs

-- The height written, its place taken one on, and the greatest height.
abbrev pub put_bar : GraphOps → BarData → ℕ → BarData
put_bar ops d x =
    let f = if ops.ar.ops.flt x (ops.ar.ops.of_int 0) then ops.ar.ops.of_int 0 else x in
    let buf' = set d.buf d.offset f in
    record d {
      buf = buf';
      offset = ring_next d.offset d.buf;
      max = ops.to_int (greatest ops (ops.ar.ops.of_int 1) buf');
    }

-- A cell of a bar.
pub data Cell : Type 0 where
  full base blank : Cell

-- The cells of `show_bar`, from the line on.
abbrev pub bar_cells : GraphOps → (f line : ℕ) → (lines : ℕ) → List Cell
bar_cells ops f line zero = []
bar_cells ops f line (suc n) =
    (if ops.ar.ops.flt (ops.ar.ops.of_int line) f then full else if line == 0 then base else blank)
    ∷ bar_cells ops f (line + 1) n

-- `show_bar`
abbrev pub show_bar : GraphOps → BarData → ℕ → List Cell
show_bar ops d x =
    let f = ops.ar.fmul (ops.ar.fdiv x (ops.ar.ops.of_int d.max)) (ops.ar.ops.of_int d.llen) in
    bar_cells ops f 0 d.llen

-- The heights that the two loops of `show_graph` show, from left to right.
abbrev pub shown_heights : BarData → List ℕ
shown_heights d = view d.offset d.buf

-- `show_graph`
abbrev pub show_graph : GraphOps → BarData → List (List Cell)
show_graph ops d = map (show_bar ops d) (shown_heights d)

-- What a call of `iter_bar` does: its status, what it shows, whether it closes the stream, and the
-- data.
pub record Drawn : Type 0 where
  pub status : Status
  pub shown : List (List Cell)
  pub closed : Bool
  pub state : BarData

abbrev pub failing : Status → BarData → Drawn
failing s d = record { status = s; shown = []; closed = false; state = d }

-- The rest of `iter_bar`. A height beyond the memory is a write outside of it.
abbrev pub draw : GraphOps → BarData → Value → Drawn
draw ops d v = elim (value_float ops.ar.ops v) [
  | none ↦ failing abort d
  | some x ↦ elim (ltb d.offset (length d.buf)) [
    | false ↦ failing abort d
    | true ↦
        let d' = put_bar ops d x in
        record { status = ok; shown = show_graph ops d'; closed = false; state = d' }
  ]
]

-- `iter_bar`, where no interrupt came. `winch` is the size of the terminal, if it may have changed.
unfoldable pub iter_bar : GraphOps → (winch : Option (Option (ℕ × ℕ))) → BarData → Value → Drawn
iter_bar ops winch d v = elim (number_p v) [
  | false ↦ failing ng d
  | true ↦ elim winch [
    | none ↦ draw ops d v
    | some size ↦ elim (init_bar ops size) [
      | none ↦ record (failing ng d) { closed = true }
      | some d' ↦ draw ops d' v
    ]
  ]
]
