-- ===== src/Graph/Tests.antt =====
-- Bars of src/graph.c, with numbers in the place of doubles.
use streem.Base.{[], ◌∷◌, ◌≡◌, ◌+◌, ◌*◌, ◌/◌, refl, ltb, leb, ◌==◌, none}
use streem.Value.{float}
use streem.Graph.{GraphOps, BarData, Drawn, iter_bar, full, base, blank}
use streem.Graph.Shown.{draw_all}

abbrev numbers : GraphOps
numbers = record {
  ar = record {
    ops = record { of_int = λ n. n; feq = λ a b. a == b; flt = ltb; fadd = λ a b. a + b };
    fsub = λ a b. a;
    fneg = λ a. a;
    fmul = λ a b. a * b;
    fdiv = λ a b. a / b;
    fle = leb;
    fmod = λ a b. a;
  };
  to_int = λ n. n;
}

abbrev two_bars : BarData
two_bars = record { col = 8; row = 5; llen = 2; offset = 0; max = 1; buf = 0 ∷ 0 ∷ [] }

abbrev after_two : BarData
after_two = draw_all numbers two_bars (1 ∷ 4 ∷ [])

abbrev third : Drawn
third = iter_bar numbers none after_two (float 2)

third_cells : third.shown ≡ (full ∷ full ∷ []) ∷ (base ∷ blank ∷ []) ∷ []
unfolding iter_bar
third_cells = refl
