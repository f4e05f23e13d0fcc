-- ===== src/Stat/Arrays.antt =====
-- The array methods of src/stat.c against its streams.
use streem.Base.{
  ℕ, true, false, List, [], ◌∷◌, ◌≡◌, refl, length, arith, ◌<◌, ◌+◌, ◌^◌, All, Bool, none, some,
  if◌then◌else◌,
}
use streem.Value.{Value, int, float, number_p}
use streem.Stat.{StatOps, of_int, fadd, fdiv}
use streem.Stat.Sum.{
  SumData, summed, iter_sum, sum_new, sum_finish, avg_finish, ary_total, ary_sum_avg,
}
use streem.Stat.Exact.{sum_all}

-- A value that `strm_number_p` takes.
abbrev pub IsNumber : Value → Type 0
IsNumber v = number_p v ≡ true

module _ (so : StatOps) where
  ary_total-sum_all :
      (vs : List Value) (d : SumData)
      → All IsNumber vs
      → d.num + length vs < 2 ^ 32
      → (ary_total so none (d.sum, d.c) vs ≡ some ((sum_all so d vs).sum, (sum_all so d vs).c))
        × ((sum_all so d vs).num ≡ d.num + length vs)
  unfolding ary_total iter_sum
  ary_total-sum_all [] d h b = (refl, omega arith)
  ary_total-sum_all (int n ∷ vs) d (h, hs) b =
      let (p, q) = ary_total-sum_all vs (summed so d (of_int so n)) hs (omega arith) in
      (p, omega arith)
  ary_total-sum_all (float f ∷ vs) d (h, hs) b =
      let (p, q) = ary_total-sum_all vs (summed so d f) hs (omega arith) in (p, omega arith)
  ary_total-sum_all (v ∷ vs) d (h, hs) b = absurd (cc h)

  finishing :
      (avg : Bool) (d : SumData) (n : ℕ)
      → d.num ≡ 0 + n
      → some (float (if avg then fdiv so (fadd so d.sum d.c) (of_int so n) else fadd so d.sum d.c))
        ≡ some (if avg then avg_finish so d else sum_finish so d)
  finishing true d n e = let k : n ≡ d.num = omega arith in rw k refl
  finishing false d n e = refl

  -- On an array of fewer than 2 ^ 32 numbers, `sum` and `average` give what the streams of these
  -- names emit at their end for the same numbers in that order.
  pub ary_sum_avg-stream :
      (avg : Bool) (vs : List Value)
      → All IsNumber vs
      → length vs < 2 ^ 32
      → ary_sum_avg so avg none vs
        ≡ some
            (let d = sum_all so (sum_new so) vs in if avg then avg_finish so d else sum_finish so d)
  unfolding ary_sum_avg
  ary_sum_avg-stream avg vs h b =
      let (p, q) = ary_total-sum_all vs (sum_new so) h (omega arith) in
      rw (p, ary_sum_avg) (finishing avg (sum_all so (sum_new so) vs) (length vs) q)
