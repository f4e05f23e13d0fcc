-- ===== src/Stat/Tests.antt =====
-- The statistics of src/stat.c on a few numbers, with integers in the place of doubles.
use streem.Base.{
  ℕ, Bool, [], ◌∷◌, ◌≡◌, ◌≤◌, ◌+◌, ◌*◌, ◌/◌, ◌%◌, ◌^◌, refl, some, true, false, map, leb, ltb, ◌==◌,
  if◌then◌else◌, arith, none, ◌-◌,
}
use streem.Base.Int.{ℤ, pos, negsuc, ◌+ℤ◌, ◌-ℤ◌, i32_signed, magnitude}
use streem.Value.{int, float}
use streem.Stat.{StatOps}
use streem.Stat.Sum.{sum_new, sum_finish, ary_sum_avg}
use streem.Stat.Exact.{Exact53, sum_ℤ, sum_all, sum_finish-exact}
use streem.Stat.Arrays.{ary_sum_avg-stream}
use streem.Stat.Window.{MvavgData, mvavg_new}
use streem.Stat.Rolling.{mvavg_all}

-- The integer z as a pattern: twice its value, or one more than that for a negative one.
abbrev code : ℤ → ℕ
code (pos n) = 2 * n
code (negsuc n) = 2 * n + 1

abbrev value : ℕ → ℤ
value a = if a % 2 == 0 then pos (a / 2) else negsuc (a / 2)

abbrev fits : ℕ → Bool
fits a = leb (magnitude (value a)) (2 ^ 53)

value-code : (z : ℤ) → value (code z) ≡ z
value-code (pos n) = ground arith
value-code (negsuc n) = ground arith

abbrev integers : StatOps
integers = record {
  ar = record {
    ops = record {
      of_int = λ n. code (i32_signed n);
      feq = λ a b. a == b;
      flt = ltb;
      fadd = λ a b. code (value a +ℤ value b);
    };
    fsub = λ a b. code (value a -ℤ value b);
    fneg = λ a. a;
    fmul = λ a b. a;
    fdiv = λ a b. a;
    fle = leb;
    fmod = λ a b. a;
  };
  fabs = λ a. a;
  fsqrt = λ a. a;
}

fits-code : (z : ℤ) → magnitude z ≤ 2 ^ 53 → (fits (code z) ≡ true) × (value (code z) ≡ z)
fits-code z h = (rw (value-code z) (ground (arith, h)), value-code z)

integers-Exact53 : Exact53 integers fits value
integers-Exact53 = record {
  fits = λ a e. ground (arith, e);
  ints = λ n h. fits-code (i32_signed n) (ground (arith, h));
  adds = λ a b p q h. fits-code (value a +ℤ value b) h;
  subs = λ a b p q h. fits-code (value a -ℤ value b) h;
}

sum_finish-exact_example :
    (f : ℕ) × (sum_finish integers
        (sum_all integers (sum_new integers) (map int (3 ∷ (2 ^ 32 - 5) ∷ [])))
      ≡ float f)
    × (fits f ≡ true)
    × (value f ≡ sum_ℤ (3 ∷ (2 ^ 32 - 5) ∷ []))
sum_finish-exact_example =
    sum_finish-exact integers fits value integers-Exact53 (3 ∷ (2 ^ 32 - 5) ∷ []) (omega arith)
      (omega arith)

ary_sum_avg-stream_example :
    ary_sum_avg integers false none (int 3 ∷ float 8 ∷ [])
    ≡ some (sum_finish integers (sum_all integers (sum_new integers) (int 3 ∷ float 8 ∷ [])))
ary_sum_avg-stream_example =
    ary_sum_avg-stream integers false (int 3 ∷ float 8 ∷ []) (refl, (refl, tt)) (omega arith)

abbrev after_two : MvavgData
after_two = mvavg_all integers (mvavg_new (0 ∷ 0 ∷ [])) (1 ∷ 2 ∷ [])
