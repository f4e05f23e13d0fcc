-- ===== src/Stat/Exact.antt =====
-- Sums of integers by the compensated summation of src/stat.c.
use streem.Base.{
  ℕ, true, List, [], ◌∷◌, ◌≡◌, refl, length, arith, ◌≤◌, ◌<◌, ◌+◌, ◌*◌, ◌^◌, All, Bool, ◌∙◌, ap,
  if_case, map,
}
use streem.Base.Int.{
  +ℤ_assoc, +ℤ_zero, +ℤ_comm, -ℤ-magnitude, ℤ, pos, ◌+ℤ◌, ◌-ℤ◌, i32_signed, magnitude, int_laws,
  +ℤ_parts, -ℤ_parts, eq_of_parts, +ℤ-magnitude, pos_part, neg_part,
}
use mathlib.Core.Path.{subst}
use streem.Value.{Value, int, float}
use streem.Stat.{StatOps, of_int, fadd, fsub}
use streem.Stat.Sum.{SumData, compensated, summed, iter_sum, sum_new, sum_finish}

abbrev pub Small : ℤ → Type 0
Small z = magnitude z ≤ 2 ^ 53

-- The doubles that are integers of at most 2 ^ 53, `exact`, and the integers that they are, `val`:
-- every `int32_t` is one, and a sum or a difference that fits is given exactly.
pub record Exact53 (so : StatOps) (exact : ℕ → Bool) (val : ℕ → ℤ) : Type 0 where
  pub fits : (a : ℕ) → exact a ≡ true → Small (val a)
  pub ints :
      (n : ℕ) → n < 2 ^ 32 → (exact (of_int so n) ≡ true) × (val (of_int so n) ≡ i32_signed n)
  pub adds :
      (a b : ℕ)
      → exact a ≡ true
      → exact b ≡ true
      → Small (val a +ℤ val b)
      → (exact (fadd so a b) ≡ true) × (val (fadd so a b) ≡ val a +ℤ val b)
  pub subs :
      (a b : ℕ)
      → exact a ≡ true
      → exact b ≡ true
      → Small (val a -ℤ val b)
      → (exact (fsub so a b) ≡ true) × (val (fsub so a b) ≡ val a -ℤ val b)

-- The sum of the numbers that the patterns stand for.
abbrev pub sum_ℤ : List ℕ → ℤ
sum_ℤ [] = pos 0
sum_ℤ (n ∷ ns) = i32_signed n +ℤ sum_ℤ ns

-- The data after a task for each value.
abbrev pub sum_all : StatOps → SumData → List Value → SumData
sum_all so d [] = d
sum_all so d (v ∷ vs) = sum_all so (iter_sum so d v).1 vs

module _ (so : StatOps) (exact : ℕ → Bool) (val : ℕ → ℤ) (law : Exact53 so exact val) where
  -- A double with that value.
  abbrev Is : ℕ → ℤ → Type 0
  Is a z = (exact a ≡ true) × (val a ≡ z)

  add-Is : (a b : ℕ) (x y z : ℤ) → Is a x → Is b y → x +ℤ y ≡ z → Small z → Is (fadd so a b) z
  add-Is a b x y z (ea, va) (eb, vb) e s =
      let w : val a +ℤ val b ≡ z = rw va (rw vb e) in
      let (q, r) = law.adds a b ea eb (rw w s) in (q, r ∙ w)

  sub-Is : (a b : ℕ) (x y z : ℤ) → Is a x → Is b y → x -ℤ y ≡ z → Small z → Is (fsub so a b) z
  sub-Is a b x y z (ea, va) (eb, vb) e s =
      let w : val a -ℤ val b ≡ z = rw va (rw vb e) in
      let (q, r) = law.subs a b ea eb (rw w s) in (q, r ∙ w)

  -- What an exact addition loses is 0, and so is the compensation.
  lost-Is :
      (a b t c : ℕ) (x y z : ℤ)
      → Is a x
      → Is b y
      → Is t z
      → Is c (pos 0)
      → x +ℤ y ≡ z
      → Is (fadd so c (fadd so (fsub so a t) b)) (pos 0)
  lost-Is a b t c x y z ia ib it ic e =
      let d = pos 0 -ℤ y in
      let s : Small y = subst (λ k. Small k) ib.1 (law.fits b ib.0) in
      add-Is c _ (pos 0) (pos 0) (pos 0) ic
        (add-Is _ b d y (pos 0)
          (sub-Is a t x z d ia it
            (omega (
              arith,
              +ℤ_parts x y,
              ap pos_part e,
              ap neg_part e,
              -ℤ_parts x z,
              -ℤ_parts (pos 0) y,
              eq_of_parts (x -ℤ z) d,
            ))
            (omega (arith, -ℤ-magnitude (pos 0) y)))
          ib (omega int_laws) (omega arith))
        (omega int_laws) (omega arith)

  compensated-Is :
      (s c a : ℕ) (x y z : ℤ)
      → Is s x
      → Is c (pos 0)
      → Is a y
      → x +ℤ y ≡ z
      → Small z
      → Is (compensated so (s, c) a).0 z × Is (compensated so (s, c) a).1 (pos 0)
  unfolding compensated
  compensated-Is s c a x y z is ic ia e b =
      let it = add-Is s a x y z is ia e b in
      if_case (λ (p : ℕ × ℕ). Is p.0 z × Is p.1 (pos 0)) (so.ar.fle (so.fabs a) (so.fabs s))
        (fadd so s a, fadd so c (fadd so (fsub so s (fadd so s a)) a))
        (fadd so s a, fadd so c (fadd so (fsub so a (fadd so s a)) s))
        (it, lost-Is s a (fadd so s a) c x y z is ia it ic e)
        (it, lost-Is a s (fadd so s a) c y x z ia is it ic (+ℤ_comm y x ∙ e))

  signed-small : (n : ℕ) → n < 2 ^ 32 → magnitude (i32_signed n) ≤ 2 ^ 31
  signed-small n h = ground arith

  -- The data stand for the integer z.
  abbrev SumIs : SumData → ℤ → Type 0
  SumIs d z = Is d.sum z × Is d.c (pos 0)

  sum_all-Is :
      (ns : List ℕ) (d : SumData) (z : ℤ)
      → All (λ n. n < 2 ^ 32) ns
      → SumIs d z
      → magnitude z + length ns * 2 ^ 31 ≤ 2 ^ 53
      → SumIs (sum_all so d (map int ns)) (z +ℤ sum_ℤ ns)
  unfolding iter_sum
  sum_all-Is [] d z h i b = rw +ℤ_zero i
  sum_all-Is (n ∷ ns) d z (h, hs) (is, ic) b =
      let y = i32_signed n in
      let l =
        compensated-Is d.sum d.c (of_int so n) z y (z +ℤ y) is ic (law.ints n h) refl
          (omega (arith, +ℤ-magnitude z y, signed-small n h)) in
      rw (← +ℤ_assoc z y (sum_ℤ ns)) (
        sum_all-Is ns (summed so d (of_int so n)) (z +ℤ y) hs l
          (omega (arith, +ℤ-magnitude z y, signed-small n h)))

  -- The sum of a stream of at most 2 ^ 21 integers is exact: the value emitted is a double that is
  -- the sum of the integers, whichever way the compensation goes.
  pub sum_finish-exact :
      (ns : List ℕ)
      → All (λ n. n < 2 ^ 32) ns
      → length ns ≤ 2 ^ 21
      → (f : ℕ) × (sum_finish so (sum_all so (sum_new so) (map int ns)) ≡ float f)
        × (exact f ≡ true)
        × (val f ≡ sum_ℤ ns)
  sum_finish-exact ns h l =
      let d = sum_all so (sum_new so) (map int ns) in
      let z = pos 0 +ℤ sum_ℤ ns in
      let zero_is = law.ints 0 (omega arith) in
      let (is, ic) = sum_all-Is ns (sum_new so) (pos 0) h (zero_is, zero_is) (omega arith) in
      let fit : Small z = subst (λ k. Small k) is.1 (law.fits d.sum is.0) in
      let (q, r) = add-Is d.sum d.c z (pos 0) z is ic (+ℤ_zero z) fit in
      (fadd so d.sum d.c, refl, q, r ∙ +ℤ_comm (pos 0) (sum_ℤ ns) ∙ +ℤ_zero (sum_ℤ ns))
