-- ===== src/Random.antt =====
-- src/random.c: the generator of random numbers, and samples of a stream.
--
-- The words of a seed are `uint32_t`s. An element of `samples` that was never written is none.
mod Tests
pub mod Places
pub mod Sample
use Prim.Native.Nat.{bit_xor}
use streem.Base.{
  ℕ, Bool, true, false, Option, none, some, List, [], ◌∷◌, ◌+◌, ◌*◌, ◌/◌, ◌%◌, ◌^◌, ◌==◌, ltb, set,
  length, Status, ok, abort, i32_inc,
}
use streem.Value.{Value, float}

pub record Seed : Type 0 where
  pub x : ℕ
  pub y : ℕ
  pub z : ℕ
  pub w : ℕ

-- `xorshift128`: the number, and the seed after it.
unfoldable pub xorshift128 : Seed → ℕ × Seed
xorshift128 s =
    let t = bit_xor s.x ((s.x * 2 ^ 11) % 2 ^ 32) in
    let w' = bit_xor (bit_xor s.w (s.w / 2 ^ 19)) (bit_xor t (t / 2 ^ 8)) in
    (w', record { x = s.y; y = s.z; z = s.w; w = w' })

-- The values of a seed in `xorshift128init` where /dev/urandom gives none: y is 2463534242 changed by
-- the time.
abbrev seed_turn : ℕ → ℕ
seed_turn y =
    let a = bit_xor y ((y * 2 ^ 13) % 2 ^ 32) in
    let b = bit_xor a (a / 2 ^ 17) in bit_xor b ((b * 2 ^ 5) % 2 ^ 32)

abbrev pub seed_of_time : (usec : ℕ) → Seed
seed_of_time usec =
    let a = seed_turn (bit_xor 2463534242 usec) in
    let b = seed_turn a in let c = seed_turn b in record { x = a; y = b; z = c; w = seed_turn c }

-- `rand_float`, where `scale` is the product with 1.0/4294967295.0.
abbrev pub rand_float : (scale : ℕ → ℕ) → Seed → ℕ × Seed
rand_float scale s = let (r, s') = xorshift128 s in (scale r, s')

-- `gen_rand`: the value emitted, and the seed.
abbrev pub gen_rand : (scale : ℕ → ℕ) → Seed → Value × Seed
gen_rand scale s = let (f, s') = rand_float scale s in (float f, s')

-- `a < b` for the patterns of two `int32_t`s.
abbrev pub i32_lt : ℕ → ℕ → Bool
i32_lt a b = ltb ((a + 2 ^ 31) % 2 ^ 32) ((b + 2 ^ 31) % 2 ^ 32)

-- `struct sample_data`
pub record SampleData : Type 0 where
  pub seed : Seed
  pub i : ℕ
  pub len : ℕ
  pub samples : List (Option Value)

-- A write to `samples[r]`.
abbrev pub keep : SampleData → ℕ → Value → Status × SampleData
keep d r v = elim (ltb r (length d.samples)) [
  | true ↦ (ok, record d { samples = set d.samples r (some v); i = i32_inc d.i })
  | false ↦ (abort, d)
]

-- `iter_sample`, where `random` is the generator. The remainder by 0 stops the program.
unfoldable pub iter_sample : (random : Seed → ℕ × Seed) → SampleData → Value → Status × SampleData
iter_sample random d v = elim (i32_lt d.i d.len) [
  | true ↦ keep d d.i v
  | false ↦ elim (d.i == 0) [
    | true ↦ (abort, d)
    | false ↦
        let (n, seed') = random d.seed in
        let e : SampleData = record d { seed = seed' } in
        elim (ltb (n % d.i) d.len) [
          | true ↦ keep e (n % d.i) v
          | false ↦ (ok, record e { i = i32_inc d.i })
        ]
  ]
]

-- `finish_sample`: the values emitted; none is one that was never written.
unfoldable pub finish_sample : List (Option Value) → Option (List Value)
finish_sample [] = some []
finish_sample (none ∷ vs) = none
finish_sample (some v ∷ vs) = elim (finish_sample vs) [ none ↦ none | some ws ↦ some (v ∷ ws) ]

-- `exec_sample`; `malloc` leaves the array as it was.
abbrev pub sample_new : Seed → List (Option Value) → SampleData
sample_new s memory = record { seed = s; i = 0; len = length memory; samples = memory }
