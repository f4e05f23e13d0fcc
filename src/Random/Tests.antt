-- ===== src/Random/Tests.antt =====
-- Samples of src/random.c from short streams.
use streem.Base.{ℕ, List, [], ◌∷◌, ◌≡◌, refl, some, none, Option, map, length, arith}
use streem.Value.{Value, int}
use streem.Random.{Seed, xorshift128, iter_sample, finish_sample, sample_new}
use streem.Random.Places.{Distinct, at}
use streem.Random.Sample.{sample_all, finish_sample_lem}

abbrev zeros : Seed
zeros = record { x = 0; y = 0; z = 0; w = 1 }

abbrev memory : List (Option Value)
memory = none ∷ none ∷ []

abbrev values : List Value
values = int 7 ∷ int 8 ∷ int 9 ∷ []

finish_sample_lem_example :
    (out : List Value) × (places : List ℕ) × (finish_sample
        (sample_all xorshift128 (sample_new zeros memory) values).samples
      ≡ some out)
    × (map some out ≡ at values places)
    × Distinct places
    × (length out ≡ 2)
finish_sample_lem_example =
    finish_sample_lem xorshift128 zeros memory values (omega arith) (omega arith) (omega arith)

-- A stream that is shorter than the sample leaves memory unwritten, which is emitted.
short_stream :
    finish_sample (sample_all xorshift128 (sample_new zeros memory) (int 7 ∷ [])).samples ≡ none
unfolding finish_sample iter_sample
short_stream = refl
