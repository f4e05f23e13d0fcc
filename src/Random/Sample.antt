-- ===== src/Random/Sample.antt =====
-- What the sampling stream of src/random.c keeps.
use streem.Base.{
  ℕ, zero, suc, true, false, Option, some, List, [], ◌∷◌, ◌++◌, map, ◌≡◌, ◌<◌, ◌≤◌, ◌+◌, ◌%◌, ◌^◌,
  ◌∙◌, refl, sym, ap, arith, length, set, get_elem?, All, min, ltb, ltb_lt, set-append, append-snoc,
  length-append, length-set, append-nil, Bool-cases, inl, inr, ok, ap₂, ◌==◌, i32_inc,
}
use streem.Value.{Value}
use streem.Random.{Seed, SampleData, iter_sample, finish_sample, sample_new, i32_lt, keep}
use streem.Random.Places.{
  Distinct, All-set, All-snoc, All-weaken, Distinct-set, Distinct-snoc, get-last, at, at-append,
  at-set, at-snoc, length-at,
}

-- The data after the values vs: the elements at `places` of them, and the memory `junk` behind.
record Sampled (len : ℕ) (vs : List Value) (d : SampleData) : Type 0 where
  places : List ℕ
  junk : List (Option Value)
  size : d.len ≡ len
  count : d.i ≡ length vs
  kept : d.samples ≡ at vs places ++ junk
  below : All (λ j. j < length vs) places
  distinct : Distinct places
  shape : (length places ≡ min len (length vs)) × (length places + length junk ≡ len)

lt-signed : (a b : ℕ) → a < 2 ^ 31 → b < 2 ^ 31 → i32_lt a b ≡ ltb a b
lt-signed a b h k = ground arith

nil_of_length : {A : Type 0} (l : List A) → length l ≡ 0 → l ≡ []
nil_of_length [] h = refl
nil_of_length (x ∷ l) h = absurd (omega arith)

cons_of_length :
    {A : Type 0} (l : List A) → 0 < length l → (a : A) × (post : List A) × (l ≡ a ∷ post)
cons_of_length [] h = absurd (omega arith)
cons_of_length (a ∷ l) h = (a, l, refl)

length-snoc : (vs : List Value) (v : Value) → length (vs ++ (v ∷ [])) ≡ suc (length vs)
length-snoc vs v = omega (arith, length-append vs (v ∷ []))

module _ (random : Seed → ℕ × Seed) (len : ℕ) (vs : List Value) (d : SampleData) (v : Value)
    (s : Sampled len vs d) where
  length-samples : length d.samples ≡ len
  length-samples =
      ap length s.kept
      ∙ length-append (at vs s.places) s.junk
      ∙ ap (λ n. n + length s.junk) (length-at vs s.places)
      ∙ s.shape.1

  kept-at :
      (seed' : Seed) (r : ℕ)
      → r < len
      → keep (record d { seed = seed' }) r v ≡ (
        ok,
        record d { seed = seed'; samples = set d.samples r (some v); i = (d.i + 1) % 2 ^ 32 },
      )
  kept-at seed' r h =
      let e : ltb r (length d.samples) ≡ true = rw length-samples (ltb_lt r len h) in
      rw (e, keep) refl

  -- The places below the new one are below the number of values still.
  below-next : All (λ j. j < length (vs ++ (v ∷ []))) s.places
  below-next = rw (length-snoc vs v) (All-weaken (length vs) s.places s.below)

  written :
      at (vs ++ (v ∷ [])) s.places ++ (get_elem? (vs ++ (v ∷ [])) (length vs) ∷ [])
      ≡ at vs s.places ++ (some v ∷ [])
  written = ap₂ (λ t a. t ++ (a ∷ [])) (at-append vs v s.places s.below) (get-last vs v)

  -- A value is written behind those that are kept.
  filling :
      (a : Option Value) (post : List (Option Value))
      → s.junk ≡ a ∷ post
      → length vs < len
      → length vs < 2 ^ 31
      → Sampled len
          (vs ++ (v ∷ []))
          (record d { samples = set d.samples d.i (some v); i = (d.i + 1) % 2 ^ 32 })
  filling a post e h b = record {
    places = s.places ++ (length vs ∷ []);
    junk = post;
    size = s.size;
    count = omega (arith, s.count, length-snoc vs v);
    kept =
        ap (λ t. set t d.i (some v)) (s.kept ∙ ap (λ t. at vs s.places ++ t) e)
        ∙ set-append (at vs s.places) a post (some v) d.i
            (omega (arith, s.count, length-at vs s.places, s.shape.0))
        ∙ sym (append-snoc (at vs s.places) (some v) post)
        ∙ ap (λ t. t ++ post) (sym (at-snoc (vs ++ (v ∷ [])) s.places (length vs) ∙ written));
    below =
        All-snoc (λ j. j < length (vs ++ (v ∷ []))) s.places (length vs) below-next
          (omega (arith, length-snoc vs v));
    distinct = Distinct-snoc s.places (length vs) s.below s.distinct;
    shape = (
      omega (arith, s.shape.0, length-append s.places (length vs ∷ []), length-snoc vs v),
      omega (arith, s.shape.1, ap length e, length-append s.places (length vs ∷ [])),
    );
  }

  replaced :
      (r : ℕ)
      → set (at (vs ++ (v ∷ [])) s.places) r (get_elem? (vs ++ (v ∷ [])) (length vs))
        ≡ set (at vs s.places) r (some v)
  replaced r = ap₂ (λ t a. set t r a) (at-append vs v s.places s.below) (get-last vs v)

  no_junk : len ≤ length vs → s.junk ≡ []
  no_junk h = nil_of_length s.junk (omega (arith, s.shape.0, s.shape.1))

  -- A value takes the place of one that was kept.
  replacing :
      (seed' : Seed) (r : ℕ)
      → len ≤ length vs
      → length vs < 2 ^ 31
      → Sampled len
          (vs ++ (v ∷ []))
          (record d { seed = seed'; samples = set d.samples r (some v); i = (d.i + 1) % 2 ^ 32 })
  replacing seed' r h b = record {
    places = set s.places r (length vs);
    junk = s.junk;
    size = s.size;
    count = omega (arith, s.count, length-snoc vs v);
    kept =
        ap (λ t. set t r (some v))
          (s.kept ∙ ap (λ t. at vs s.places ++ t) (no_junk h) ∙ append-nil (at vs s.places))
        ∙ sym (at-set (vs ++ (v ∷ [])) s.places r (length vs) ∙ replaced r)
        ∙ sym (append-nil _)
        ∙ ap (λ t. at (vs ++ (v ∷ [])) (set s.places r (length vs)) ++ t) (sym (no_junk h));
    below =
        All-set (λ j. j < length (vs ++ (v ∷ []))) s.places r (length vs) below-next
          (omega (arith, length-snoc vs v));
    distinct = Distinct-set s.places r (length vs) s.below s.distinct;
    shape = (
      omega (arith, s.shape.0, length-set s.places r (length vs), length-snoc vs v),
      omega (arith, s.shape.1, length-set s.places r (length vs)),
    );
  }

  -- A value is passed over.
  passing :
      (seed' : Seed)
      → len ≤ length vs
      → length vs < 2 ^ 31
      → Sampled len (vs ++ (v ∷ [])) (record d { seed = seed'; i = (d.i + 1) % 2 ^ 32 })
  passing seed' h b = record {
    places = s.places;
    junk = s.junk;
    size = s.size;
    count = omega (arith, s.count, length-snoc vs v);
    kept = s.kept ∙ ap (λ t. t ++ s.junk) (sym (at-append vs v s.places s.below));
    below = below-next;
    distinct = s.distinct;
    shape = (omega (arith, s.shape.0, length-snoc vs v), s.shape.1);
  }

  some_junk :
      length vs < len → (a : Option Value) × (post : List (Option Value)) × (s.junk ≡ a ∷ post)
  some_junk h = cons_of_length s.junk (omega (arith, s.shape.0, s.shape.1))

  compares : len < 2 ^ 31 → length vs < 2 ^ 31 → i32_lt d.i d.len ≡ ltb (length vs) len
  compares h b = ap₂ i32_lt s.count s.size ∙ lt-signed (length vs) len b h

  iter-fill : i32_lt d.i d.len ≡ true → iter_sample random d v ≡ keep d d.i v
  unfolding iter_sample
  iter-fill e = rw (e, iter_sample) refl

  abbrev number : ℕ
  number = (random d.seed).0 % d.i

  abbrev next_seed : Seed
  next_seed = (random d.seed).1

  iter-replace :
      i32_lt d.i d.len ≡ false
      → (d.i == 0) ≡ false
      → ltb number d.len ≡ true
      → iter_sample random d v ≡ keep (record d { seed = next_seed }) number v
  unfolding iter_sample
  iter-replace e z l = rw (e, iter_sample) (rw (z, iter_sample) (rw (l, iter_sample) refl))

  iter-pass :
      i32_lt d.i d.len ≡ false
      → (d.i == 0) ≡ false
      → ltb number d.len ≡ false
      → iter_sample random d v ≡ (ok, record d { seed = next_seed; i = i32_inc d.i })
  unfolding iter_sample
  iter-pass e z l = rw (e, iter_sample) (rw (z, iter_sample) (rw (l, iter_sample) refl))

  -- Each task leaves it so.
  iter_sample-Sampled :
      0 < len
      → len < 2 ^ 31
      → length vs < 2 ^ 31
      → (r : SampleData) × (iter_sample random d v ≡ (ok, r)) × Sampled len (vs ++ (v ∷ [])) r
  iter_sample-Sampled z h b =
      let cmp = compares h b in
      elim (Bool-cases (ltb (length vs) len)) [
        | inl e ↦
            let lt : length vs < len = ground (arith, e) in
            let (a, post, q) = some_junk lt in
            (_, iter-fill (cmp ∙ e) ∙ kept-at d.seed d.i (rw s.count lt), filling a post q lt b)
        | inr e ↦
            let ge : len ≤ length vs = ground (arith, e) in
            let nz : (d.i == 0) ≡ false = rw s.count (ground (arith, z)) in
            elim (Bool-cases (ltb number d.len)) [
              | inl l ↦
                  let lt : number < len = rw (← s.size) (ground (arith, l)) in
                  (
                    _,
                    iter-replace (cmp ∙ e) nz l ∙ kept-at next_seed number lt,
                    replacing next_seed number ge b,
                  )
              | inr l ↦ (_, iter-pass (cmp ∙ e) nz l, passing next_seed ge b)
            ]
      ]

-- The data after a task for each value.
abbrev pub sample_all : (Seed → ℕ × Seed) → SampleData → List Value → SampleData
sample_all random d [] = d
sample_all random d (v ∷ vs) = sample_all random (iter_sample random d v).1 vs

all-Sampled :
    (random : Seed → ℕ × Seed) (len : ℕ) (us vs : List Value) (d : SampleData)
    → Sampled len us d
    → 0 < len
    → len < 2 ^ 31
    → length us + length vs ≤ 2 ^ 31
    → Sampled len (us ++ vs) (sample_all random d vs)
all-Sampled random len us [] d s z h b = rw append-nil s
all-Sampled random len us (v ∷ vs) d s z h b =
    let (r, e, t) = iter_sample-Sampled random len us d v s z h (omega arith) in
    rw e (
      rw (← append-snoc us v vs)
        (all-Sampled random len (us ++ (v ∷ [])) vs r t z h (omega (arith, length-snoc us v))))

get_within : (vs : List Value) (j : ℕ) → j < length vs → (v : Value) × (get_elem? vs j ≡ some v)
get_within [] j h = absurd (omega arith)
get_within (v ∷ vs) zero h = (v, refl)
get_within (v ∷ vs) (suc j) h = get_within vs j (omega arith)

finish-at :
    (vs : List Value) (js : List ℕ)
    → All (λ j. j < length vs) js
    → (out : List Value) × (finish_sample (at vs js) ≡ some out) × (map some out ≡ at vs js)
unfolding finish_sample
finish-at vs [] h = ([], refl, refl)
finish-at vs (j ∷ js) h =
    let (v, e) = get_within vs j h.0 in
    let (out, p, q) = finish-at vs js h.1 in
    (v ∷ out, rw e (rw (p, finish_sample) refl), ap₂ (λ a t. a ∷ t) (sym e) q)

length-some : (vs : List Value) → length (map some vs) ≡ length vs
length-some [] = refl
length-some (v ∷ vs) = ap suc (length-some vs)

-- A sample from a stream of at least as many values as it is to have, and of less than 2 ^ 31: the
-- values emitted at the end are so many as were asked for, and stand at different places of the
-- stream, whatever the numbers of the generator are.
pub finish_sample_lem :
    (random : Seed → ℕ × Seed) (seed : Seed) (memory : List (Option Value)) (vs : List Value)
    → 0 < length memory
    → length memory ≤ length vs
    → length vs < 2 ^ 31
    → (out : List Value) × (places : List ℕ) × (finish_sample
          (sample_all random (sample_new seed memory) vs).samples
        ≡ some out)
      × (map some out ≡ at vs places)
      × Distinct places
      × (length out ≡ length memory)
finish_sample_lem random seed memory vs z h b =
    let len = length memory in
    let s0 : Sampled len [] (sample_new seed memory) = record {
      places = [];
      junk = memory;
      size = refl;
      count = refl;
      kept = refl;
      below = tt;
      distinct = tt;
      shape = (omega arith, omega arith);
    } in
    let s =
      all-Sampled random len [] vs (sample_new seed memory) s0 z (omega arith) (omega arith) in
    let (out, p, q) = finish-at vs s.places s.below in
    let n : s.junk ≡ [] = nil_of_length s.junk (omega (arith, s.shape.0, s.shape.1)) in
    let k = s.kept ∙ ap (λ t. at vs s.places ++ t) n ∙ append-nil (at vs s.places) in
    (
      out,
      s.places,
      ap finish_sample k ∙ p,
      q,
      s.distinct,
      omega (arith, s.shape.0, s.shape.1, length-at vs s.places, ap length q, length-some out),
    )
