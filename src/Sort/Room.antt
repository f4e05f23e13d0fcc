-- ===== src/Sort/Room.antt =====
-- The memory of the buffers of src/sort.c.
use streem.Base.{
  ◌≡◌, true, some, [], ◌∷◌, ◌++◌, ap, inl, inr, ◌%◌, Bool-cases, arith, ◌+◌, ◌*◌, ◌≤◌, ◌<◌, ◌^◌,
  length, length-append, leb, ltb, ltb_lt, refl,
}
use streem.Value.{Value}
use streem.Sort.Stream.{Buffer, empty_buffer, grown, appended, iter_sort}

-- What has room for one more element than `buf` has, with a capacity that an int32_t holds.
abbrev pub Room : {A : Type 0} → Buffer A → Type 0
Room d =
    (1024 ≤ d.capa)
    × (length d.buf ≤ d.capa)
    × (d.capa ≤ 1024 + 2 * length d.buf)
    × (d.capa < 2 ^ 31)

pub buf-grown : {A : Type 0} (d : Buffer A) → (grown d).buf ≡ d.buf
buf-grown d = ground arith

pub grown-Room :
    {A : Type 0} (d : Buffer A)
    → Room d
    → length d.buf < 2 ^ 30
    → (length d.buf < (grown d).capa) × Room (grown d)
grown-Room d r l =
    let p = r.0 in
    let q = r.1 in
    let u = r.2 in
    let x = r.3 in
    elim (Bool-cases (leb d.capa (length d.buf))) [
      | inl e ↦
          let m : d.capa ≤ length d.buf = ground arith in
          let w : (d.capa * 2) % 2 ^ 32 ≡ d.capa * 2 = omega arith in
          rw (e, w) (omega arith, (omega arith, omega arith, omega arith, omega arith))
      | inr e ↦ let m : length d.buf < d.capa = ground arith in rw e (m, r)
    ]

pub appended-Room :
    {A : Type 0} (d : Buffer A) (x : A)
    → Room d
    → length d.buf < 2 ^ 30
    → (d' : Buffer A) × (appended (grown d) x ≡ some d') × Room d' × (d'.buf ≡ d.buf ++ (x ∷ []))
appended-Room d x r l =
    let (g, w) = grown-Room d r l in
    let e : ltb (grown d).capa (2 ^ 31) ≡ true = ltb_lt _ _ w.3 in
    let b = buf-grown d in
    let n = length-append (grown d).buf (x ∷ []) in
    let c : length (grown d).buf ≡ length d.buf = ap length b in
    (
      record (grown d) { buf = (grown d).buf ++ (x ∷ []) },
      rw e refl,
      (w.0, omega (arith, n, c, g), omega (arith, n, c, w.2), w.3),
      ap (λ t. t ++ (x ∷ [])) b,
    )

pub empty-Room : (A : Type 0) → Room (empty_buffer {A = A})
empty-Room A = (omega arith, omega arith, omega arith, omega arith)

-- Before a stream to sort has had 2 ^ 30 values, each is written within the memory of the buffer,
-- and the buffer keeps the room for what it has.
pub iter_sort-Room :
    (d : Buffer Value) (v : Value)
    → Room d
    → length d.buf < 2 ^ 30
    → (length d.buf < (grown d).capa)
      × ((d' : Buffer Value) × (iter_sort d v ≡ some d') × Room d' × (d'.buf ≡ d.buf ++ (v ∷ [])))
unfolding iter_sort
iter_sort-Room d v r l = ((grown-Room d r l).0, appended-Room d v r l)
