-- ===== src/Sort/Sorted.antt =====
-- What the sorting of src/sort.c gives.
use mathlib.Core.List.{Perm}
use mathlib.Core.List.Perm
use streem.Base.{
  ◌≡◌, Bool, true, false, Option, none, some, List, [], ◌∷◌, ◌++◌, All, ap, Option-cases, inl, inr,
  sym, Option-cases, Bool-cases, inl, inr, arith, ℕ, ◌+◌, ◌≤◌, ◌<◌, ◌^◌, length, append-snoc,
  append-nil, ◌∙◌, length-append, ltb, ltb_lt, refl, ◌⊎◌,
}
use streem.Value.{Value, FloatOps, number_p, string_p}
use streem.Sort.{Cmp, flip, at_most, num, text, strm_cmp, float_cmp, str_cmp, sortby_cmp}
use streem.Sort.Order.{str_cmp-lex, lex, lex-flip, lex_trans}
use streem.Sort.Library.{Qsort, Total, Ordered}
use streem.Sort.Stream.{
  Buffer, empty_buffer, grown, iter_sort, iter_sortby, originals, mem_sort, finish_sort,
  finish_sortby,
}
use streem.Sort.Room.{Room, buf-grown, grown-Room, appended-Room, empty-Room}

-- What the comparison of doubles that are no NaN is like.
pub record FloatOrder (fo : FloatOps) (nan : ℕ → Bool) : Type 0 where
  pub asym : (a b : ℕ) → nan a ≡ false → nan b ≡ false → fo.flt a b ≡ true → fo.flt b a ≡ false
  pub le_trans :
      (a b c : ℕ)
      → nan a ≡ false
      → nan b ≡ false
      → nan c ≡ false
      → fo.flt b a ≡ false
      → fo.flt c b ≡ false
      → fo.flt c a ≡ false

-- A number that is no NaN, or a string.
abbrev pub Sortable : FloatOps → (ℕ → Bool) → Value → Type 0
Sortable fo nan v =
    ((number_p v ≡ true) × (nan (num fo v) ≡ false)) ⊎ ((number_p v ≡ false) × (string_p v ≡ true))

module _ (fo : FloatOps) (nan : ℕ → Bool) (law : FloatOrder fo nan) where
  float-flip :
      (a b : ℕ) → nan a ≡ false → nan b ≡ false → float_cmp fo b a ≡ flip (float_cmp fo a b)
  float-flip a b p q = ground (arith, law.asym a b p q, law.asym b a q p)

  float_trans :
      (a b c : ℕ)
      → nan a ≡ false
      → nan b ≡ false
      → nan c ≡ false
      → at_most (float_cmp fo a b) ≡ true
      → at_most (float_cmp fo b c) ≡ true
      → at_most (float_cmp fo a c) ≡ true
  float_trans a b c p q r e f = ground (arith, law.le_trans a b c p q r)

  str-flip : (a b : List ℕ) → str_cmp b a ≡ flip (str_cmp a b)
  str-flip a b = ground (arith, str_cmp-lex a b, str_cmp-lex b a, lex-flip a b)

  str_trans :
      (a b c : List ℕ)
      → at_most (str_cmp a b) ≡ true
      → at_most (str_cmp b c) ≡ true
      → at_most (str_cmp a c) ≡ true
  str_trans a b c p q =
      ground (arith, str_cmp-lex a b, str_cmp-lex b c, str_cmp-lex a c, lex_trans a b c)

  -- Among numbers that are no NaN and strings, `strm_cmp` is a consistent order.
  pub strm_cmp-Total : Total (Sortable fo nan) (strm_cmp fo)
  unfolding strm_cmp
  strm_cmp-Total = record {
    turned =
        λ x y p q. ground (arith, float-flip (num fo x) (num fo y), str-flip (text x) (text y));
    le_trans = λ x y z p q r e f.
        ground (
          arith,
          float_trans (num fo x) (num fo y) (num fo z),
          str_trans (text x) (text y) (text z),
        );
  }

-- The calls of a filter's callback for the values of a stream, in order.
abbrev pub sort_all : Buffer Value → List Value → Option (Buffer Value)
sort_all d [] = some d
sort_all d (v ∷ vs) = elim (iter_sort d v) [ none ↦ none | some d' ↦ sort_all d' vs ]

abbrev pub sortby_all :
    (Value → Option Value) → Buffer (Value × Value) → List Value → Option (Buffer (Value × Value))
sortby_all key d [] = some d
sortby_all key d (v ∷ vs) = elim (iter_sortby key d v) [
  | none ↦ none
  | some r ↦ sortby_all key r.1 vs
]

sort_all-cons :
    (d d1 : Buffer Value) (v : Value) (vs : List Value)
    → iter_sort d v ≡ some d1
    → sort_all d (v ∷ vs) ≡ sort_all d1 vs
sort_all-cons d d1 v vs e = rw (e, sort_all) refl

buf-sort_all :
    (d : Buffer Value) (vs : List Value)
    → Room d
    → length d.buf + length vs ≤ 2 ^ 30
    → (d' : Buffer Value) × (sort_all d vs ≡ some d') × (d'.buf ≡ d.buf ++ vs)
unfolding iter_sort
buf-sort_all d [] r l = (d, refl, sym (append-nil d.buf))
buf-sort_all d (v ∷ vs) r l =
    let (d1, e, r1, b) = appended-Room d v r (omega arith) in
    let n : length d1.buf ≡ length d.buf + 1 = ap length b ∙ length-append d.buf (v ∷ []) in
    let (d2, e2, b2) = buf-sort_all d1 vs r1 (omega arith) in
    (d2, sort_all-cons d d1 v vs e ∙ e2, b2 ∙ ap (λ t. t ++ vs) b ∙ append-snoc d.buf v vs)

-- The order of the values: numbers that are not above one another come before all that is no number,
-- and strings follow byte by byte.
abbrev pub NotAbove : FloatOps → Value → Value → Type 0
NotAbove fo x y =
    ((number_p x ≡ true) × (number_p y ≡ true) × (fo.flt (num fo y) (num fo x) ≡ false))
    ⊎ ((number_p x ≡ true) × (number_p y ≡ false))
    ⊎ ((string_p x ≡ true) × (string_p y ≡ true) × (at_most (lex (text x) (text y)) ≡ true))

abbrev pub Ascending : FloatOps → List Value → Type 0
Ascending fo [] = Unit
Ascending fo (x ∷ xs) = All (NotAbove fo x) xs × Ascending fo xs

strm_cmp-NotAbove :
    (fo : FloatOps) (x y : Value) → at_most (strm_cmp fo x y) ≡ true → NotAbove fo x y
unfolding strm_cmp
strm_cmp-NotAbove fo x y h = elim (Bool-cases (number_p x)) [
  | inl p ↦ elim (Bool-cases (number_p y)) [
    | inl q ↦ inl (p, q, ground (arith, p, q, h))
    | inr q ↦ inr (inl (p, q))
  ]
  | inr p ↦ elim (Bool-cases (string_p x)) [
    | inl q ↦ elim (Bool-cases (string_p y)) [
      | inl r ↦ inr (inr (q, r, ground (arith, p, q, r, h, str_cmp-lex (text x) (text y))))
      | inr r ↦ absurd (ground (arith, p, q, r, h))
    ]
    | inr q ↦ absurd (ground (arith, p, q, h))
  ]
]

All-NotAbove :
    (fo : FloatOps) (x : Value) (ys : List Value)
    → All (λ y. at_most (strm_cmp fo x y) ≡ true) ys
    → All (NotAbove fo x) ys
All-NotAbove fo x [] a = tt
All-NotAbove fo x (y ∷ ys) a = (strm_cmp-NotAbove fo x y a.0, All-NotAbove fo x ys a.1)

Ordered-Ascending : (fo : FloatOps) (ys : List Value) → Ordered (strm_cmp fo) ys → Ascending fo ys
Ordered-Ascending fo [] o = tt
Ordered-Ascending fo (y ∷ ys) o = (All-NotAbove fo y ys o.0, Ordered-Ascending fo ys o.1)

-- With a qsort as documented, and doubles that are ordered but for NaN, a stream of at most 2 ^ 30
-- strings and numbers that are no NaN, sorted without a function, emits these values, each as often,
-- in ascending order: the numbers first, none of them greater than a later one, and then the
-- strings, byte by byte.
pub finish_sort-Ordered :
    (qsort : (A : Type 0) → (A → A → Cmp) → List A → List A) (lib : Qsort qsort) (fo : FloatOps)
    (nan : ℕ → Bool) (law : FloatOrder fo nan) (vs : List Value)
    → length vs ≤ 2 ^ 30
    → All (Sortable fo nan) vs
    → (d : Buffer Value) × (sort_all empty_buffer vs ≡ some d)
      × Perm (finish_sort qsort fo none d) vs
      × Ascending fo (finish_sort qsort fo none d)
unfolding finish_sort mem_sort
finish_sort-Ordered qsort lib fo nan law vs l a =
    let (d, e, b) = buf-sort_all empty_buffer vs (empty-Room Value) (omega arith) in
    (
      d,
      e,
      rw b (lib.permutes (strm_cmp fo) vs),
      rw b (
          Ordered-Ascending fo _
            (lib.sorts (Sortable fo nan) (strm_cmp fo) vs (strm_cmp-Total fo nan law) a)),
    )

-- The values that the function gives a key.
abbrev pub with_key : (Value → Option Value) → List Value → List (Value × Value)
with_key key [] = []
with_key key (v ∷ vs) = elim (key v) [ none ↦ with_key key vs | some k ↦ (k, v) ∷ with_key key vs ]

sortby_all-cons :
    (key : Value → Option Value) (d : Buffer (Value × Value)) (r : Bool × Buffer (Value × Value))
    (v : Value) (vs : List Value)
    → iter_sortby key d v ≡ some r
    → sortby_all key d (v ∷ vs) ≡ sortby_all key r.1 vs
sortby_all-cons key d r v vs e = rw (e, sortby_all) refl

-- A value with a key is written, and one without is dropped.
iter_sortby-none :
    (key : Value → Option Value) (d : Buffer (Value × Value)) (v : Value)
    → (grown d).capa < 2 ^ 31
    → key v ≡ none
    → iter_sortby key d v ≡ some (false, grown d)
unfolding iter_sortby
iter_sortby-none key d v l e =
    let c : ltb (grown d).capa (2 ^ 31) ≡ true = ltb_lt _ _ l in rw c (rw e refl)

iter_sortby-some :
    (key : Value → Option Value) (d : Buffer (Value × Value)) (v k : Value)
    → (grown d).capa < 2 ^ 31
    → key v ≡ some k
    → iter_sortby key d v ≡ some (true, record (grown d) { buf = (grown d).buf ++ ((k, v) ∷ []) })
unfolding iter_sortby
iter_sortby-some key d v k l e =
    let c : ltb (grown d).capa (2 ^ 31) ≡ true = ltb_lt _ _ l in rw c (rw e refl)

with_key-none :
    (key : Value → Option Value) (v : Value) (vs : List Value)
    → key v ≡ none
    → with_key key (v ∷ vs) ≡ with_key key vs
with_key-none key v vs e = rw (e, with_key) refl

with_key-some :
    (key : Value → Option Value) (v k : Value) (vs : List Value)
    → key v ≡ some k
    → with_key key (v ∷ vs) ≡ (k, v) ∷ with_key key vs
with_key-some key v k vs e = rw (e, with_key) refl

buf-sortby_all :
    (key : Value → Option Value) (d : Buffer (Value × Value)) (vs : List Value)
    → Room d
    → length d.buf + length vs ≤ 2 ^ 30
    → (d' : Buffer (Value × Value)) × (sortby_all key d vs ≡ some d')
      × (d'.buf ≡ d.buf ++ with_key key vs)
buf-sortby_all key d [] r l = (d, refl, sym (append-nil d.buf))
buf-sortby_all key d (v ∷ vs) r l =
    let (h, g) = grown-Room d r (omega arith) in
    let b = buf-grown d in
    let c : length (grown d).buf ≡ length d.buf = ap length b in
    elim (Option-cases (key v)) [
      | inl e ↦
          let (d2, e2, b2) = buf-sortby_all key (grown d) vs g (omega arith) in
          (
            d2,
            sortby_all-cons key d _ v vs (iter_sortby-none key d v g.3 e) ∙ e2,
            b2
                ∙ ap (λ t. t ++ with_key key vs) b
                ∙ ap (λ t. d.buf ++ t) (sym (with_key-none key v vs e)),
          )
      | inr (k, e) ↦
          let d1 : Buffer (Value × Value) = record (grown d) {
            buf = (grown d).buf ++ ((k, v) ∷ []);
          } in
          let n = length-append (grown d).buf ((k, v) ∷ []) in
          let r1 : Room d1 = (g.0, omega (arith, n, c, h), omega (arith, n, c, g.2), g.3) in
          let (d2, e2, b2) = buf-sortby_all key d1 vs r1 (omega (arith, n, c)) in
          (
            d2,
            sortby_all-cons key d _ v vs (iter_sortby-some key d v k g.3 e) ∙ e2,
            b2
                ∙ ap (λ t. (t ++ ((k, v) ∷ [])) ++ with_key key vs) b
                ∙ append-snoc d.buf (k, v) (with_key key vs)
                ∙ ap (λ t. d.buf ++ t) (sym (with_key-some key v k vs e)),
          )
    ]

-- With a qsort as documented, a stream of at most 2 ^ 30 values that is sorted by a function emits the
-- values that the function gives a key, each as often, and drops the others.
pub finish_sortby-Perm :
    (qsort : (A : Type 0) → (A → A → Cmp) → List A → List A) (lib : Qsort qsort) (fo : FloatOps)
    (key : Value → Option Value) (vs : List Value)
    → length vs ≤ 2 ^ 30
    → (d : Buffer (Value × Value)) × (sortby_all key empty_buffer vs ≡ some d)
      × Perm (finish_sortby qsort fo d) (originals (with_key key vs))
unfolding finish_sortby
finish_sortby-Perm qsort lib fo key vs l =
    let (d, e, b) = buf-sortby_all key empty_buffer vs (empty-Room (Value × Value)) (omega arith) in
    (d, e, rw b (Perm.map (λ p. p.1) (lib.permutes (sortby_cmp fo) (with_key key vs))))
