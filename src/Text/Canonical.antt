-- ===== src/Text/Canonical.antt =====
-- Interned strings of src/string.c are equal words exactly where their bytes are equal.
use mathlib.Core.Path.{subst}
use streem.Base.{
  ℕ, Bool, true, false, Option, none, some, List, ◌==◌, ◌≡◌, ◌≤◌, ◌<◌, ◌↔◌, inl, inr, refl, sym,
  ◌∙◌, ap, length, leb, if◌then◌else◌, arith, Bool-cases, Option-cases,
}
use streem.Khash.{Khash, added, Laws}
use streem.Text.Intern.{
  Ref, small, owned, foreign, StrMem, with_block, str_new, intern_put, str_intern,
}

module _ {T : Type 0} where
  -- The word r stands for the bytes s.
  abbrev pub Refers : StrMem T → Ref → List ℕ → Type 0
  Refers m (small x) s = (x ≡ s) × (length s ≤ 6)
  Refers m (owned a) s = (6 < length s) × (a < m.next) × (m.bytes a ≡ s)
  Refers m (foreign a) s = (6 < length s) × (a < m.next) × (m.bytes a ≡ s)

  Refers-unique : (m : StrMem T) (r : Ref) (s s' : List ℕ) → Refers m r s → Refers m r s' → s ≡ s'
  Refers-unique m (small x) s s' p q = sym p.0 ∙ q.0
  Refers-unique m (owned a) s s' p q = sym p.2 ∙ q.2
  Refers-unique m (foreign a) s s' p q = sym p.2 ∙ q.2

  -- A later memory keeps the blocks.
  record Later (m m' : StrMem T) : Type 0 where
    grows : m.next ≤ m'.next
    keeps : (a : ℕ) → a < m.next → m'.bytes a ≡ m.bytes a

  Refers-Later :
      (m m' : StrMem T) (r : Ref) (s : List ℕ) → Later m m' → Refers m r s → Refers m' r s
  Refers-Later m m' (small x) s l p = p
  Refers-Later m m' (owned a) s l p = (p.0, omega (arith, p.1, l.grows), l.keeps a p.1 ∙ p.2)
  Refers-Later m m' (foreign a) s l p = (p.0, omega (arith, p.1, l.grows), l.keeps a p.1 ∙ p.2)

  block-Later :
      (m : StrMem T) (s : List ℕ) (t : T) → Later m (record (with_block m s) { table = t })
  block-Later m s t = record {
    grows = omega arith;
    keeps = λ a l. (let e : (a == m.next) ≡ false = ground (arith, l) in rw e refl);
  }

  block-Refers :
      (m : StrMem T) (s : List ℕ) (stays : Bool) (t : T)
      → 6 < length s
      → Refers
          (record (with_block m s) { table = t })
          (if stays then foreign m.next else owned m.next)
          s
  block-Refers m s true t h =
      (h, omega arith, (let e : (m.next == m.next) ≡ true = ground arith in rw e refl))
  block-Refers m s false t h =
      (h, omega arith, (let e : (m.next == m.next) ≡ true = ground arith in rw e refl))

  module _ (eq : List ℕ → List ℕ → Bool) (h : Khash T (List ℕ) Ref) (laws : Laws eq h) where
    -- Every word in the table stands for its key.
    abbrev pub Good : StrMem T → Type 0
    Good m = (s : List ℕ) (r : Ref) → h.get m.table s ≡ some r → Refers m r s

    -- What a call that succeeds leaves: the word stands for the bytes, and is found by them if it is
    -- not small.
    record Interned (m : StrMem T) (s : List ℕ) (r : Ref) (m' : StrMem T) : Type 0 where
      good : Good m'
      later : Later m m'
      refers : Refers m' r s
      found : (6 < length s → h.get m'.table s ≡ some r) × (length s ≤ 6 → r ≡ small s)

    same_word : (p q : Ref × StrMem T) → some p ≡ some q → p.0 ≡ q.0
    same_word p q e = cc e

    intern-small : (m : StrMem T) (s : List ℕ) → Good m → length s ≤ 6 → Interned m s (small s) m
    intern-small m s g l = record {
      good = g;
      later = record { grows = omega arith; keeps = λ a k. refl };
      refers = (refl, l);
      found = (λ k. absurd (omega (arith, k)), λ k. refl);
    }

    intern-present :
        (m : StrMem T) (s : List ℕ) (r : Ref)
        → Good m
        → 6 < length s
        → h.get m.table s ≡ some r
        → Interned m s r m
    intern-present m s r g l e = record {
      good = g;
      later = record { grows = omega arith; keeps = λ a k. refl };
      refers = g s r e;
      found = (λ k. e, λ k. absurd (omega (arith, k)));
    }

    intern-added :
        (m : StrMem T) (s : List ℕ) (r : Ref)
        → Good m
        → 6 < length s
        → h.get m.table s ≡ none
        → (h.put m.table s).0 ≡ added
        → Refers (record (with_block m s) { table = h.assign (h.put m.table s).1 s r }) r s
        → Interned m s r (record (with_block m s) { table = h.assign (h.put m.table s).1 s r })
    intern-added m s r g l n p q =
        let t = (h.put m.table s).1 in
        let get_t : (j : List ℕ)
            → h.get (h.assign t s r) j ≡ (if eq s j then some r else h.get t j) =
          λ j. laws.get-assign t s j r (laws.put-same m.table s p) in
        let m' : StrMem T = record (with_block m s) { table = h.assign t s r } in
        let self : eq s s ≡ true = elim (Bool-cases (eq s s)) [
          | inl e ↦ e
          | inr e ↦ absurd (laws.put-same m.table s p (laws.put-other m.table s s e ∙ n))
        ] in
        let later : Later m m' = block-Later m s (h.assign t s r) in
        record {
          good = λ j x e. elim (Bool-cases (eq s j)) [
            | inl k ↦
                let w : some r ≡ some x =
                  sym (get_t j ∙ ap (λ b. if b then some r else h.get t j) k) ∙ e in
                let z : r ≡ x = cc w in
                subst (λ i. Refers m' x i) (laws.eq-≡ s j k) (subst (λ y. Refers m' y s) z q)
            | inr k ↦
                let w : h.get t j ≡ some x =
                  sym (get_t j ∙ ap (λ b. if b then some r else h.get t j) k) ∙ e in
                Refers-Later m m' x j later (g j x (sym (laws.put-other m.table s j k) ∙ w))
          ];
          later = later;
          refers = q;
          found = (
            λ k. get_t s ∙ ap (λ b. if b then some r else h.get t s) self,
            λ k. absurd (omega (arith, k)),
          );
        }

    same_result :
        (m : StrMem T) (s : List ℕ) (p q : Ref × StrMem T)
        → some p ≡ some q
        → Interned m s p.0 p.1
        → Interned m s q.0 q.1
    same_result m s p q e i = let z : p ≡ q = cc e in subst (λ y. Interned m s y.0 y.1) z i

    added-Interned :
        (m m' : StrMem T) (s : List ℕ) (stays : Bool) (r : Ref)
        → Good m
        → leb (length s) 6 ≡ false
        → h.get m.table s ≡ none
        → (h.put m.table s).0 ≡ added
        → intern_put h m s stays (added, (h.put m.table s).1) ≡ some (r, m')
        → Interned m s r m'
    added-Interned m m' s stays r g k n p e =
        let l : 6 < length s = ground (arith, k) in
        let x = (if stays then foreign m.next else owned m.next) in
        let b = record (with_block m s) { table = h.assign (h.put m.table s).1 s x } in
        let w : str_new m s stays ≡ (x, with_block m s) = rw k refl in
        same_result m s (x, b) (r, m')
          (sym (ap (λ y. some (y.0, record y.1 { table = h.assign (h.put m.table s).1 s y.0 })) w)
            ∙ e)
          (intern-added m s x g l n p (block-Refers m s stays b.table l))

    intern-found :
        (m : StrMem T) (s : List ℕ) (stays : Bool) (x : Ref)
        → leb (length s) 6 ≡ false
        → h.get m.table s ≡ some x
        → str_intern h m s stays ≡ some (x, m)
    unfolding str_intern
    intern-found m s stays x k n =
        rw (k, laws.put-present m.table s x n)
          (ap (λ (o : Option Ref). elim o [ none ↦ none | some y ↦ some (y, m) ]) n)

    small-lem :
        (m : StrMem T) (s : List ℕ) (stays : Bool)
        → leb (length s) 6 ≡ true
        → str_intern h m s stays ≡ some (small s, m)
    unfolding str_intern
    small-lem m s stays k = rw k refl

    intern-absent :
        (m m' : StrMem T) (s : List ℕ) (stays : Bool) (r : Ref)
        → Good m
        → leb (length s) 6 ≡ false
        → h.get m.table s ≡ none
        → intern_put h m s stays (h.put m.table s) ≡ some (r, m')
        → Interned m s r m'
    intern-absent m m' s stays r g k n e = elim (laws.put-absent m.table s n) [
      | inl p ↦
          added-Interned m m' s stays r g k n p
            (ap (λ st. intern_put h m s stays (st, (h.put m.table s).1)) (sym p) ∙ e)
      | inr p ↦
          let w : none ≡ some (r, m') = ap (intern_put h m s stays) (sym p) ∙ e in absurd (cc w)
    ]

    -- Every call of `str_intern` that finds memory.
    str_intern-Interned :
        (m m' : StrMem T) (s : List ℕ) (stays : Bool) (r : Ref)
        → Good m
        → str_intern h m s stays ≡ some (r, m')
        → Interned m s r m'
    unfolding str_intern
    str_intern-Interned m m' s stays r g e = elim (Bool-cases (leb (length s) 6)) [
      | inl k ↦
          same_result m s (small s, m) (r, m') (sym (small-lem m s stays k) ∙ e)
            (intern-small m s g (ground (arith, k)))
      | inr k ↦ elim (Option-cases (h.get m.table s)) [
        | inl n ↦ intern-absent m m' s stays r g k n (
            sym (
              ap
                (λ b.
                  if b then some (str_new m s stays) else intern_put h m s stays (h.put m.table s))
                k)
            ∙ e)
        | inr (x, n) ↦
            same_result m s (x, m) (r, m') (sym (intern-found m s stays x k n) ∙ e)
              (intern-present m s x g (ground (arith, k)) n)
      ]
    ]

    -- Where the program's table of names is sound, two names are the same word exactly if they have
    -- the same bytes, whatever strings they were made from.
    pub str_intern_iff :
        (m m1 m2 : StrMem T) (s1 s2 : List ℕ) (f1 f2 : Bool) (r1 r2 : Ref)
        → Good m
        → str_intern h m s1 f1 ≡ some (r1, m1)
        → str_intern h m1 s2 f2 ≡ some (r2, m2)
        → (r1 ≡ r2) ↔ (s1 ≡ s2)
    str_intern_iff m m1 m2 s1 s2 f1 f2 r1 r2 g e1 e2 =
        let i1 = str_intern-Interned m m1 s1 f1 r1 g e1 in
        let i2 = str_intern-Interned m1 m2 s2 f2 r2 i1.good e2 in
        (
          λ q.
              Refers-unique m2 r2 s1 s2
                (subst (λ x. Refers m2 x s1) q (Refers-Later m1 m2 r1 s1 i2.later i1.refers))
                i2.refers,
          λ q. elim (Bool-cases (leb (length s1) 6)) [
            | inl k ↦
                let l : length s1 ≤ 6 = ground (arith, k) in
                i1.found.1 l ∙ ap small q ∙ sym (i2.found.1 (subst (λ s. length s ≤ 6) q l))
            | inr k ↦
                let l : 6 < length s1 = ground (arith, k) in
                let f : h.get m1.table s2 ≡ some r1 =
                  subst (λ s. h.get m1.table s ≡ some r1) q (i1.found.0 l) in
                same_word (r1, m1) (r2, m2)
                  (sym (intern-found m1 s2 f2 r1 (subst (λ s. leb (length s) 6 ≡ false) q k) f)
                    ∙ e2)
          ],
        )
