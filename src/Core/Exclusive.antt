-- ===== src/Core/Exclusive.antt =====
-- One worker at a time in a stream: the flag `excl` of src/core.c.
use streem.Base.{
  ◌≡◌, refl, Bool, true, false, List, [], ◌∷◌, ◌==◌, ℕ, zero, suc, arith, ==_iff, list_case,
  if_case_eq, Bool-cases, inl, inr,
}
use streem.Core.Workers.{
  pushed, Place, asking, looking, checking, stopped, picked, running, leaving, Threads, Effect,
  write, add_tasks, goes, run_step, step, interleave,
}

-- A worker that has taken the flag of a stream and not given it back.
abbrev pub holds : Place → ℕ → Bool
holds (running s) t = s == t
holds (leaving s) t = s == t
holds _ t = false

-- A flag that is taken is set, and no two workers have taken the same one.
pub record IsExclusive (w : Threads) : Type 0 where
  pub set : (u s : ℕ) → holds (w.place u) s ≡ true → w.excl s ≡ true
  pub alone : (u v s : ℕ) → holds (w.place u) s ≡ true → holds (w.place v) s ≡ true → u ≡ v

module _ (producer : ℕ → Bool) where
  -- A step to a place that holds nothing it did not hold.
  goes_on :
      (w : Threads) (u : ℕ) (p : Place)
      → ((s : ℕ) → holds p s ≡ true → holds (w.place u) s ≡ true)
      → IsExclusive w
      → IsExclusive (goes producer w u p)
  goes_on w u p f x = record {
    set = λ v s h. elim (Bool-cases (u == v)) [
      | inl e ↦ ground (arith, ==_iff u v, f s, x.set u s)
      | inr e ↦ ground (arith, x.set v s)
    ];
    alone = λ v t s h k. elim (Bool-cases (u == v)) [
      | inl a ↦ elim (Bool-cases (u == t)) [
        | inl b ↦ ground (arith, ==_iff u v, ==_iff u t)
        | inr b ↦ ground (arith, ==_iff u v, f s, x.alone u t s)
      ]
      | inr a ↦ elim (Bool-cases (u == t)) [
        | inl b ↦ ground (arith, ==_iff u t, f s, x.alone v u s)
        | inr b ↦ ground (arith, x.alone v t s)
      ]
    ];
  }

  add_tasks-place : (w : Threads) (ss : List ℕ) → (add_tasks producer w ss).place ≡ w.place
  add_tasks-place w [] = refl
  add_tasks-place w (s ∷ ss) = ground (arith, add_tasks-place (pushed producer w s) ss)

  add_tasks-excl : (w : Threads) (ss : List ℕ) → (add_tasks producer w ss).excl ≡ w.excl
  add_tasks-excl w [] = refl
  add_tasks-excl w (s ∷ ss) = ground (arith, add_tasks-excl (pushed producer w s) ss)

  -- The flag is taken by a worker that finds it clear.
  taken :
      (w : Threads) (u s : ℕ)
      → w.excl s ≡ false
      → IsExclusive w
      → IsExclusive (goes producer (record w { excl = write w.excl s true }) u (running s))
  taken w u s a x = record {
    set = λ v t h. elim (Bool-cases (u == v)) [
      | inl b ↦ ground (arith, b, h)
      | inr b ↦ ground (arith, b, h, x.set v t)
    ];
    alone = λ v v' t h k. elim (Bool-cases (u == v)) [
      | inl b ↦ elim (Bool-cases (u == v')) [
        | inl c ↦ ground (arith, ==_iff u v, ==_iff u v')
        | inr c ↦ ground (arith, b, c, h, k, ==_iff s t, x.set v' t)
      ]
      | inr b ↦ elim (Bool-cases (u == v')) [
        | inl c ↦ ground (arith, b, c, h, k, ==_iff s t, x.set v t)
        | inr c ↦ ground (arith, b, c, h, k, x.alone v v' t)
      ]
    ];
  }

  -- The flag is given back by the worker that took it.
  given_back :
      (w : Threads) (u s : ℕ)
      → w.place u ≡ leaving s
      → IsExclusive w
      → IsExclusive (goes producer (record w { excl = write w.excl s false }) u checking)
  given_back w u s q x =
      let own : holds (w.place u) s ≡ true = ground (arith, q, ==_iff s s) in
      record {
        set = λ v t h. elim (Bool-cases (u == v)) [
          | inl b ↦ ground (arith, b, h)
          | inr b ↦ ground (arith, b, h, x.set v t, ==_iff s t, ==_iff u v, x.alone u v s own)
        ];
        alone = λ v v' t h k. elim (Bool-cases (u == v)) [
          | inl b ↦ ground (arith, b, h)
          | inr b ↦ elim (Bool-cases (u == v')) [
            | inl c ↦ ground (arith, c, k)
            | inr c ↦ ground (arith, b, c, h, k, x.alone v v' t)
          ]
        ];
      }

  run-IsExclusive :
      (w : Threads) (u s n : ℕ) (e : Effect)
      → w.place u ≡ running s
      → IsExclusive w
      → IsExclusive (run_step producer w u s n e)
  run-IsExclusive w u s zero e q x = goes_on w u (leaving s) (λ t h. ground (arith, q, h)) x
  run-IsExclusive w u s (suc n) e q x =
      let w1 : Threads = record w { waiting = write w.waiting s n } in
      record {
        set = λ v t h.
            ground (arith, add_tasks-place w1 e.pushes, add_tasks-excl w1 e.pushes, x.set v t);
        alone = λ v v' t h k. ground (arith, add_tasks-place w1 e.pushes, x.alone v v' t);
      }

  step-IsExclusive :
      (w : Threads) (u : ℕ) (p : Place) (e : Effect)
      → w.place u ≡ p
      → IsExclusive w
      → IsExclusive (step producer w u p e)
  unfolding step
  step-IsExclusive w u asking e q x =
      list_case IsExclusive w.queue _ _ (goes_on w u looking (λ s h. ground arith) x) (λ s ss.
        goes_on (record w { queue = ss }) u (picked s) (λ t h. ground arith)
          (record { set = x.set; alone = x.alone }))
  step-IsExclusive w u looking e q x =
      list_case IsExclusive w.prod_queue _ _ (goes_on w u checking (λ s h. ground arith) x) (λ s ss.
        goes_on (record w { prod_queue = ss }) u (picked s) (λ t h. ground arith)
          (record { set = x.set; alone = x.alone }))
  step-IsExclusive w u checking e q x = goes_on w u _ (λ s h. ground arith) x
  step-IsExclusive w u stopped e q x = x
  step-IsExclusive w u (picked s) e q x =
      if_case_eq IsExclusive (w.excl s) _ _ (λ a. goes_on w u checking (λ t h. ground arith) x)
        (λ a. taken w u s a x)
  step-IsExclusive w u (running s) e q x = run-IsExclusive w u s (w.waiting s) e q x
  step-IsExclusive w u (leaving s) e q x = given_back w u s q x

  -- However the steps of the workers interleave, and whatever the tasks add, no two workers are at once
  -- in the tasks of one stream, if none was at the start.
  pub interleave-IsExclusive :
      (w : Threads) (es : List (ℕ × Effect))
      → IsExclusive w
      → IsExclusive (interleave producer w es)
  unfolding interleave
  interleave-IsExclusive w [] x = x
  interleave-IsExclusive w ((u, e) ∷ es) x =
      interleave-IsExclusive (step producer w u (w.place u) e) es
        (step-IsExclusive w u (w.place u) e refl x)
