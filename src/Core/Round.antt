-- ===== src/Core/Round.antt =====
-- A round of `task_loop` of src/core.c, and the streams that wait in the queues after it.
use streem.Base.{
  ◌≡◌, Bool, false, not, Option, none, some, List, [], ◌∷◌, ◌==◌, ◌&&◌, ℕ, zero, suc, Status, arith,
  ==_iff, Option-cases, Bool-cases, inl, inr, refl, i32_dec, i32_negative, ap,
}
use streem.Value.{Value, nil}
use streem.Core.{
  killed_p, killed, dying_p, Callback, closing, user, Task, World, run_close, strm_stream_close,
  task_exec, run_tasks, mark_killed, run_task, task_round, tasks_from, take_task, next_stream,
}
use streem.Core.Schedule.{
  IsScheduled, same_tasks-IsScheduled, if-IsScheduled, finish_close-IsScheduled,
}

module _ (callback : ℕ → World → ℕ → Value → Status × World)
    (keeps : (skip : ℕ → Bool) (f : ℕ) (w : World) (s : ℕ) (v : Value)
      → IsScheduled skip w
      → IsScheduled skip (callback f w s v).1) where
  run_close-IsScheduled :
      (skip : ℕ → Bool) (w : World) (s : ℕ) (c : Option ℕ)
      → IsScheduled skip w
      → IsScheduled skip (run_close callback w s c).1
  unfolding run_close
  run_close-IsScheduled skip w s none i =
      same_tasks-IsScheduled skip w s (record (w.streams s) { has_data = false }) refl i
  run_close-IsScheduled skip w s (some c) i = keeps skip c w s nil i

  pub close-IsScheduled :
      (skip : ℕ → Bool) (w : World) (s : ℕ)
      → IsScheduled skip w
      → IsScheduled skip (strm_stream_close callback w s)
  unfolding strm_stream_close
  close-IsScheduled skip w s i =
      let x = w.streams s in
      let n = i32_dec x.refcnt in
      let killed_x = record x { refcnt = n; mode = killed } in
      let j = same_tasks-IsScheduled skip w s killed_x refl i in
      let r = run_close callback (mark_killed w s) s x.close_func in
      if-IsScheduled skip (killed_p x.mode) _ _ i (
        if-IsScheduled skip (not (i32_negative n) && not (n == 0)) _ _
          (same_tasks-IsScheduled skip w s (record x { refcnt = n }) refl i)
          (finish_close-IsScheduled skip r.1 s r.0
            (run_close-IsScheduled skip (mark_killed w s) s x.close_func j)))

  run_task-IsScheduled :
      (skip : ℕ → Bool) (w : World) (s : ℕ) (f : Callback) (v : Value)
      → IsScheduled skip w
      → IsScheduled skip (run_task callback w s f v)
  unfolding run_task
  run_task-IsScheduled skip w s (user f) v i = keeps skip f w s v i
  run_task-IsScheduled skip w s closing v i = close-IsScheduled skip w s i

  task_exec-IsScheduled :
      (skip : ℕ → Bool) (w : World) (s : ℕ) (t : Task)
      → IsScheduled skip w
      → IsScheduled skip (task_exec callback w s t)
  unfolding task_exec
  task_exec-IsScheduled skip w s t i =
      let w1 = run_task callback w s t.func t.data_of in
      let j = run_task-IsScheduled skip w s t.func t.data_of i in
      if-IsScheduled skip (killed_p (w.streams s).mode) _ _ i
        (if-IsScheduled skip (dying_p (w1.streams s).mode) _ _ (close-IsScheduled skip w1 s j) j)

  -- Left out is s alone.
  abbrev but : ℕ → ℕ → Bool
  but s t = s == t

  take_task-but :
      (w : World) (s : ℕ) (ts : List Task)
      → IsScheduled (but s) w
      → IsScheduled (but s) (take_task w s ts)
  unfolding take_task
  take_task-but w s ts i t = ground (arith, i t)

  tasks_from-but :
      (fuel : ℕ) (w w' : World) (s : ℕ) (ts : List Task)
      → (w.streams s).tasks ≡ ts
      → IsScheduled (but s) w
      → tasks_from callback fuel w s ts ≡ some w'
      → IsScheduled (λ t. false) w'
  unfolding tasks_from
  tasks_from-but fuel w w' s [] c i e =
      let p : w ≡ w' = ap (λ o. elim o [ none ↦ w | some x ↦ x ]) e in
      rw (← p) (λ t. elim (Bool-cases (s == t)) [
        | inl y ↦ ground (arith, ==_iff s t, c)
        | inr n ↦ ground (arith, i t, n)
      ])
  tasks_from-but zero w w' s (t ∷ ts) c i e = ground arith
  tasks_from-but (suc fuel) w w' s (t ∷ ts) c i e =
      let w1 = task_exec callback (take_task w s ts) s t in
      tasks_from-but fuel w1 w' s (w1.streams s).tasks refl
        (task_exec-IsScheduled (but s) (take_task w s ts) s t (take_task-but w s ts i)) e

  next_stream-but :
      (w w' : World) (s : ℕ) (q p : List ℕ)
      → w.queue ≡ q
      → w.prod_queue ≡ p
      → next_stream w q p ≡ some (s, w')
      → IsScheduled (λ t. false) w
      → IsScheduled (but s) w'
  unfolding next_stream
  next_stream-but w w' s (u ∷ q) p c d e i =
      let a : u ≡ s = ap (λ o. elim o [ none ↦ u | some x ↦ x.0 ]) e in
      let b : record w { queue = q } ≡ w' = ap (λ o. elim o [ none ↦ w' | some x ↦ x.1 ]) e in
      rw (← b, ← a) (λ t. ground (arith, i t, c, ==_iff u t, ==_iff t u))
  next_stream-but w w' s [] (u ∷ p) c d e i =
      let a : u ≡ s = ap (λ o. elim o [ none ↦ u | some x ↦ x.0 ]) e in
      let b : record w { prod_queue = p } ≡ w' = ap (λ o. elim o [ none ↦ w' | some x ↦ x.1 ]) e in
      rw (← b, ← a) (λ t. ground (arith, i t, d, ==_iff u t, ==_iff t u))
  next_stream-but w w' s [] [] c d e i = ground arith

  -- While no other worker holds a stream, as where there is one worker alone, a round of `task_loop`
  -- that comes to its end leaves no task behind: if each stream with a task was in a queue, each stream
  -- with a task is in a queue again. The callbacks are to keep that.
  pub task_round-IsScheduled :
      (held : ℕ → Bool) (fuel : ℕ) (w w' : World)
      → ((s : ℕ) → held s ≡ false)
      → IsScheduled (λ t. false) w
      → task_round callback held fuel w ≡ some w'
      → IsScheduled (λ t. false) w'
  unfolding task_round run_tasks
  task_round-IsScheduled held fuel w w' free i e =
      elim (Option-cases (next_stream w w.queue w.prod_queue)) [
        | inl n ↦
            let q : some w ≡ some w' = ground arith in
            let p : w ≡ w' = ap (λ o. elim o [ none ↦ w | some x ↦ x ]) q in rw (← p) i
        | inr ((s, w1), n) ↦
            tasks_from-but fuel w1 w' s (w1.streams s).tasks refl
              (next_stream-but w w1 s w.queue w.prod_queue refl refl n i) (ground (arith, free s))
      ]
