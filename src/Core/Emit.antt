-- ===== src/Core/Emit.antt =====
-- `strm_emit` of src/core.c: who gets a value, and when the stream is over.
use streem.Base.{
  ◌≡◌, Bool, false, Option, none, some, List, [], ◌∷◌, ◌++◌, if◌then◌else◌, ◌==◌, ℕ, zero, arith,
  ==_iff, ==_refl, Option-cases, inl, inr, refl,
}
use streem.Value.{Value, nil, nil_p}
use streem.Core.{
  killed_p, dying_p, dying, Callback, Task, Stream, World, emit_data, emit_dst, emit_again,
  all_killed, is_closed, strm_emit,
}
use streem.Core.Push.{
  over, accept, push-streams, copies, count, accept-accept, accept-nil, emit_rest-streams,
}

-- The streams that a stream gives its values to.
abbrev pub targets : Stream → List ℕ
targets x = elim x.dst [ none ↦ x.rest | some d ↦ d ∷ x.rest ]

-- The task that a value is to a stream.
abbrev pub start_task : Stream → Value → Task
start_task x v = record { func = x.start_func; data_of = v }

-- What is left of `dst` after a value went to it.
abbrev pub alive_dst : World → Stream → Option ℕ
alive_dst w x = elim x.dst [
  | none ↦ none
  | some d ↦ if killed_p (w.streams d).mode then none else some d
]

-- Streams that are alike but for `dst`.
record Like (x y : Stream) : Type 0 where
  pub mode : x.mode ≡ y.mode
  pub start : x.start_func ≡ y.start_func
  pub rest : x.rest ≡ y.rest
  pub tasks : x.tasks ≡ y.tasks

emit_dst-streams :
    (w : World) (s t : ℕ) (o : Option ℕ) (v : Value)
    → Like ((emit_dst w s o v).streams t) (
        accept (w.streams t) (
          copies (elim o [ none ↦ zero | some d ↦ count t (d ∷ []) ]) (start_task (w.streams t) v)))
unfolding emit_dst
emit_dst-streams w s t none v =
    let r = accept-nil (w.streams t) in
    record {
      mode = ground arith;
      start = ground arith;
      rest = ground arith;
      tasks = ground (arith, r);
    }
emit_dst-streams w s t (some d) v =
    let r = push-streams w d t (w.streams d).start_func v in
    let r' = push-streams w d s (w.streams d).start_func v in
    record {
      mode = ground (arith, r, r', ==_iff s t, ==_iff d t);
      start = ground (arith, r, r', ==_iff s t, ==_iff d t);
      rest = ground (arith, r, r', ==_iff s t, ==_iff d t);
      tasks = ground (arith, r, r', ==_iff s t, ==_iff d t, accept-nil (w.streams t));
    }

emit_dst-dst :
    (w : World) (s : ℕ) (v : Value)
    → ((emit_dst w s (w.streams s).dst v).streams s).dst ≡ alive_dst w (w.streams s)
unfolding emit_dst
emit_dst-dst w s v = elim (Option-cases (w.streams s).dst) [
  | inl e ↦ ground arith
  | inr (d, e) ↦ ground (
    arith,
    push-streams w d s (w.streams d).start_func v,
    push-streams w d d (w.streams d).start_func v,
    ==_iff d s,
    ==_refl s,
  )
]

abbrev copies_to : World → ℕ → List ℕ → Value → List Task
copies_to w t l v = copies (count t l) (start_task (w.streams t) v)

emit_data-mode :
    (w : World) (s t : ℕ) (v : Value) → ((emit_data w s v).streams t).mode ≡ (w.streams t).mode
unfolding emit_data
emit_data-mode w s t v =
    let w1 = emit_dst w s (w.streams s).dst v in
    let l = emit_dst-streams w s t (w.streams s).dst v in
    ground (arith, emit_rest-streams w1 (w1.streams s).rest t v, l.mode)

emit_dst-rest :
    (w : World) (s : ℕ) (v : Value)
    → ((emit_dst w s (w.streams s).dst v).streams s).rest ≡ (w.streams s).rest
emit_dst-rest w s v = let l = emit_dst-streams w s s (w.streams s).dst v in ground (arith, l.rest)

emit_data-dst :
    (w : World) (s : ℕ) (v : Value)
    → (((emit_data w s v).streams s).dst ≡ alive_dst w (w.streams s))
      × (((emit_data w s v).streams s).rest ≡ (w.streams s).rest)
unfolding emit_data
emit_data-dst w s v =
    let w1 = emit_dst w s (w.streams s).dst v in
    let r = emit_rest-streams w1 (w1.streams s).rest s v in
    (ground (arith, r, emit_dst-dst w s v), ground (arith, r, emit_dst-rest w s v))

count-targets :
    (w : World) (s t : ℕ) (v : Value)
    → copies_to w t (targets (w.streams s)) v
      ≡ copies
          (elim (w.streams s).dst [ none ↦ zero | some d ↦ count t (d ∷ []) ])
          (start_task (w.streams t) v)
        ++ copies_to w t (w.streams s).rest v
count-targets w s t v = elim (Option-cases (w.streams s).dst) [
  | inl e ↦ ground arith
  | inr (d, e) ↦ ground (arith, ==_iff d t)
]

emit_data-tasks :
    (w : World) (s t : ℕ) (v : Value)
    → ((emit_data w s v).streams t).tasks
      ≡ (accept (w.streams t) (copies_to w t (targets (w.streams s)) v)).tasks
unfolding emit_data
emit_data-tasks w s t v =
    let w1 = emit_dst w s (w.streams s).dst v in
    let l = emit_dst-streams w s t (w.streams s).dst v in
    let c =
      copies (elim (w.streams s).dst [ none ↦ zero | some d ↦ count t (d ∷ []) ])
        (start_task (w.streams t) v) in
    ground (
      arith,
      emit_rest-streams w1 (w1.streams s).rest t v,
      emit_dst-rest w s v,
      l.mode,
      l.tasks,
      l.start,
      count-targets w s t v,
      accept-accept (w.streams t) c (copies_to w t (w.streams s).rest v),
    )

all_killed-emit_data :
    (w : World) (s : ℕ) (v : Value) (l : List ℕ) → all_killed (emit_data w s v) l ≡ all_killed w l
all_killed-emit_data w s v [] = refl
all_killed-emit_data w s v (t ∷ l) =
    ground (arith, emit_data-mode w s t v, all_killed-emit_data w s v l)

-- No stream is left to emit to: `dst` is NULL or killed, and so is every stream of `rest`.
abbrev pub no_target : World → ℕ → Bool
no_target w s = elim (alive_dst w (w.streams s)) [
  | none ↦ all_killed w (w.streams s).rest
  | some d ↦ false
]

is_closed-emit_data :
    (w : World) (s : ℕ) (v : Value) → is_closed (emit_data w s v) s ≡ no_target w s
is_closed-emit_data w s v =
    ground (arith, emit_data-dst w s v, all_killed-emit_data w s v (w.streams s).rest)

emit_again-streams :
    (w : World) (s t : ℕ) (f : Option Callback)
    → (((emit_again w s f).streams t).mode ≡ (w.streams t).mode)
      × ((s == t) ≡ false → (emit_again w s f).streams t ≡ w.streams t)
unfolding emit_again
emit_again-streams w s t none = (refl, λ _. refl)
emit_again-streams w s t (some f) =
    let r = push-streams w s t f nil in (ground (arith, r), λ n. ground (arith, r, n))

-- `strm_emit` of a value other than nil, from a stream that is not dying: every other stream gets
-- the value as a task of its start function once for each time that it is among the targets,
-- behind the tasks it has, unless it is dying or killed, when its tasks stay.
pub strm_emit_tasks :
    (w : World) (s t : ℕ) (v : Value) (f : Option Callback)
    → dying_p (w.streams s).mode ≡ false
    → nil_p v ≡ false
    → (s == t) ≡ false
    → ((strm_emit w s v f).streams t).tasks ≡ (
        if over (w.streams t)
        then (w.streams t).tasks
        else (w.streams t).tasks
          ++ copies (count t (targets (w.streams s))) (start_task (w.streams t) v))
unfolding strm_emit
strm_emit_tasks w s t v f d n o =
    let w2 = emit_data w s v in
    let a = (emit_again-streams w2 s t f).1 o in ground (arith, emit_data-tasks w s t v, a)

-- `strm_emit` of a value other than nil, from a stream that is not dying: the stream is dying
-- afterwards where no target is left, `dst` being NULL or killed and each stream of `rest` killed,
-- and has the mode it had otherwise.
pub strm_emit_mode :
    (w : World) (s : ℕ) (v : Value) (f : Option Callback)
    → dying_p (w.streams s).mode ≡ false
    → nil_p v ≡ false
    → ((strm_emit w s v f).streams s).mode ≡ (if no_target w s then dying else (w.streams s).mode)
unfolding strm_emit
strm_emit_mode w s v f d n =
    let w2 = emit_data w s v in
    ground (
      arith,
      emit_data-mode w s s v,
      (emit_again-streams w2 s s f).0,
      is_closed-emit_data w s v,
      ==_refl s,
    )
