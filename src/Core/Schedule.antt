-- ===== src/Core/Schedule.antt =====
-- The streams of src/core.c that have tasks, and the two queues that they wait in.
use streem.Base.{
  ◌≡◌, Bool, true, false, Option, none, some, List, [], ◌∷◌, ◌++◌, if◌then◌else◌, ◌==◌, ◌||◌, ℕ,
  Status, ok, ng, abort, arith, ==_iff, refl,
}
use streem.Value.{Value, nil, nil_p}
use streem.Core.{
  killed_p, dying_p, dying, Callback, closing, Stream, World, with_stream, strm_task_push,
  strm_task_add, emit_dst, emit_rest, emit_data, emit_again, strm_emit, close_rest, close_targets,
  finish_close, is_closed,
}

-- The stream is in the list.
abbrev pub has : ℕ → List ℕ → Bool
has s [] = false
has s (t ∷ l) = (s == t) || has s l

-- The stream has no task, or a worker finds it in one of the two queues.
abbrev pub waits : World → ℕ → Bool
waits w s = elim (w.streams s).tasks [ [] ↦ true | _ ↦ has s w.queue || has s w.prod_queue ]

-- It is so for each stream that the test does not leave out.
abbrev pub IsScheduled : (ℕ → Bool) → World → Type 0
IsScheduled skip w = (s : ℕ) → (skip s || waits w s) ≡ true

has-snoc : (s t : ℕ) (l : List ℕ) → has s (l ++ (t ∷ [])) ≡ (has s l || (s == t))
has-snoc s t [] = ground arith
has-snoc s t (u ∷ l) = ground (arith, has-snoc s t l)

pub push-IsScheduled :
    (skip : ℕ → Bool) (w : World) (s : ℕ) (f : Callback) (v : Value)
    → IsScheduled skip w
    → IsScheduled skip (strm_task_push w s f v)
unfolding strm_task_push strm_task_add
push-IsScheduled skip w s f v i t =
    ground (arith, i t, has-snoc t s w.queue, has-snoc t s w.prod_queue, ==_iff s t, ==_iff t s)

emit_rest-IsScheduled :
    (skip : ℕ → Bool) (w : World) (l : List ℕ) (v : Value)
    → IsScheduled skip w
    → IsScheduled skip (emit_rest w l v)
unfolding emit_rest
emit_rest-IsScheduled skip w [] v i = i
emit_rest-IsScheduled skip w (t ∷ l) v i =
    emit_rest-IsScheduled skip (strm_task_push w t (w.streams t).start_func v) l v
      (push-IsScheduled skip w t _ v i)

close_rest-IsScheduled :
    (skip : ℕ → Bool) (w : World) (l : List ℕ)
    → IsScheduled skip w
    → IsScheduled skip (close_rest w l)
unfolding close_rest
close_rest-IsScheduled skip w [] i = i
close_rest-IsScheduled skip w (t ∷ l) i =
    close_rest-IsScheduled skip (strm_task_push w t closing nil) l
      (push-IsScheduled skip w t _ nil i)

-- A change of a stream that leaves its tasks.
pub same_tasks-IsScheduled :
    (skip : ℕ → Bool) (w : World) (s : ℕ) (x : Stream)
    → x.tasks ≡ (w.streams s).tasks
    → IsScheduled skip w
    → IsScheduled skip (with_stream w s x)
same_tasks-IsScheduled skip w s x e i t = ground (arith, i t, ==_iff s t)

pub if-IsScheduled :
    (skip : ℕ → Bool) (b : Bool) (w w' : World)
    → IsScheduled skip w
    → IsScheduled skip w'
    → IsScheduled skip (if b then w else w')
if-IsScheduled skip true w w' i j = i
if-IsScheduled skip false w w' i j = j

emit_dst-IsScheduled :
    (skip : ℕ → Bool) (w : World) (s : ℕ) (o : Option ℕ) (v : Value)
    → IsScheduled skip w
    → IsScheduled skip (emit_dst w s o v)
unfolding emit_dst
emit_dst-IsScheduled skip w s none v i = i
emit_dst-IsScheduled skip w s (some d) v i =
    let w' = strm_task_push w d (w.streams d).start_func v in
    let j = push-IsScheduled skip w d (w.streams d).start_func v i in
    if-IsScheduled skip (killed_p (w'.streams d).mode) _ w'
      (same_tasks-IsScheduled skip w' s (record (w'.streams s) { dst = none }) refl j) j

emit_again-IsScheduled :
    (skip : ℕ → Bool) (w : World) (s : ℕ) (f : Option Callback)
    → IsScheduled skip w
    → IsScheduled skip (emit_again w s f)
unfolding emit_again
emit_again-IsScheduled skip w s none i = i
emit_again-IsScheduled skip w s (some f) i = push-IsScheduled skip w s f nil i

emit_data-IsScheduled :
    (skip : ℕ → Bool) (w : World) (s : ℕ) (v : Value)
    → IsScheduled skip w
    → IsScheduled skip (emit_data w s v)
unfolding emit_data
emit_data-IsScheduled skip w s v i =
    let w1 = emit_dst w s (w.streams s).dst v in
    emit_rest-IsScheduled skip w1 (w1.streams s).rest v
      (emit_dst-IsScheduled skip w s (w.streams s).dst v i)

pub strm_emit-IsScheduled :
    (skip : ℕ → Bool) (w : World) (s : ℕ) (v : Value) (f : Option Callback)
    → IsScheduled skip w
    → IsScheduled skip (strm_emit w s v f)
unfolding strm_emit
strm_emit-IsScheduled skip w s v f i =
    let w2 = emit_data w s v in
    let j = emit_data-IsScheduled skip w s v i in
    if-IsScheduled skip (dying_p (w.streams s).mode) _ _ i (
      if-IsScheduled skip (nil_p v) _ _ (emit_again-IsScheduled skip w s f i) (
        if-IsScheduled skip (is_closed w2 s) _ _
          (same_tasks-IsScheduled skip w2 s (record (w2.streams s) { mode = dying }) refl j)
          (emit_again-IsScheduled skip w2 s f j)))

close_targets-IsScheduled :
    (skip : ℕ → Bool) (w : World) (o : Option ℕ) (l : List ℕ)
    → IsScheduled skip w
    → IsScheduled skip (close_targets w o l)
unfolding close_targets
close_targets-IsScheduled skip w none l i = close_rest-IsScheduled skip w l i
close_targets-IsScheduled skip w (some d) l i =
    close_rest-IsScheduled skip (strm_task_push w d closing nil) l
      (push-IsScheduled skip w d closing nil i)

pub finish_close-IsScheduled :
    (skip : ℕ → Bool) (w : World) (s : ℕ) (r : Status)
    → IsScheduled skip w
    → IsScheduled skip (finish_close w s r)
unfolding finish_close
finish_close-IsScheduled skip w s ok i =
    close_targets-IsScheduled skip w (w.streams s).dst (w.streams s).rest i
finish_close-IsScheduled skip w s ng i = i
finish_close-IsScheduled skip w s abort i =
    close_targets-IsScheduled skip w (w.streams s).dst (w.streams s).rest i
