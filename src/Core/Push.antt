-- ===== src/Core/Push.antt =====
-- What `strm_task_push` of src/core.c changes.
use streem.Base.{
  ◌≡◌, Bool, Option, none, some, List, [], ◌∷◌, ◌++◌, if◌then◌else◌, ◌==◌, ◌||◌, ℕ, arith, ==_iff,
  append-nil, append_assoc, zero, suc, sym, ◌∙◌, refl,
}
use streem.Value.{Value, nil}
use streem.Core.{
  killed_p, dying_p, Callback, Task, Stream, World, strm_task_add, strm_task_push, emit_rest,
  close_rest, closing, close_targets,
}

-- The tasks that a push of the list of tasks leaves to a stream: none if it is over.
abbrev pub over : Stream → Bool
over x = killed_p x.mode || dying_p x.mode

abbrev pub accept : Stream → List Task → Stream
accept x ts = if over x then x else record x { tasks = x.tasks ++ ts }

pub push-streams :
    (w : World) (s t : ℕ) (f : Callback) (v : Value)
    → (strm_task_push w s f v).streams t ≡ (
        if s == t
        then accept (w.streams t) (record { func = f; data_of = v } ∷ [])
        else w.streams t)
unfolding strm_task_push strm_task_add
push-streams w s t f v = ground (arith, ==_iff s t)

-- n times the same task.
abbrev pub copies : ℕ → Task → List Task
copies zero t = []
copies (suc n) t = t ∷ copies n t

abbrev pub count : ℕ → List ℕ → ℕ
count t [] = zero
count t (s ∷ l) = if s == t then suc (count t l) else count t l

pub accept-nil : (x : Stream) → accept x [] ≡ x
accept-nil x = ground (arith, append-nil x.tasks)

pub accept-accept : (x : Stream) (a b : List Task) → accept (accept x a) b ≡ accept x (a ++ b)
accept-accept x a b = ground (arith, append_assoc x.tasks a b)

pub emit_rest-streams :
    (w : World) (ts : List ℕ) (t : ℕ) (v : Value)
    → (emit_rest w ts v).streams t
      ≡ accept
          (w.streams t)
          (copies (count t ts) (record { func = (w.streams t).start_func; data_of = v }))
unfolding emit_rest
emit_rest-streams w [] t v = sym (accept-nil (w.streams t))
emit_rest-streams w (s ∷ ts) t v =
    let w1 = strm_task_push w s (w.streams s).start_func v in
    let k : Task = record { func = (w.streams t).start_func; data_of = v } in
    ground (
      arith,
      emit_rest-streams w1 ts t v,
      push-streams w s t (w.streams s).start_func v,
      ==_iff s t,
      accept-accept (w.streams t) (k ∷ []) (copies (count t ts) k),
    )

pub close_rest-streams :
    (w : World) (ts : List ℕ) (t : ℕ)
    → (close_rest w ts).streams t
      ≡ accept (w.streams t) (copies (count t ts) (record { func = closing; data_of = nil }))
unfolding close_rest
close_rest-streams w [] t = sym (accept-nil (w.streams t))
close_rest-streams w (s ∷ ts) t =
    let k : Task = record { func = closing; data_of = nil } in
    ground (
      arith,
      close_rest-streams (strm_task_push w s closing nil) ts t,
      push-streams w s t closing nil,
      ==_iff s t,
      accept-accept (w.streams t) (k ∷ []) (copies (count t ts) k),
    )

pub push-stream_count :
    (w : World) (s : ℕ) (f : Callback) (v : Value)
    → (strm_task_push w s f v).stream_count ≡ w.stream_count
unfolding strm_task_push strm_task_add
push-stream_count w s f v = ground arith

pub close_rest-stream_count :
    (w : World) (ts : List ℕ) → (close_rest w ts).stream_count ≡ w.stream_count
unfolding close_rest
close_rest-stream_count w [] = refl
close_rest-stream_count w (s ∷ ts) =
    close_rest-stream_count (strm_task_push w s closing nil) ts ∙ push-stream_count w s closing nil

pub close_targets-streams :
    (w : World) (o : Option ℕ) (l : List ℕ) (t : ℕ)
    → ((close_targets w o l).streams t
        ≡ accept (w.streams t) (
            copies
              (count t (elim o [ none ↦ l | some d ↦ d ∷ l ]))
              (record { func = closing; data_of = nil })))
      × ((close_targets w o l).stream_count ≡ w.stream_count)
unfolding close_targets
close_targets-streams w none l t = (close_rest-streams w l t, close_rest-stream_count w l)
close_targets-streams w (some d) l t =
    let w' = strm_task_push w d closing nil in
    let k : Task = record { func = closing; data_of = nil } in
    (
      ground (
        arith,
        close_rest-streams w' l t,
        push-streams w d t closing nil,
        ==_iff d t,
        accept-accept (w.streams t) (k ∷ []) (copies (count t l) k),
      ),
      close_rest-stream_count w' l ∙ push-stream_count w d closing nil,
    )
