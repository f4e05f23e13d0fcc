-- ===== src/Iter.antt =====
-- The stream iterators of src/iter.c: what each callback does with one value, and a stream's run
-- over the values that reach it, as `task_exec` and `task_loop` of src/core.c make it.
mod Tests
pub mod Map
pub mod Best
pub mod Fold
pub mod Window
pub mod Cut
pub mod Consec
pub mod Bound
pub mod Source
use streem.Base.{
  ℕ, Bool, true, false, Option, none, some, List, [], ◌∷◌, ◌++◌, Status, ok, ng, abort,
  if◌then◌else◌, ◌≡◌, refl, arith, append-nil, append_assoc, ◌≢◌, ap, ◌∙◌,
}
use streem.Value.{Value}
use Prim.Native.String.{String}

-- What one call of a callback did: the stream's new data, the values given to `strm_emit` in order,
-- whether the callback asked to be called again (`strm_emit(strm, v, itself)`), whether it called
-- `strm_stream_close(strm)`, the message of `strm_raise`, and the status that it returned.
pub record Out (D : Type 0) : Type 0 where
  pub state : D
  pub emits : List Value
  pub again : Bool
  pub closed : Bool
  pub raised : Option String
  pub status : Status

abbrev pub emitting : {D : Type 0} → D → List Value → Out D
emitting d vs = record {
  state = d;
  emits = vs;
  again = false;
  closed = false;
  raised = none;
  status = ok;
}

abbrev pub quiet : {D : Type 0} → D → Out D
quiet d = emitting d []

-- `return STRM_NG`, with nothing emitted by the callback itself.
abbrev pub failing : {D : Type 0} → D → Out D
failing d = record (quiet d) { status = ng }

abbrev pub raising : {D : Type 0} → D → String → Out D
raising d m = record (quiet d) { raised = some m; status = ng }

-- A failed `assert`.
abbrev pub aborting : {D : Type 0} → D → Out D
aborting d = record (quiet d) { status = abort }

-- What a constructor such as `exec_take` makes of its arguments: a stream's data, or a message.
pub data Made (D : Type 0) : Type 0 where
  made : D → Made D
  refused : String → Made D

-- How a run over some input ended: the stream takes more, or is closed, or the process is gone.
pub data End : Type 0 where
  running stopped aborted : End

pub record Ran (D : Type 0) : Type 0 where
  pub state : D
  pub emits : List Value
  pub end : End

-- `task_exec`: a stream that was closed (mode `strm_killed`) gets no further task; a status
-- `STRM_NG` is printed at most, and the next task follows.
unfoldable pub next : {D : Type 0} → Out D → Ran D → Ran D
next o rest = elim o.status [
  | abort ↦ record { state = o.state; emits = o.emits; end = aborted }
  | _ ↦
      if o.closed
      then record { state = o.state; emits = o.emits; end = stopped }
      else record rest { emits = o.emits ++ rest.emits }
]

unfoldable pub run : {D : Type 0} → (D → Value → Out D) → D → List Value → Ran D
unfolding next
run f d [] = record { state = d; emits = []; end = running }
run f d (x ∷ xs) = next (f d x) (run f (f d x).state xs)

-- The close callback runs when upstream closes, if the stream has not closed itself.
unfoldable pub finishing : {D : Type 0} → (D → Out D) → Ran D → List Value
finishing finish r = r.emits ++ elim r.end [ running ↦ (finish r.state).emits | _ ↦ [] ]

-- What a filter sends on over a whole input.
unfoldable pub drain :
    {D : Type 0} → (D → Value → Out D) → (D → Out D) → D → List Value → List Value
unfolding finishing run
drain f finish d xs = finishing finish (run f d xs)

next_go :
    {D : Type 0} (o : Out D) (rest : Ran D)
    → o.closed ≡ false
    → o.status ≡ ok
    → next o rest ≡ record rest { emits = o.emits ++ rest.emits }
unfolding next
next_go o rest c s = ground arith

-- A step that neither closes nor fails puts its values in front of what follows.
pub run-cons :
    {D : Type 0} (f : D → Value → Out D) (d : D) (x : Value) (xs : List Value)
    → (f d x).closed ≡ false
    → (f d x).status ≡ ok
    → run f d (x ∷ xs)
      ≡ record (run f (f d x).state xs) { emits = (f d x).emits ++ (run f (f d x).state xs).emits }
run-cons f d x xs c s = unfold run in next_go (f d x) (run f (f d x).state xs) c s

pub drain-cons :
    {D : Type 0} (f : D → Value → Out D) (finish : D → Out D) (d : D) (x : Value) (xs : List Value)
    → (f d x).closed ≡ false
    → (f d x).status ≡ ok
    → drain f finish d (x ∷ xs) ≡ (f d x).emits ++ drain f finish (f d x).state xs
drain-cons f finish d x xs c s =
    unfold drain finishing in
    ap (finishing finish) (run-cons f d x xs c s)
    ∙ append_assoc (f d x).emits (run f (f d x).state xs).emits _

-- The same, for a step that is known.
pub drain-step :
    {D : Type 0} (f : D → Value → Out D) (finish : D → Out D) (d e : D) (x : Value)
    (vs xs : List Value)
    → f d x ≡ emitting e vs
    → drain f finish d (x ∷ xs) ≡ vs ++ drain f finish e xs
drain-step f finish d e x vs xs h =
    let g = drain-cons f finish d x xs (ap (λ o. o.closed) h) (ap (λ o. o.status) h) in
    g ∙ ap (λ o. o.emits ++ drain f finish o.state xs) h
