-- ===== src/Latch.antt =====
-- src/latch.c: a latch pairs the values pushed to it with the receivers that wait for one.
--
-- A receiver is a stream with a callback, R here. A callback is made after the latch's queues have
-- changed; what it does itself is not part of the step. The queues are lists, as in `Core`.
mod Tests
pub mod Pairing
use streem.Base.{
  ◌≡◌, Bool, true, false, Option, none, some, List, [], ◌∷◌, ◌++◌, if◌then◌else◌, Status, ok, ng,
}
use streem.Value.{Value}
use streem.Core.{Mode, consumer, consumer_p}

-- `struct latch_data`, and the mode of the latch's stream.
pub record Latch (R : Type 0) : Type 0 where
  pub mode : Mode
  pub dq : List Value
  pub rq : List R

-- What a call did: the latch, the callbacks made in order, with their values, and the status.
pub record Did (R : Type 0) : Type 0 where
  pub latch : Latch R
  pub called : List (R × Value)
  pub status : Status

module _ {R : Type 0} where
  -- `strm_latch_new`
  abbrev pub latch_new : Latch R
  latch_new = record { mode = consumer; dq = []; rq = [] }

  -- `strm_latch_finish_p`
  unfoldable pub strm_latch_finish_p : Latch R → Bool
  strm_latch_finish_p l = if consumer_p l.mode then false else elim l.dq [ [] ↦ true | _ ↦ false ]

  -- `latch_push`: the receiver is taken before the mode is looked at.
  unfoldable pub latch_push : Latch R → Value → Did R
  latch_push l v =
      let taken : Latch R = record l { rq = elim l.rq [ [] ↦ [] | r ∷ rs ↦ rs ] } in
      if consumer_p l.mode
      then elim l.rq [
        | r ∷ rs ↦ record { latch = taken; called = (r, v) ∷ []; status = ok }
        | [] ↦ record { latch = record l { dq = l.dq ++ (v ∷ []) }; called = []; status = ok }
      ]
      else record { latch = taken; called = []; status = ng }

  -- `strm_latch_receive`
  unfoldable pub strm_latch_receive : Latch R → R → Did R
  strm_latch_receive l r = elim l.dq [
    | v ∷ vs ↦ record { latch = record l { dq = vs }; called = (r, v) ∷ []; status = ok }
    | [] ↦ record { latch = record l { rq = l.rq ++ (r ∷ []) }; called = []; status = ok }
  ]

  -- The loop of `latch_close`, of receivers that do not come back to the latch.
  abbrev pub call_all : List R → Value → List (R × Value)
  call_all [] v = []
  call_all (r ∷ rs) v = (r, v) ∷ call_all rs v

  -- `latch_close`
  unfoldable pub latch_close : Latch R → Value → Did R
  latch_close l v = record { latch = record l { rq = [] }; called = call_all l.rq v; status = ok }

-- A use of a latch that is open.
pub data Use (R : Type 0) : Type 0 where
  push : Value → Use R
  receive : R → Use R

module _ {R : Type 0} where
  unfoldable pub use_latch : Latch R → Use R → Did R
  unfolding latch_push strm_latch_receive
  use_latch l (push v) = latch_push l v
  use_latch l (receive r) = strm_latch_receive l r

  -- A sequence of uses: the latch, and the callbacks made.
  unfoldable pub use_all : Latch R → List (Use R) → Latch R × List (R × Value)
  unfolding use_latch
  use_all l [] = (l, [])
  use_all l (u ∷ us) =
      let d = use_latch l u in let (l', cs) = use_all d.latch us in (l', d.called ++ cs)
