-- ===== src/Queue/Tests.antt =====
-- Runs of the queue of src/queue.c on a small memory.
use streem.Base.{◌≡◌, refl, none, some, List, [], ◌∷◌, ℕ, arith, if◌then◌else◌, ◌==◌}
use streem.Queue.{Ptr, Heap, Queue, strm_queue_new}
use streem.Queue.Chain.{IsQueue}
use streem.Queue.Fifo.{strm_queue_new-IsQueue}
use streem.Queue.Trace.{Call, Event, add, get, calls, calls-IsFifo, IsFifo, values}

abbrev blank : Heap ℕ
blank a = none

-- A memory with room for two nodes.
abbrev malloc : Heap ℕ → Ptr
malloc h = elim (h 0) [ none ↦ some 0 | some c ↦ elim (h 1) [ none ↦ some 1 | some d ↦ none ] ]

malloc_unused : (h : Heap ℕ) (a : ℕ) → malloc h ≡ some a → h a ≡ none
malloc_unused h a e = ground arith

abbrev fresh : Queue ℕ
fresh = strm_queue_new blank

abbrev uses : List (Call ℕ)
uses = add 7 ∷ add 8 ∷ add 9 ∷ get ∷ add 10 ∷ get ∷ get ∷ get ∷ []

calls-IsFifo_example :
    (es : List (Event ℕ)) × (q' : Queue ℕ) × (l' : List (ℕ × ℕ)) × (calls malloc uses fresh
      ≡ some (es, q'))
    × IsQueue q' l'
    × IsFifo [] es (values l')
calls-IsFifo_example =
    calls-IsFifo malloc malloc_unused uses fresh [] (strm_queue_new-IsQueue blank)

-- A queue of two values.
abbrev two : Queue ℕ
two = record {
  heap = λ a.
      if a == 3
      then some (record { next = some 5; n = 30 })
      else if a == 5
      then some (record { next = none; n = 50 })
      else none;
  head = some 3;
  tail = some 5;
}

two-IsQueue : IsQueue two ((3, 30) ∷ (5, 50) ∷ [])
two-IsQueue = record { head = refl; tail = refl; chain = (refl, (refl, tt), (refl, tt, tt)) }
