-- ===== src/Queue/Fifo.antt =====
-- Single operations of the queue of src/queue.c, on the list of values that it holds.
use streem.Base.{◌≡◌, refl, true, false, none, some, List, [], ◌∷◌, ◌++◌, ℕ, arith, ==_refl, ◌↔◌}
use streem.Queue.{
  Node, Heap, Queue, store, strm_queue_new, strm_queue_add, strm_queue_get, strm_queue_empty_p,
}
use streem.Queue.Chain.{
  first, last, IsChain, IsQueue, Absent-free, IsChain-store, relink, end_of-heap, end_of-snoc,
  IsChain-relink, IsQueue-eta,
}

module _ {V : Type 0} where
  add_ok :
      (h : Heap V) (l : List (ℕ × V)) (a : ℕ) (v : V)
      → IsChain h l
      → h a ≡ none
      → (q' : Queue V) × (strm_queue_add
            (record { heap = h; head = first l; tail = last l })
            (some a)
            v
          ≡ some (true, q'))
        × IsQueue q' (l ++ ((a, v) ∷ []))
  unfolding strm_queue_add
  add_ok h [] a v c f =
      (_, refl, record { head = refl; tail = refl; chain = (rw (==_refl a) refl, tt, tt) })
  add_ok h (x ∷ l) a v c f =
      let new : Node V = record { next = none; n = v } in
      let ab = Absent-free h a (x ∷ l) f c in
      let c' = IsChain-store h a (some new) (x ∷ l) ab c in
      (
        record { heap = relink (store h a (some new)) x l a; head = some x.0; tail = some a },
        ground (arith, end_of-heap (store h a (some new)) x l c'),
        record {
          head = refl;
          tail = rw (end_of-snoc x (a, v) l) refl;
          chain = IsChain-relink (store h a (some new)) x l a v c' ab (rw (==_refl a) refl);
        },
      )

  get_ok :
      (h : Heap V) (l : List (ℕ × V)) (a : ℕ) (v : V)
      → IsChain h ((a, v) ∷ l)
      → (q' : Queue V) × (strm_queue_get
            (record { heap = h; head = some a; tail = last ((a, v) ∷ l) })
          ≡ some (some v, q'))
        × IsQueue q' l
        × (q'.heap a ≡ none)
  unfolding strm_queue_get
  get_ok h l a v (e, n, c) = (
    record { heap = store h a none; head = first l; tail = last l },
    elim l [ [] ↦ ground arith | y ∷ l' ↦ ground arith ],
    record { head = refl; tail = refl; chain = IsChain-store h a none l n c },
    rw (==_refl a) refl,
  )

  -- `strm_queue_add` of a value, where malloc returns an address that is not in use: it touches
  -- allocated memory only, returns 1, and the value stands behind those that the queue had.
  pub strm_queue_add_lem :
      (q : Queue V) (l : List (ℕ × V)) (a : ℕ) (v : V)
      → IsQueue q l
      → q.heap a ≡ none
      → (q' : Queue V) × (strm_queue_add q (some a) v ≡ some (true, q'))
        × IsQueue q' (l ++ ((a, v) ∷ []))
  strm_queue_add_lem q l a v i f = rw (IsQueue-eta q l i) (add_ok q.heap l a v i.chain f)

  -- `strm_queue_get` of a queue that is not empty: it touches allocated memory only, gives the
  -- value that was added first, frees its node, and leaves the others as they were.
  pub strm_queue_get_lem :
      (q : Queue V) (l : List (ℕ × V)) (a : ℕ) (v : V)
      → IsQueue q ((a, v) ∷ l)
      → (q' : Queue V) × (strm_queue_get q ≡ some (some v, q')) × IsQueue q' l × (q'.heap a ≡ none)
  strm_queue_get_lem q l a v i = rw (IsQueue-eta q ((a, v) ∷ l) i) (get_ok q.heap l a v i.chain)

  pub strm_queue_get_empty : (q : Queue V) → IsQueue q [] → strm_queue_get q ≡ some (none, q)
  unfolding strm_queue_get
  strm_queue_get_empty q i = rw i.head refl

  pub strm_queue_empty_p_iff :
      (q : Queue V) (l : List (ℕ × V)) → IsQueue q l → (strm_queue_empty_p q ≡ true) ↔ (l ≡ [])
  unfolding strm_queue_empty_p
  strm_queue_empty_p_iff q [] i = (λ _. refl, λ _. rw i.head refl)
  strm_queue_empty_p_iff q (x ∷ l) i = rw i.head (λ e. ground arith, λ e. ground arith)

  pub strm_queue_add_null : (q : Queue V) (v : V) → strm_queue_add q none v ≡ some (false, q)
  unfolding strm_queue_add
  strm_queue_add_null q v = refl

  pub strm_queue_new-IsQueue : (h : Heap V) → IsQueue (strm_queue_new h) []
  unfolding strm_queue_new
  strm_queue_new-IsQueue h = record { head = refl; tail = refl; chain = tt }
