-- ===== src/Queue/Trace.antt =====
-- Runs of the operations of src/queue.c, as the threads that share a queue make them one after
-- the other.
use streem.Base.{
  ◌≡◌, refl, Option, none, some, List, [], ◌∷◌, ◌++◌, if◌then◌else◌, ℕ, arith, inl, inr, ◌⊎◌,
  Option-cases,
}
use streem.Queue.{Ptr, Heap, Queue, strm_queue_add, strm_queue_get}
use streem.Queue.Chain.{IsQueue}
use streem.Queue.Fifo.{
  strm_queue_add_lem, strm_queue_get_lem, strm_queue_get_empty, strm_queue_add_null,
}

-- A call, and what it returned.
pub data Call (V : Type 0) : Type 0 where
  add : V → Call V
  get : Call V

pub data Event (V : Type 0) : Type 0 where
  added : V → Event V
  refused : V → Event V
  got : V → Event V
  empty : Event V

module _ {V : Type 0} (malloc : Heap V → Ptr) where
  -- A call on a queue; none is an access to memory that is not allocated.
  unfoldable pub call : Call V → Queue V → Option (Event V × Queue V)
  call (add v) q = elim (strm_queue_add q (malloc q.heap) v) [
    | none ↦ none
    | some (r, q') ↦ some (if r then added v else refused v, q')
  ]
  call get q = elim (strm_queue_get q) [
    | none ↦ none
    | some (r, q') ↦ some (elim r [ none ↦ empty | some v ↦ got v ], q')
  ]

  -- The calls one after the other.
  unfoldable pub calls : List (Call V) → Queue V → Option (List (Event V) × Queue V)
  calls [] q = some ([], q)
  calls (c ∷ cs) q = elim (call c q) [
    | none ↦ none
    | some (e, q') ↦ elim (calls cs q') [ none ↦ none | some (es, q'') ↦ some (e ∷ es, q'') ]
  ]

-- What a first-in, first-out queue of the values s may do, ending with the values s': a value is
-- added behind the others, the first one is given, and nothing is given only where there is none.
abbrev pub IsFifo : {V : Type 0} → List V → List (Event V) → List V → Type 0
IsFifo s [] s' = s ≡ s'
IsFifo {V} s (e ∷ es) s' = elim e [
  | added v ↦ IsFifo (s ++ (v ∷ [])) es s'
  | refused v ↦ IsFifo s es s'
  | got v ↦ (r : List V) × (s ≡ v ∷ r) × IsFifo r es s'
  | empty ↦ (s ≡ []) × IsFifo s es s'
]

abbrev pub values : {V : Type 0} → List (ℕ × V) → List V
values [] = []
values ((a, v) ∷ l) = v ∷ values l

values-snoc :
    {V : Type 0} (l : List (ℕ × V)) (a : ℕ) (v : V)
    → values (l ++ ((a, v) ∷ [])) ≡ values l ++ (v ∷ [])
values-snoc [] a v = refl
values-snoc (x ∷ l) a v = rw (values-snoc l a v) refl

module _ {V : Type 0} (malloc : Heap V → Ptr)
    (unused : (h : Heap V) (a : ℕ) → malloc h ≡ some a → h a ≡ none) where
  abbrev Runs : List (Call V) → Queue V → List (ℕ × V) → Type 0
  Runs cs q l =
      (es : List (Event V)) × (q' : Queue V) × (l' : List (ℕ × V)) × (calls malloc cs q
        ≡ some (es, q'))
      × IsQueue q' l'
      × IsFifo (values l) es (values l')

  call_add :
      (v : V) (q : Queue V) (l : List (ℕ × V))
      → IsQueue q l
      → (q' : Queue V) × (((call malloc (add v) q ≡ some (refused v, q')) × IsQueue q' l)
          ⊎ ((a : ℕ) × (call malloc (add v) q ≡ some (added v, q'))
              × IsQueue q' (l ++ ((a, v) ∷ []))))
  unfolding call
  call_add v q l i = elim (Option-cases (malloc q.heap)) [
    | inl e ↦ (q, inl (ground (arith, strm_queue_add_null q v), i))
    | inr (a, e) ↦
        let r = strm_queue_add_lem q l a v i (unused q.heap a e) in
        (r.0, inr (a, ground (arith, r.1), r.2))
  ]

  call_get :
      (q : Queue V) (x : ℕ × V) (l : List (ℕ × V))
      → IsQueue q (x ∷ l)
      → (q' : Queue V) × (call malloc get q ≡ some (got x.1, q')) × IsQueue q' l
  unfolding call
  call_get q x l i = let r = strm_queue_get_lem q l x.0 x.1 i in (r.0, ground (arith, r.1), r.2)

  call_get_empty : (q : Queue V) → IsQueue q [] → call malloc get q ≡ some (empty, q)
  unfolding call
  call_get_empty q i = ground (arith, strm_queue_get_empty q i)

  calls-cons :
      (c : Call V) (cs : List (Call V)) (q q' : Queue V) (e : Event V) (es : List (Event V))
      (q'' : Queue V)
      → call malloc c q ≡ some (e, q')
      → calls malloc cs q' ≡ some (es, q'')
      → calls malloc (c ∷ cs) q ≡ some (e ∷ es, q'')
  unfolding calls
  calls-cons c cs q q' e es q'' d ds = ground arith

  -- Any sequence of `strm_queue_add` and `strm_queue_get`, on a queue with the values l and with a
  -- malloc that returns NULL or an address that is not in use, touches allocated memory only, and is
  -- one of a first-in, first-out queue with those values.
  pub calls-IsFifo :
      (cs : List (Call V)) (q : Queue V) (l : List (ℕ × V)) → IsQueue q l → Runs cs q l
  calls-IsFifo [] q l i = ([], q, l, unfold calls in refl, i, refl)
  calls-IsFifo (add v ∷ cs) q l i =
      let (q1, s) = call_add v q l i in
      elim s [
        | inl (e, j) ↦
            let (es, q2, l', d, k, f) = calls-IsFifo cs q1 l j in
            (refused v ∷ es, q2, l', calls-cons (add v) cs q q1 (refused v) es q2 e d, k, f)
        | inr (a, e, j) ↦
            let (es, q2, l', d, k, f) = calls-IsFifo cs q1 (l ++ ((a, v) ∷ [])) j in
            (
              added v ∷ es,
              q2,
              l',
              calls-cons (add v) cs q q1 (added v) es q2 e d,
              k,
              rw (values-snoc l a v) at f,
            )
      ]
  calls-IsFifo (get ∷ cs) q [] i =
      let (es, q2, l', d, k, f) = calls-IsFifo cs q [] i in
      (empty ∷ es, q2, l', calls-cons get cs q q empty es q2 (call_get_empty q i) d, k, (refl, f))
  calls-IsFifo (get ∷ cs) q (x ∷ l) i =
      let (q1, e, j) = call_get q x l i in
      let (es, q2, l', d, k, f) = calls-IsFifo cs q1 l j in
      (got x.1 ∷ es, q2, l', calls-cons get cs q q1 (got x.1) es q2 e d, k, (values l, refl, f))
