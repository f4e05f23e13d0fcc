-- ===== src/Queue/Chain.antt =====
-- The nodes that a queue of src/queue.c reaches, from its head to its tail.
use streem.Base.{
  ◌≡◌, refl, false, Option, none, some, List, [], ◌∷◌, ◌++◌, ◌==◌, ℕ, arith, ==_iff, Bool-cases,
  inl, inr, ==_refl,
}
use streem.Queue.{Ptr, Node, Heap, Queue, store}

module _ {V : Type 0} where
  abbrev pub first : List (ℕ × V) → Ptr
  first [] = none
  first ((a, v) ∷ l) = some a

  abbrev pub end_of : (ℕ × V) → List (ℕ × V) → ℕ × V
  end_of x [] = x
  end_of x (y ∷ l) = end_of y l

  abbrev pub last : List (ℕ × V) → Ptr
  last [] = none
  last (x ∷ l) = some (end_of x l).0

  abbrev pub Absent : ℕ → List (ℕ × V) → Type 0
  Absent a [] = Unit
  Absent a ((b, v) ∷ l) = ((a == b) ≡ false) × Absent a l

  -- The addresses and values of a list of nodes, each of which leads to the next, the last to NULL.
  abbrev pub IsChain : Heap V → List (ℕ × V) → Type 0
  IsChain h [] = Unit
  IsChain h ((a, v) ∷ l) =
      (h a ≡ some (record { next = first l; n = v })) × Absent a l × IsChain h l

  -- The queue has the list of values: its head and tail are the ends of a chain of them.
  pub record IsQueue (q : Queue V) (l : List (ℕ × V)) : Type 0 where
    pub head : q.head ≡ first l
    pub tail : q.tail ≡ last l
    pub chain : IsChain q.heap l

  pub Absent-free : (h : Heap V) (a : ℕ) (l : List (ℕ × V)) → h a ≡ none → IsChain h l → Absent a l
  Absent-free h a [] f c = tt
  Absent-free h a ((b, v) ∷ l) f (e, n, c) = (
    elim (Bool-cases (a == b)) [ inr x ↦ x | inl x ↦ ground (arith, ==_iff a b) ],
    Absent-free h a l f c,
  )

  pub IsChain-store :
      (h : Heap V) (a : ℕ) (x : Option (Node V)) (l : List (ℕ × V))
      → Absent a l
      → IsChain h l
      → IsChain (store h a x) l
  IsChain-store h a x [] n c = tt
  IsChain-store h a x ((b, v) ∷ l) n (e, m, c) =
      (ground (arith, ==_iff a b), m, IsChain-store h a x l n.1 c)

  pub end_of-snoc : (x y : ℕ × V) (l : List (ℕ × V)) → end_of x (l ++ (y ∷ [])) ≡ y
  end_of-snoc x y [] = refl
  end_of-snoc x y (z ∷ l) = end_of-snoc z y l

  -- The last node of a chain, and an address that is not in the chain.
  pub end_of-heap :
      (h : Heap V) (x : ℕ × V) (l : List (ℕ × V))
      → IsChain h (x ∷ l)
      → h (end_of x l).0 ≡ some (record { next = none; n = (end_of x l).1 })
  end_of-heap h x [] (e, n, c) = e
  end_of-heap h x (y ∷ l) (e, n, c) = end_of-heap h y l c

  pub Absent-end_of :
      (b : ℕ) (x : ℕ × V) (l : List (ℕ × V)) → Absent b (x ∷ l) → (b == (end_of x l).0) ≡ false
  Absent-end_of b x [] (n, m) = n
  Absent-end_of b x (y ∷ l) (n, m) = Absent-end_of b y l m

  pub Absent-snoc :
      (b a : ℕ) (v : V) (l : List (ℕ × V))
      → Absent b l
      → (b == a) ≡ false
      → Absent b (l ++ ((a, v) ∷ []))
  Absent-snoc b a v [] n m = (m, tt)
  Absent-snoc b a v (x ∷ l) (n, n') m = (n, Absent-snoc b a v l n' m)

  -- The store that puts a last node behind a chain.
  abbrev pub relink : Heap V → (ℕ × V) → List (ℕ × V) → ℕ → Heap V
  relink h x l a = store h (end_of x l).0 (some (record { next = some a; n = (end_of x l).1 }))

  pub IsChain-relink :
      (h : Heap V) (x : ℕ × V) (l : List (ℕ × V)) (a : ℕ) (v : V)
      → IsChain h (x ∷ l)
      → Absent a (x ∷ l)
      → h a ≡ some (record { next = none; n = v })
      → IsChain (relink h x l a) (x ∷ (l ++ ((a, v) ∷ [])))
  IsChain-relink h x [] a v (e, n, c) (m, _) f = (
    ground (arith, ==_refl x.0),
    (ground (arith, ==_iff a x.0, ==_iff x.0 a), tt),
    (ground (arith, ==_iff a x.0, ==_iff x.0 a), tt, tt),
  )
  IsChain-relink h x (y ∷ l) a v (e, n, c) (m, m') f = (
    ground (arith, Absent-end_of x.0 y l n, ==_iff x.0 (end_of y l).0, ==_iff (end_of y l).0 x.0),
    Absent-snoc x.0 a v (y ∷ l) n (ground (arith, ==_iff a x.0, ==_iff x.0 a)),
    IsChain-relink h y l a v c m' f,
  )

  pub IsQueue-eta :
      (q : Queue V) (l : List (ℕ × V))
      → IsQueue q l
      → q ≡ record { heap = q.heap; head = first l; tail = last l }
  IsQueue-eta q l i = λ k. record { heap = q.heap; head = i.head k; tail = i.tail k }
