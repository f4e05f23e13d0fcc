-- ===== src/Queue.antt =====
-- src/queue.c, as the default build has it (NO_LOCKFREE_QUEUE): a linked list under a mutex. Each
-- operation holds the mutex for all that it does with the list, so it is one step here.
mod Tests
pub mod Chain
pub mod Fifo
pub mod Free
pub mod Trace
use streem.Base.{
  ◌≡◌, Bool, true, false, Option, none, some, List, [], ◌∷◌, if◌then◌else◌, ◌==◌, ℕ, zero, suc,
}

-- An address, and NULL as none.
abbrev pub Ptr : Type 0
Ptr = Option ℕ

-- `struct strm_queue_node`
pub record Node (V : Type 0) : Type 0 where
  pub next : Ptr
  pub n : V

-- What the queue's mallocs have left allocated: none is an address that is not.
abbrev pub Heap : Type 0 → Type 0
Heap V = ℕ → Option (Node V)

-- `struct strm_queue` with the memory of its nodes.
pub record Queue (V : Type 0) : Type 0 where
  pub heap : Heap V
  pub head : Ptr
  pub tail : Ptr

module _ {V : Type 0} where
  -- A store to the node at an address, and `free` of it, where c is none.
  abbrev pub store : Heap V → ℕ → Option (Node V) → Heap V
  store h a c b = if a == b then c else h b

  -- `strm_queue_new`
  unfoldable pub strm_queue_new : Heap V → Queue V
  strm_queue_new h = record { heap = h; head = none; tail = none }

  -- `t->next = p`; none is an access to memory that is not allocated.
  unfoldable pub set_next : Heap V → ℕ → Ptr → Option (Heap V)
  set_next h t p = elim (h t) [
    | none ↦ none
    | some c ↦ some (store h t (some (record c { next = p })))
  ]

  -- `strm_queue_add`, with the address that `malloc` returned, and 0 or 1 as the result.
  unfoldable pub strm_queue_add : Queue V → Ptr → V → Option (Bool × Queue V)
  unfolding set_next
  strm_queue_add q none val = some (false, q)
  strm_queue_add q (some a) val =
      let h = store q.heap a (some (record { next = none; n = val })) in
      let linked : Option (Heap V) = elim q.tail [
        | none ↦ some h
        | some t ↦ set_next h t (some a)
      ] in
      let first : Ptr = elim q.head [ none ↦ some a | some b ↦ some b ] in
      elim linked [
        | none ↦ none
        | some h' ↦ some (true, record { heap = h'; head = first; tail = some a })
      ]

  -- `strm_queue_get`, with the value, or none for NULL.
  unfoldable pub strm_queue_get : Queue V → Option (Option V × Queue V)
  strm_queue_get q = elim q.head [
    | none ↦ some (none, q)
    | some t ↦ elim (q.heap t) [
      | none ↦ none
      | some c ↦
          let tail : Ptr = elim c.next [ none ↦ none | some b ↦ q.tail ] in
          some (some c.n, record { heap = store q.heap t none; head = c.next; tail = tail })
    ]
  ]

  -- `strm_queue_empty_p`
  unfoldable pub strm_queue_empty_p : Queue V → Bool
  strm_queue_empty_p q = elim q.head [ none ↦ true | some t ↦ false ]

  -- The loop of `strm_queue_free`: none where it touches memory that is not allocated, or is still
  -- going after the fuel.
  unfoldable pub free_nodes : ℕ → Heap V → Ptr → Option (Heap V)
  free_nodes fuel h none = some h
  free_nodes zero h (some t) = none
  free_nodes (suc fuel) h (some t) = elim (h t) [
    | none ↦ none
    | some c ↦ free_nodes fuel (store h t none) c.next
  ]

  -- `strm_queue_free`, of a queue that is not NULL.
  unfoldable pub strm_queue_free : ℕ → Queue V → Option (Heap V)
  unfolding free_nodes
  strm_queue_free fuel q = free_nodes fuel q.heap q.head
