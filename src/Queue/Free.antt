-- ===== src/Queue/Free.antt =====
-- `strm_queue_free` of src/queue.c.
use streem.Base.{◌≡◌, refl, none, some, List, [], ◌∷◌, ℕ, arith, suc, zero, length, ◌≤◌}
use streem.Queue.{Heap, Queue, store, free_nodes, strm_queue_free}
use streem.Queue.Chain.{first, IsChain, IsQueue, IsChain-store}

module _ {V : Type 0} where
  -- The heap h' has the allocations of h less those of the addresses of l.
  abbrev pub IsFreed : Heap V → List (ℕ × V) → Heap V → Type 0
  IsFreed h [] h' = (b : ℕ) → h' b ≡ h b
  IsFreed h ((a, v) ∷ l) h' = IsFreed (store h a none) l h'

  free_ok :
      (fuel : ℕ) (h : Heap V) (l : List (ℕ × V))
      → IsChain h l
      → length l ≤ fuel
      → (h' : Heap V) × (free_nodes fuel h (first l) ≡ some h') × IsFreed h l h'
  unfolding free_nodes
  free_ok zero h [] c n = (h, refl, λ b. refl)
  free_ok (suc fuel) h [] c n = (h, refl, λ b. refl)
  free_ok zero h (x ∷ l) c n = ground arith
  free_ok (suc fuel) h ((a, v) ∷ l) (e, m, c) n =
      let (h', d, f) =
        free_ok fuel (store h a none) l (IsChain-store h a none l m c) (ground arith) in
      (h', rw e d, f)

  -- `strm_queue_free` of a queue returns, after as many rounds as the queue has values, touches
  -- allocated memory only, and frees every node of the queue and nothing else.
  pub strm_queue_free_lem :
      (fuel : ℕ) (q : Queue V) (l : List (ℕ × V))
      → IsQueue q l
      → length l ≤ fuel
      → (h' : Heap V) × (strm_queue_free fuel q ≡ some h') × IsFreed q.heap l h'
  unfolding strm_queue_free
  strm_queue_free_lem fuel q l i n = rw i.head (free_ok fuel q.heap l i.chain n)
