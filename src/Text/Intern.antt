-- ===== src/Text/Intern.antt =====
-- Making and interning strings in src/string.c.
--
-- A string is its bytes where the word holds them, or the address of a block, of a string that owns its
-- bytes or of one that points to them.
use streem.Base.{
  ℕ, suc, Bool, true, false, Option, none, some, List, ◌||◌, ◌&&◌, ◌==◌, length, leb, if◌then◌else◌,
  bytes_eq,
}
use streem.Khash.{Khash, Put, failed, present, added}

-- A `strm_string`.
pub data Ref : Type 0 where
  small : List ℕ → Ref
  owned foreign : ℕ → Ref

-- The blocks below `next` are in use, and hold these bytes; `table` is `sym_table`.
pub record StrMem (T : Type 0) : Type 0 where
  pub table : T
  pub next : ℕ
  pub bytes : ℕ → List ℕ

module _ {T : Type 0} where
  abbrev pub with_block : StrMem T → List ℕ → StrMem T
  with_block m s = record {
    table = m.table;
    next = suc m.next;
    bytes = λ a. if a == m.next then s else m.bytes a;
  }

  -- `str_new` of the bytes s; `stays` is that the pointer is to read-only data, or said to stay.
  abbrev pub str_new : StrMem T → List ℕ → (stays : Bool) → Ref × StrMem T
  str_new m s stays =
      if leb (length s) 6
      then (small s, m)
      else (if stays then foreign m.next else owned m.next, with_block m s)

  module _ (h : Khash T (List ℕ) Ref) where
    -- `str_intern` behind `kh_put`. Without memory for the slot it writes beyond the table: none.
    abbrev pub intern_put : StrMem T → List ℕ → (stays : Bool) → Put × T → Option (Ref × StrMem T)
    intern_put m s stays (failed, t) = none
    intern_put m s stays (present, t) = elim (h.get t s) [
      | none ↦ none
      | some r ↦ some (r, record m { table = t })
    ]
    intern_put m s stays (added, t) =
        let (r, m') = str_new m s stays in some (r, record m' { table = h.assign t s r })

    -- `str_intern`
    unfoldable pub str_intern : StrMem T → List ℕ → (stays : Bool) → Option (Ref × StrMem T)
    str_intern m s stays =
        if leb (length s) 6
        then some (str_new m s stays)
        else intern_put m s stays (h.put m.table s)

    -- `strm_str_new` of a pointer that is not NULL; `started` is that the event loop is.
    unfoldable pub strm_str_new :
        (started readonly : Bool) → StrMem T → List ℕ → Option (Ref × StrMem T)
    unfolding str_intern
    strm_str_new started readonly m s =
        if started
        then some (str_new m s readonly)
        else if leb (suc (length s)) 64 || readonly
        then str_intern m s readonly
        else some (str_new m s readonly)

    -- `strm_str_intern_p`
    abbrev pub strm_str_intern_p : Ref → Bool
    strm_str_intern_p (owned a) = false
    strm_str_intern_p r = true

    -- `strm_str_intern_str` of a string with the bytes s.
    unfoldable pub strm_str_intern_str :
        (readonly : Bool) → StrMem T → Ref → List ℕ → Option (Ref × StrMem T)
    unfolding str_intern
    strm_str_intern_str readonly m r s =
        if strm_str_intern_p r then some (r, m) else str_intern m s readonly

abbrev pub ref_eq : Ref → Ref → Bool
ref_eq (small x) (small y) = bytes_eq x y
ref_eq (owned a) (owned b) = a == b
ref_eq (foreign a) (foreign b) = a == b
ref_eq r r' = false

abbrev pub foreign_p : Ref → Bool
foreign_p (foreign a) = true
foreign_p r = false

module _ {T : Type 0} where
  -- `strm_str_len` bytes from `strm_str_ptr`
  abbrev pub strm_str_ptr : StrMem T → Ref → List ℕ
  strm_str_ptr m (small x) = x
  strm_str_ptr m (owned a) = m.bytes a
  strm_str_ptr m (foreign a) = m.bytes a

  -- `strm_str_eq`
  unfoldable pub strm_str_eq : StrMem T → Ref → Ref → Bool
  strm_str_eq m a b =
      if ref_eq a b
      then true
      else if foreign_p a && foreign_p b
      then false
      else bytes_eq (strm_str_ptr m a) (strm_str_ptr m b)
