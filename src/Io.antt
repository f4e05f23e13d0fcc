-- ===== src/Io.antt =====
-- src/io.c: reading the lines of a file descriptor.
--
-- The block that `b->buf` points to is `block`, the bytes from `b->buf` to `b->end`; `b->beg` is at
-- the place `beg` of it. The system's `read` is a schedule of the most that each call gives.
mod Tests
pub mod Lines
pub mod Runs
pub mod Waiting
pub mod Mapped
use streem.Base.{
  ℕ, zero, suc, Bool, true, false, Option, none, some, List, [], ◌∷◌, ◌++◌, if◌then◌else◌, ◌==◌,
  ◌+◌, ◌-◌, ltb, leb, ◌%◌, ◌^◌, length, take, drop, min,
}

-- BUFSIZ, the size of `fixed`.
abbrev pub bufsiz : ℕ
bufsiz = 8192

-- `sizeof(b->buf)` where STRM_IO_MMAP is defined: that of a pointer.
abbrev pub sizeof_buf : ℕ
sizeof_buf = 8

-- How the stream reads: from a map of the whole file (STRM_IO_NOFILL and STRM_IO_MMAP), by calls of
-- `read` that are tasks of its own (STRM_IO_NOWAIT), or by calls of `read` when epoll says so.
pub data Flags : Type 0 where
  mapped regular waiting : Flags

-- What comes next: a call of `read_cb`, a call of `readline_cb`, nothing after `strm_io_stop`, or
-- nothing since epoll does not know the descriptor.
pub data Next : Type 0 where
  read_next line_next stopped stuck : Next

-- `struct fd_read_buffer`, the bytes that the descriptor has still to give, and the strings emitted.
pub record Reader : Type 0 where
  pub flags : Flags
  pub block : List ℕ
  pub beg : ℕ
  pub input : List ℕ
  pub emitted : List (List ℕ)
  pub next : Next

-- `memchr(p, '\n', len)`: the place of the newline.
abbrev pub memchr : List ℕ → Option ℕ
memchr [] = none
memchr (c ∷ p) =
    if c == b'\n' then some 0 else elim (memchr p) [ none ↦ none | some i ↦ some (suc i) ]

-- The bytes from `b->beg` to `b->end`.
abbrev pub unread : Reader → List ℕ
unread b = drop b.beg b.block

-- `io_kick`: a descriptor of a regular file is not known to epoll.
abbrev pub kicked : Flags → Next
kicked waiting = read_next
kicked _ = stuck

-- `strm_io_stop` and `strm_emit` of the bytes s, with what comes next.
abbrev pub strm_io_stop : Reader → Reader
strm_io_stop b = record b { next = stopped }

abbrev pub emit : Reader → List ℕ → Next → Reader
emit b s k = record b { emitted = b.emitted ++ (s ∷ []); next = k }

-- The end of `readline_cb` where the buffer is to be filled.
abbrev pub refill : Reader → Reader
refill b =
    let moved =
      if ltb (length (unread b)) sizeof_buf then record b { block = unread b; beg = 0 } else b in
    record moved { next = read_next }

-- The string of len bytes, and the newline behind it.
abbrev pub emit_line : ℕ → Reader → Reader
emit_line len b = emit (record b { beg = b.beg + len + 1 }) (take len (unread b)) line_next

-- What `readline_cb` does where it finds no newline in len bytes.
abbrev pub no_newline : Flags → ℕ → Reader → Reader
no_newline mapped len b = if len == 0 then strm_io_stop b else emit_line len b
no_newline regular len b = refill b
no_newline waiting len b = refill b

-- What it does where the newline is i bytes on. `len` is an int32_t, and `read_str` cannot copy a negative
-- number of bytes: none.
abbrev pub newline_at : ℕ → Reader → Option Reader
newline_at i b = let len = i % 2 ^ 32 in if leb (2 ^ 31) len then none else some (emit_line len b)

-- What `memchr` finds where the length is not negative.
abbrev pub found : Option ℕ → ℕ → Reader → Option Reader
found (some i) len b = newline_at i b
found none len b = some (no_newline b.flags len b)

-- `memchr` and what follows. A negative length is a size beyond the memory.
abbrev pub search : ℕ → Reader → Option Reader
search len b =
    if leb (2 ^ 31) len
    then elim (memchr (unread b)) [ none ↦ none | some i ↦ newline_at i b ]
    else found (memchr (take len (unread b))) len b

-- `readline_cb`. The length is an int32_t. In a mapped file `b->beg` may be beyond `b->end`, a negative
-- length with which `memchr` reads beyond the map: none. A length that does not fit may be negative too.
unfoldable pub readline_cb : Reader → Option Reader
readline_cb b = elim (ltb (length b.block) b.beg) [
  | true ↦ none
  | false ↦ search (length (unread b) % 2 ^ 32) b
]

-- The number of bytes that `read` gives, for the room that is left in the block, where the system has
-- k bytes at hand.
abbrev pub given : ℕ → Reader → ℕ
given k b = min (bufsiz - length b.block) (min k (length b.input))

-- The block after that.
abbrev pub filled : ℕ → Reader → Reader
filled k b = record b {
  block = b.block ++ take (given k b) b.input;
  input = drop (given k b) b.input;
}

-- `read_cb`, where k is 0 for an error of `read`.
unfoldable pub read_cb : ℕ → Reader → Option Reader
read_cb k b =
    if given k b == 0
    then some (
        if length b.block == 0
        then strm_io_stop b
        else emit (record b { block = []; beg = 0 }) (unread b) (kicked b.flags))
    else readline_cb (filled k b)

-- `stdio_read`, by `strm_io_start_read`: epoll refuses the descriptor of a regular file.
abbrev pub stdio_read : Reader → Reader
stdio_read b = record b { next = kicked b.flags }

-- `strm_readio` of a descriptor with those bytes, to the first callback: whether it is a regular file,
-- and whether `mmap` maps it, which it never does with an empty one.
unfoldable pub strm_readio : (is_file can_map : Bool) → List ℕ → Reader
strm_readio true true (c ∷ content) = record {
  flags = mapped;
  block = c ∷ content;
  beg = 0;
  input = [];
  emitted = [];
  next = line_next;
}
strm_readio is_file can_map content = stdio_read (record {
  flags = if is_file then regular else waiting;
  block = [];
  beg = 0;
  input = content;
  emitted = [];
  next = stopped;
})

-- The task that comes next, if any.
abbrev pub io_task : Next → ℕ → Reader → Option Reader
io_task read_next k b = read_cb k b
io_task line_next k b = readline_cb b
io_task stopped k b = some b
io_task stuck k b = some b

-- As many tasks as the schedule has numbers: each is what the system has at hand for a `read`.
unfoldable pub io_run : List ℕ → Reader → Option Reader
io_run [] b = some b
io_run (k ∷ ks) b = elim (io_task b.next k b) [ none ↦ none | some r ↦ io_run ks r ]
