-- ===== src/Io/Mapped.antt =====
-- The reader of src/io.c on a regular file, which is mapped.
use streem.Base.{
  ℕ, List, [], ◌∷◌, ◌++◌, ◌≡◌, ◌+◌, ◌≤◌, ◌^◌, take, drop, length, none, some, refl, suc, arith, ◌<◌,
  ltb, true, ltb_lt, length-drop, false, Option-cases, ap, sym, append-nil, ◌∙◌, ◌==◌, inl, inr,
  append-snoc,
}
use streem.Io.Lines.{
  drop-drop, memchr-lt-length, ends_line, lines, ends_line-none, ends_line-drop, lines-newline,
  lines-nil,
}
use streem.Io.Runs.{Ends, io_run-cons, io_run-stopped, take_all, readline-newline, readline-none}
use streem.Io.{
  Reader, mapped, line_next, memchr, readline_cb, no_newline, unread, strm_io_stop, io_run,
  strm_readio, emit, io_task,
}

-- The reader of a map of these bytes, at the place beg.
abbrev at : List ℕ → ℕ → List (List ℕ) → Reader
at block beg em = record {
  flags = mapped;
  block = block;
  beg = beg;
  input = [];
  emitted = em;
  next = line_next;
}

-- A map whose length an int32_t holds.
module _ (block : List ℕ) (beg : ℕ) (em : List (List ℕ)) (h : beg ≤ length block)
    (s : length block < 2 ^ 31) where
  at_newline :
      (i : ℕ)
      → memchr (drop beg block) ≡ some i
      → readline_cb (at block beg em)
        ≡ some (at block (beg + i + 1) (em ++ (take i (drop beg block) ∷ [])))
  at_newline i q =
      readline-newline (at block beg em) h (omega (arith, s, length-drop beg block)) i q

  at_last :
      memchr (drop beg block) ≡ none
      → readline_cb (at block beg em)
        ≡ some (no_newline mapped (length (drop beg block)) (at block beg em))
  at_last q = readline-none (at block beg em) h (omega (arith, s, length-drop beg block)) q

drop-next : (block : List ℕ) (beg i : ℕ) → drop (suc i) (drop beg block) ≡ drop (beg + i + 1) block
drop-next block beg i =
    let k : beg + suc i ≡ beg + i + 1 = omega arith in
    drop-drop (suc i) beg block ∙ ap (λ n. drop n block) k

next-within :
    (block : List ℕ) (beg i : ℕ)
    → beg ≤ length block
    → memchr (drop beg block) ≡ some i
    → beg + i + 1 ≤ length block
next-within block beg i h q =
    omega (arith, memchr-lt-length (drop beg block) i q, length-drop beg block)

-- What is left is no line where a newline ends it, and one that is not ended otherwise.
none-nil : (u : List ℕ) → memchr u ≡ none → ends_line u ≡ true → u ≡ []
none-nil [] q e = refl
none-nil (a ∷ u) q e = absurd (cc (ends_line-none a u q, e))

stop-empty : (b : Reader) → unread b ≡ [] → no_newline mapped (length (unread b)) b ≡ strm_io_stop b
stop-empty b e = rw (e, no_newline) refl

newline-lines :
    (u : List ℕ) (i : ℕ) → memchr u ≡ some i → lines u ≡ take i u ∷ lines (drop (suc i) u)
newline-lines u i q =
    ap lines (sym (append-nil u))
    ∙ lines-newline u [] i q
    ∙ ap (λ t. take i u ∷ lines t) (append-nil (drop (suc i) u))

mapped-Ends :
    (ks block : List ℕ) (beg : ℕ) (em : List (List ℕ))
    → beg ≤ length block
    → length block < 2 ^ 31
    → ends_line (drop beg block) ≡ true
    → length (drop beg block) + 1 ≤ length ks
    → Ends ks (at block beg em) (em ++ lines (drop beg block))
mapped-Ends [] block beg em h sz e n = absurd (omega arith)
mapped-Ends (k ∷ ks) block beg em h sz e n = elim (Option-cases (memchr (drop beg block))) [
  | inl q ↦
      let z = none-nil (drop beg block) q e in
      let b = at block beg em in
      (
        strm_io_stop b,
        io_run-cons k ks b (strm_io_stop b) (at_last block beg em h sz q ∙ ap some (stop-empty b z))
            ∙ io_run-stopped ks (strm_io_stop b) refl,
        refl,
        sym (ap (λ t. em ++ lines t) z ∙ ap (λ t. em ++ t) lines-nil ∙ append-nil em),
      )
  | inr (i, q) ↦
      let u = drop beg block in
      let em' = em ++ (take i u ∷ []) in
      let d = drop-next block beg i in
      let (r, p, s, l) =
        mapped-Ends ks block (beg + i + 1) em' (next-within block beg i h q) sz
          (rw (← d) (ends_line-drop u i q ∙ e))
          (omega (
            arith,
            length-drop beg block,
            length-drop (beg + i + 1) block,
            next-within block beg i h q,
          )) in
      (
        r,
        io_run-cons k ks (at block beg em) _ (at_newline block beg em h sz i q) ∙ p,
        s,
        l
            ∙ rw (← d) (
                append-snoc em (take i u) (lines (drop (suc i) u))
                ∙ ap (λ t. em ++ t) (sym (newline-lines u i q))),
      )
]

-- A last line without a newline is emitted, and b->beg is beyond the map after it.
some_left : (u : List ℕ) → ends_line u ≡ false → 0 < length u
some_left [] e = absurd (cc e)
some_left (a ∷ u) e = omega arith

last_line : Reader → Reader
last_line b = emit (record b { beg = b.beg + length (unread b) + 1 }) (unread b) line_next

emit-rest :
    (b : Reader)
    → ends_line (unread b) ≡ false
    → no_newline mapped (length (unread b)) b ≡ last_line b
unfolding last_line
emit-rest b e =
    let z : (length (unread b) == 0) ≡ false = ground (arith, some_left (unread b) e) in
    rw z (
      ap (λ u. emit (record b { beg = b.beg + length (unread b) + 1 }) u line_next)
        (take_all (unread b)))

run-none : (k : ℕ) (ks : List ℕ) (b : Reader) → io_task b.next k b ≡ none → io_run (k ∷ ks) b ≡ none
unfolding io_run
run-none k ks b e = rw (e, io_run) refl

overrun :
    (ks : List ℕ) (b : Reader)
    → no_newline mapped (length (unread b)) b ≡ last_line b
    → 0 < length ks
    → io_run ks (no_newline mapped (length (unread b)) b) ≡ none
unfolding last_line io_run readline_cb
overrun [] b e n = absurd (omega arith)
overrun (k ∷ ks) b e n =
    let z : ltb (length b.block) (b.beg + length (unread b) + 1) ≡ true =
      ltb_lt _ _ (omega (arith, length-drop b.beg b.block)) in
    rw e (run-none k ks (last_line b) (rw (z, readline_cb) refl))

mapped-overrun :
    (ks block : List ℕ) (beg : ℕ) (em : List (List ℕ))
    → beg ≤ length block
    → length block < 2 ^ 31
    → ends_line (drop beg block) ≡ false
    → length (drop beg block) + 1 ≤ length ks
    → io_run ks (at block beg em) ≡ none
mapped-overrun [] block beg em h sz e n = absurd (omega arith)
mapped-overrun (k ∷ ks) block beg em h sz e n = elim (Option-cases (memchr (drop beg block))) [
  | inl q ↦
      let b = at block beg em in
      io_run-cons k ks b _ (at_last block beg em h sz q)
      ∙ overrun ks b (emit-rest b e) (omega (arith, some_left (drop beg block) e))
  | inr (i, q) ↦
      let u = drop beg block in
      let em' = em ++ (take i u ∷ []) in
      let d = drop-next block beg i in
      io_run-cons k ks (at block beg em) _ (at_newline block beg em h sz i q)
      ∙ mapped-overrun ks block (beg + i + 1) em' (next-within block beg i h q) sz
          (rw (← d) (ends_line-drop u i q ∙ e))
          (omega (
            arith,
            length-drop beg block,
            length-drop (beg + i + 1) block,
            next-within block beg i h q,
          ))
]

-- A file of less than 2 ^ 31 bytes that ends with a newline is emitted line by line, and then the
-- stream stops. One task for
-- each byte, and one more, are enough.
pub strm_readio-mapped :
    (c : ℕ) (content ks : List ℕ)
    → length (c ∷ content) < 2 ^ 31
    → ends_line (c ∷ content) ≡ true
    → length (c ∷ content) + 1 ≤ length ks
    → Ends ks (strm_readio true true (c ∷ content)) (lines (c ∷ content))
unfolding strm_readio
strm_readio-mapped c content ks sz e n = mapped-Ends ks (c ∷ content) 0 [] (omega arith) sz e n

-- Where a newline is missing at the end of a file of less than 2 ^ 31 bytes, the reader looks for one
-- beyond the map.
pub strm_readio-overrun :
    (c : ℕ) (content ks : List ℕ)
    → length (c ∷ content) < 2 ^ 31
    → ends_line (c ∷ content) ≡ false
    → length (c ∷ content) + 1 ≤ length ks
    → io_run ks (strm_readio true true (c ∷ content)) ≡ none
unfolding strm_readio
strm_readio-overrun c content ks sz e n = mapped-overrun ks (c ∷ content) 0 [] (omega arith) sz e n
