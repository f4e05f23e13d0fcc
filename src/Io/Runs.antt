-- ===== src/Io/Runs.antt =====
-- Runs of the tasks of a reader of src/io.c.
use streem.Base.{
  ℕ, List, [], ◌∷◌, ◌≡◌, none, some, refl, ap, ◌∙◌, ◌≤◌, ◌<◌, ◌%◌, ◌^◌, leb, false, length, take,
  ltb_ge, arith,
}
use streem.Io.{
  Reader, io_task, io_run, stopped, memchr, unread, emit_line, newline_at, readline_cb, no_newline,
  search, found,
}
use streem.Io.Lines.{memchr-lt-length}

pub io_run-cons :
    (k : ℕ) (ks : List ℕ) (b r : Reader)
    → io_task b.next k b ≡ some r
    → io_run (k ∷ ks) b ≡ io_run ks r
unfolding io_run
io_run-cons k ks b r e = rw (e, io_run) refl

pub io_run-stopped : (ks : List ℕ) (b : Reader) → b.next ≡ stopped → io_run ks b ≡ some b
unfolding io_run
io_run-stopped [] b e = refl
io_run-stopped (k ∷ ks) b e =
    io_run-cons k ks b b (ap (λ n. io_task n k b) e) ∙ io_run-stopped ks b e

-- The run of the tasks comes to its end with these strings.
abbrev pub Ends : List ℕ → Reader → List (List ℕ) → Type 0
Ends ks b ls = (r : Reader) × (io_run ks b ≡ some r) × (r.next ≡ stopped) × (r.emitted ≡ ls)

pub take_all : (xs : List ℕ) → take (length xs) xs ≡ xs
take_all [] = refl
take_all (x ∷ xs) = ap (λ t. x ∷ t) (take_all xs)

-- A length that an int32_t holds.
module _ (b : Reader) (h : b.beg ≤ length b.block) (l : length (unread b) < 2 ^ 31) where
  length_fits : length (unread b) % 2 ^ 32 ≡ length (unread b)
  length_fits = omega (arith, l)

  readline_found : readline_cb b ≡ found (memchr (unread b)) (length (unread b)) b
  unfolding readline_cb
  readline_found =
      let p : leb (2 ^ 31) (length (unread b)) ≡ false = ground (arith, l) in
      let c : search (length (unread b)) b
          ≡ found (memchr (take (length (unread b)) (unread b))) (length (unread b)) b =
        rw p refl in
      rw (ltb_ge (length b.block) b.beg h, readline_cb)
        (ap (λ n. search n b) length_fits
          ∙ c
          ∙ ap (λ u. found (memchr u) (length (unread b)) b) (take_all (unread b)))

  pub readline-newline : (i : ℕ) → memchr (unread b) ≡ some i → readline_cb b ≡ some (emit_line i b)
  readline-newline i q =
      let k : i < length (unread b) = memchr-lt-length (unread b) i q in
      let e : i % 2 ^ 32 ≡ i = omega (arith, l) in
      let p : leb (2 ^ 31) i ≡ false = ground (arith, l, k) in
      let n : newline_at i b ≡ some (emit_line i b) = rw e (rw p refl) in
      readline_found ∙ ap (λ o. found o (length (unread b)) b) q ∙ n

  pub readline-none :
      memchr (unread b) ≡ none → readline_cb b ≡ some (no_newline b.flags (length (unread b)) b)
  readline-none q = readline_found ∙ ap (λ o. found o (length (unread b)) b) q
