-- ===== src/Io/Waiting.antt =====
-- The reader of src/io.c on a descriptor that epoll watches.
use streem.Base.{
  ℕ, suc, zero, List, [], ◌∷◌, ◌++◌, ◌≡◌, ◌+◌, ◌*◌, ◌-◌, ◌<◌, ◌≤◌, ◌⊎◌, inl, inr, take, drop,
  length, none, some, Option-cases, arith, refl, ap, sym, ◌∙◌, append-nil, append_assoc,
  append-snoc, All, drop-append, length-drop, take-drop, length-append, Bool-cases, ltb,
  length-take_le, ◌==◌, ◌^◌, false, true, Bool,
}
use streem.Io.{
  Flags, no_newline, strm_io_stop, Reader, waiting, read_next, line_next, bufsiz, sizeof_buf,
  memchr, unread, emit, refill, readline_cb, read_cb, io_task, strm_readio, filled, given, kicked,
}
use streem.Io.Runs.{Ends, io_run-cons, io_run-stopped, readline-newline, readline-none}
use streem.Io.Lines.{lines, lines-newline, lines-rest, drop-drop, memchr-lt-length, lines-nil}

-- The bytes that are not in the strings emitted.
abbrev rest : Reader → List ℕ
rest b = unread b ++ b.input

-- The strings emitted, and the lines to come.
abbrev outcome : Reader → List (List ℕ)
outcome b = b.emitted ++ lines (rest b)

-- The buffer has room for all of the input.
record Fits (b : Reader) : Type 0 where
  flagged : b.flags ≡ waiting
  within : b.beg ≤ length b.block
  room : length b.block + length b.input < bufsiz

abbrev bulk : Reader → ℕ
bulk b = 3 * length b.input + 2 * length (unread b)

-- All that is in the buffer has been searched for a newline.
abbrev Scanned : Reader → Type 0
Scanned r = ((length r.block ≡ 0) ⊎ (r.beg < length r.block)) × (memchr (unread r) ≡ none)

-- What a task leaves behind that found the descriptor open.
record Left (b r : Reader) : Type 0 where
  fits : Fits r
  kept : outcome r ≡ outcome b
  going :
      ((r.next ≡ line_next) × (bulk r < bulk b))
      ⊎ ((r.next ≡ read_next) × (bulk r ≤ bulk b) × Scanned r)

outcome-emit :
    (em : List (List ℕ)) (u input : List ℕ) (i : ℕ)
    → memchr u ≡ some i
    → (em ++ (take i u ∷ [])) ++ lines (drop (suc i) u ++ input) ≡ em ++ lines (u ++ input)
outcome-emit em u input i h =
    append-snoc em (take i u) _ ∙ ap (λ l. em ++ l) (sym (lines-newline u input i h))

-- What is in the buffer, an int32_t counts.
small : (b : Reader) → Fits b → length (unread b) < 2 ^ 31
small b f = omega (arith, f.room, length-drop b.beg b.block)

no_newline-waiting :
    (f : Flags) (len : ℕ) (b : Reader) → f ≡ waiting → no_newline f len b ≡ refill b
no_newline-waiting f len b e = rw e refl

readline-refill : (b : Reader) → Fits b → memchr (unread b) ≡ none → readline_cb b ≡ some (refill b)
readline-refill b f q =
    readline-none b f.within (small b f) q
    ∙ ap some (no_newline-waiting b.flags (length (unread b)) b f.flagged)

newline-Left :
    (b : Reader) (i : ℕ)
    → Fits b
    → memchr (unread b) ≡ some i
    → Left b (emit (record b { beg = b.beg + i + 1 }) (take i (unread b)) line_next)
newline-Left b i f q =
    let e : drop (suc i) (drop b.beg b.block) ≡ drop (b.beg + i + 1) b.block =
      drop-drop (suc i) b.beg b.block
      ∙ (let k : b.beg + suc i ≡ b.beg + i + 1 = omega arith in ap (λ n. drop n b.block) k) in
    let l : i < length b.block - b.beg =
      rw (← length-drop b.beg b.block) (memchr-lt-length (unread b) i q) in
    record {
      fits = record { flagged = f.flagged; within = omega arith; room = f.room };
      kept = rw (← e) (outcome-emit b.emitted (unread b) b.input i q);
      going =
          inl (refl, omega (arith, length-drop (b.beg + i + 1) b.block, length-drop b.beg b.block));
    }

zero_or_pos : (n : ℕ) → (n ≡ 0) ⊎ (0 < n)
zero_or_pos zero = inl refl
zero_or_pos (suc n) = inr (omega arith)

refill-Left : (b : Reader) → Fits b → memchr (unread b) ≡ none → Left b (refill b)
refill-Left b f q = elim (Bool-cases (ltb (length (unread b)) sizeof_buf)) [
  | inl e ↦ rw e (record {
    fits = record {
      flagged = f.flagged;
      within = omega arith;
      room = omega (arith, f.room, length-drop b.beg b.block);
    };
    kept = refl;
    going = inr (refl, omega arith, (zero_or_pos (length (unread b)), q));
  })
  | inr e ↦ rw e (record {
    fits = record { flagged = f.flagged; within = f.within; room = f.room };
    kept = refl;
    going = inr (refl, omega arith, (inr (ground (arith, e, length-drop b.beg b.block)), q));
  })
]

readline_cb-Left : (b : Reader) → Fits b → (r : Reader) × (readline_cb b ≡ some r) × Left b r
readline_cb-Left b f = elim (Option-cases (memchr (unread b))) [
  | inl q ↦ (refill b, readline-refill b f q, refill-Left b f q)
  | inr (i, q) ↦ (_, readline-newline b f.within (small b f) i q, newline-Left b i f q)
]

module _ (k : ℕ) (b : Reader) (f : Fits b) where
  given_pos : 0 < k → 0 < length b.input → 0 < given k b
  given_pos h l = omega (arith, f.room)

  given_le : given k b ≤ length b.input
  given_le = omega arith

  read_cb-filled : 0 < k → 0 < length b.input → read_cb k b ≡ readline_cb (filled k b)
  unfolding read_cb
  read_cb-filled h l =
      let e : (given k b == 0) ≡ false = ground (arith, given_pos h l) in rw (e, read_cb) refl

  length-taken : length (take (given k b) b.input) ≡ given k b
  length-taken = length-take_le (given k b) b.input given_le

  filled-Fits : Fits (filled k b)
  filled-Fits = record {
    flagged = f.flagged;
    within = omega (arith, f.within, length-append b.block (take (given k b) b.input));
    room = omega (
      arith,
      f.room,
      given_le,
      length-taken,
      length-append b.block (take (given k b) b.input),
      length-drop (given k b) b.input,
    );
  }

  unread-filled : unread (filled k b) ≡ unread b ++ take (given k b) b.input
  unread-filled = drop-append b.block (take (given k b) b.input) b.beg f.within

  outcome-filled : outcome (filled k b) ≡ outcome b
  outcome-filled =
      let e : rest (filled k b) ≡ rest b =
        ap (λ u. u ++ drop (given k b) b.input) unread-filled
        ∙ append_assoc (unread b) (take (given k b) b.input) (drop (given k b) b.input)
        ∙ ap (λ t. unread b ++ t) (take-drop (given k b) b.input) in
      ap (λ t. b.emitted ++ lines t) e

  bulk-filled : 0 < k → 0 < length b.input → bulk (filled k b) < bulk b
  bulk-filled h l = omega (
    arith,
    given_pos h l,
    given_le,
    length-taken,
    ap length unread-filled,
    length-append (unread b) (take (given k b) b.input),
    length-drop (given k b) b.input,
  )

  -- At the end of the input, the bytes that are left are emitted.
  read_cb-rest :
      length b.input ≡ 0
      → 0 < length b.block
      → read_cb k b ≡ some (emit (record b { block = []; beg = 0 }) (unread b) read_next)
  unfolding read_cb
  read_cb-rest h l =
      let e : (given k b == 0) ≡ true = ground (arith, h) in
      let z : (length b.block == 0) ≡ false = ground (arith, l) in
      rw (e, read_cb)
        (rw (z, read_cb)
          (ap (λ g. some (emit (record b { block = []; beg = 0 }) (unread b) (kicked g)))
            f.flagged))

-- The next call stops the stream.
read_cb-end :
    (k : ℕ) (b : Reader)
    → length b.input ≡ 0
    → length b.block ≡ 0
    → read_cb k b ≡ some (strm_io_stop b)
unfolding read_cb
read_cb-end k b h l =
    let e : (given k b == 0) ≡ true = ground (arith, h) in
    let z : (length b.block == 0) ≡ true = ground (arith, l) in
    rw (e, read_cb) (rw (z, read_cb) refl)

Ends-step :
    (k : ℕ) (ks : List ℕ) (b r : Reader)
    → io_task b.next k b ≡ some r
    → outcome r ≡ outcome b
    → Ends ks r (outcome r)
    → Ends (k ∷ ks) b (outcome b)
Ends-step k ks b r e o (s, p, q, l) = (s, io_run-cons k ks b r e ∙ p, q, l ∙ o)

-- The number of tasks that are enough.
Enough : ℕ → Reader → Type 0
Enough n b =
    ((b.next ≡ line_next) × (bulk b + 2 ≤ n))
    ⊎ ((b.next ≡ read_next) × (bulk b + 1 ≤ n) × Scanned b)

Left-Enough : (n m : ℕ) (b r : Reader) → Left b r → bulk b < m → m ≤ n → Enough n r
unfolding Enough
Left-Enough n m b r l h k = elim l.going [
  | inl (e, d) ↦ inl (e, omega arith)
  | inr (e, d, s) ↦ inr (e, omega arith, s)
]

nil_of_length : (l : List ℕ) → length l ≡ 0 → l ≡ []
nil_of_length [] h = refl
nil_of_length (x ∷ l) h = absurd (omega arith)

lines-flush : (u : List ℕ) → 0 < length u → memchr u ≡ none → lines u ≡ u ∷ []
lines-flush [] h q = absurd (omega arith)
lines-flush (a ∷ u) h q = lines-rest a u q

outcome-flush :
    (em : List (List ℕ)) (u input : List ℕ)
    → input ≡ []
    → 0 < length u
    → memchr u ≡ none
    → (em ++ (u ∷ [])) ++ lines ([] ++ input) ≡ em ++ lines (u ++ input)
outcome-flush em u input e h q = rw e (
    rw lines-nil (
      append-nil (em ++ (u ∷ []))
      ∙ ap (λ t. em ++ t) (sym (lines-flush u h q))
      ∙ ap (λ t. em ++ lines t) (sym (append-nil u))))

flushed : Reader → Reader
flushed b = emit (record b { block = []; beg = 0 }) (unread b) read_next

-- The bytes behind the last newline, and then the stop.
end-Ends :
    (k : ℕ) (ks : List ℕ) (b : Reader)
    → length b.input ≡ 0
    → length b.block ≡ 0
    → b.next ≡ read_next
    → Ends (k ∷ ks) b (outcome b)
end-Ends k ks b h l e = (
  strm_io_stop b,
  io_run-cons k ks b _ (ap (λ n. io_task n k b) e ∙ read_cb-end k b h l)
      ∙ io_run-stopped ks (strm_io_stop b) refl,
  refl,
  sym (
      ap (λ t. b.emitted ++ lines t)
        (nil_of_length (rest b)
          (omega (arith, length-append (unread b) b.input, length-drop b.beg b.block)))
      ∙ ap (λ t. b.emitted ++ t) lines-nil
      ∙ append-nil b.emitted),
)

ends :
    (ks : List ℕ) (b : Reader)
    → Fits b
    → All (λ k. 0 < k) ks
    → Enough (length ks) b
    → Ends ks b (outcome b)
unfolding Enough flushed
ends [] b f hs en = elim en [
  | inl (e, h) ↦ absurd (omega arith)
  | inr (e, h, s) ↦ absurd (omega arith)
]
ends (k ∷ ks) b f (h, hs) (inl (e, m)) =
    let (r, p, l) = readline_cb-Left b f in
    Ends-step k ks b r (ap (λ n. io_task n k b) e ∙ p) l.kept
      (ends ks r l.fits hs (Left-Enough (length ks) (bulk b + 1) b r l (omega arith) (omega arith)))
ends (k ∷ ks) b f (h, hs) (inr (e, m, s)) = elim (zero_or_pos (length b.input)) [
  | inr pos ↦
      let (r, p, l) = readline_cb-Left (filled k b) (filled-Fits k b f) in
      Ends-step k ks b r (ap (λ n. io_task n k b) e ∙ read_cb-filled k b f h pos ∙ p)
        (l.kept ∙ outcome-filled k b f)
        (ends ks r l.fits hs (
          Left-Enough (length ks) (bulk b) (filled k b) r l (bulk-filled k b f h pos)
            (omega arith)))
  | inl z ↦ elim s.0 [
    | inl zb ↦ end-Ends k ks b z zb e
    | inr lt ↦
        Ends-step k ks b (flushed b)
          (ap (λ n. io_task n k b) e ∙ read_cb-rest k b f z (omega arith))
          (outcome-flush b.emitted (unread b) b.input (nil_of_length b.input z)
            (omega (arith, length-drop b.beg b.block)) s.1)
          (ends ks (flushed b)
            (record { flagged = f.flagged; within = omega arith; room = omega (arith, f.room) }) hs
            (inr (refl, omega (arith, length-drop b.beg b.block), (inl refl, refl))))
  ]
]

-- A descriptor that epoll watches, with less than BUFSIZ bytes to come, gives the lines of its bytes
-- and then stops the stream, however the bytes are split over the calls of `read`, each of which
-- gives at least one byte while there are any. Three tasks for each byte, and one more, are enough.
pub strm_readio-waiting :
    (content : List ℕ) (can_map : Bool) (ks : List ℕ)
    → length content < bufsiz
    → All (λ k. 0 < k) ks
    → 3 * length content + 1 ≤ length ks
    → Ends ks (strm_readio false can_map content) (lines content)
unfolding strm_readio Enough
strm_readio-waiting content can_map ks h p q =
    ends ks (strm_readio false can_map content)
      (record { flagged = refl; within = omega arith; room = omega arith }) p
      (inr (refl, omega arith, (inl refl, refl)))
