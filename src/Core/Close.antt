-- ===== src/Core/Close.antt =====
-- `strm_stream_close` and `task_exec` of src/core.c.
use streem.Base.{
  ◌≡◌, Bool, true, false, not, none, some, if◌then◌else◌, ◌==◌, ◌&&◌, ℕ, Status, ok, arith, ==_iff,
  ==_refl, i32_dec, i32_negative,
}
use streem.Value.{Value, nil}
use streem.Core.{
  killed_p, killed, closing, World, with_stream, mark_killed, strm_stream_close, run_close,
}
use streem.Core.Push.{accept, copies, count, close_targets-streams}
use streem.Core.Emit.{targets}

-- More than one reference is left, so that a close only gives one back.
abbrev pub shared : ℕ → Bool
shared n = not (i32_negative (i32_dec n)) && not (i32_dec n == 0)

module _ (callback : ℕ → World → ℕ → Value → Status × World) where
  -- A close of a stream that other references are left to gives one back, and changes nothing else
  -- of any stream, nor the number of streams.
  pub strm_stream_close-shared :
      (w : World) (s t : ℕ)
      → killed_p (w.streams s).mode ≡ false
      → shared (w.streams s).refcnt ≡ true
      → ((strm_stream_close callback w s).streams t ≡ (
          if s == t
          then record (w.streams t) { refcnt = i32_dec (w.streams t).refcnt }
          else w.streams t))
        × ((strm_stream_close callback w s).stream_count ≡ w.stream_count)
  unfolding strm_stream_close
  strm_stream_close-shared w s t k c = (ground (arith, ==_iff s t), ground arith)

  -- The last close of a stream whose close function does not fail, with w' as it leaves the world:
  -- each stream gets one task that closes it for each time that it is among the targets, unless it
  -- is dying or killed, and there is one stream less.
  pub strm_stream_close_last :
      (w w' : World) (s t c : ℕ)
      → killed_p (w.streams s).mode ≡ false
      → shared (w.streams s).refcnt ≡ false
      → (w.streams s).close_func ≡ some c
      → callback c (mark_killed w s) s nil ≡ (ok, w')
      → ((strm_stream_close callback w s).streams t
          ≡ accept (w'.streams t) (
              copies (count t (targets (w'.streams s))) (record { func = closing; data_of = nil })))
        × ((strm_stream_close callback w s).stream_count ≡ i32_dec w'.stream_count)
  unfolding strm_stream_close
  strm_stream_close_last w w' s t c k n f e =
      let y = w'.streams s in
      let r = close_targets-streams w' y.dst y.rest t in (ground (arith, r.0), ground (arith, r.1))

  -- The last close of a stream without a close function: the stream is killed and its data is freed,
  -- every other stream gets one task that closes it for each time that it is among the targets,
  -- unless it is dying or killed, and there is one stream less.
  pub strm_stream_close_plain :
      (w : World) (s t : ℕ)
      → killed_p (w.streams s).mode ≡ false
      → shared (w.streams s).refcnt ≡ false
      → (w.streams s).close_func ≡ none
      → ((strm_stream_close callback w s).streams t ≡ (
          if s == t
          then record (w.streams t) {
            refcnt = i32_dec (w.streams t).refcnt;
            mode = killed;
            has_data = false;
          }
          else accept (w.streams t) (
              copies (count t (targets (w.streams s))) (record { func = closing; data_of = nil }))))
        × ((strm_stream_close callback w s).stream_count ≡ i32_dec w.stream_count)
  unfolding strm_stream_close run_close
  strm_stream_close_plain w s t k n f =
      let w2 = mark_killed w s in
      let w3 = with_stream w2 s (record (w2.streams s) { has_data = false }) in
      let x = w.streams s in
      let r = close_targets-streams w3 x.dst x.rest t in
      (ground (arith, r.0, ==_refl s, ==_iff s t), ground (arith, r.1, ==_refl s))
