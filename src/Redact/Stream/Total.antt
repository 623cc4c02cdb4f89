-- ===== src/Redact/Stream/Total.antt =====
-- `Stream` returns a result: for a reader that ends with io.EOF within the limit no mode fails.
use janusfs.Base.{ℕ, ◌+◌, ◌-◌, ◌≤◌, ◌≡◌, refl, sym, ◌∙◌, ap, true, false}
use janusfs.Base.{List, [], ◌∷◌, ◌++◌, arith, leb, ltb, length, take, drop, inl, inr}
use janusfs.Base.{ok, append_assoc, Bool-cases, Option-cases, length-append, All}
use janusfs.Base.Text.{Bytes}
use janusfs.Patterns.{Pattern, IsLawful}
use janusfs.Redact.Masking.{stars, masked_at}
use janusfs.Redact.Correct.{redact_lem}
use janusfs.Redact.Stream.{
  Reader, more, eof, broken, Flush, flush_read, stream_loop, line_flush, tail_flush,
  flush_complete_lines, split_last_line, stream, stream_lines, stream_chunked, stream_whole,
  classify, whole, line, chunked, Mode,
}
use janusfs.Redact.Stream.Masks.{
  contents, ends_well, Starred, FlushMasks, flush_read-masks, stream_loop-Starred, line_flush-masks,
  tail_flush-masks, redact-Starred,
}
use janusfs.Redact.Stream.Whole.{stream_whole_lem}

-- The flush succeeds on every buffer within the limit.
abbrev FlushReturns : ℕ → Flush → Type 0
FlushReturns n flush =
    (buf : Bytes) → length buf ≤ n → (w : Bytes) × (k : Bytes) × (flush buf ≡ ok (w, k))

module _ (ps : List Pattern) (lawful : All IsLawful ps) where
  tail_flush-returns : (n m : ℕ) → FlushReturns m (tail_flush ps n)
  unfolding tail_flush
  tail_flush-returns n m buf h = elim (Bool-cases (leb (length buf) n)) [
    | inl short ↦ ([], buf, rw short)
    | inr long ↦ (
      take (length buf - n) (stars (masked_at buf ps) buf),
      drop (length buf - n) buf,
      rw (long, redact_lem buf ps lawful),
    )
  ]

  line_flush-returns : (n : ℕ) → FlushReturns n (line_flush ps n)
  unfolding line_flush
  line_flush-returns n buf h =
      rw (let e : ltb n (length buf) ≡ false = ground arith in e)
        (elim (Option-cases (split_last_line buf)) [
          | inl absent ↦ ([], buf, rw (absent, flush_complete_lines))
          | inr ((lines, rest), found) ↦ (
            stars (masked_at lines ps) lines,
            rest,
            rw (found, flush_complete_lines) (rw (redact_lem lines ps lawful)),
          )
        ])

  module _ (n : ℕ) (flush : Flush) (masks : FlushMasks flush) (returns : FlushReturns n flush) where
    flush_read-returns :
        (buf b : Bytes)
        → length (buf ++ b) ≤ n
        → (w : Bytes) × (k : Bytes) × (flush_read flush buf b ≡ ok (w, k))
    unfolding flush_read
    flush_read-returns buf [] h = ([], buf, refl)
    flush_read-returns buf (c ∷ b) h = returns (buf ++ c ∷ b) h

    pub stream_loop-returns :
        (r : Reader) (buf : Bytes)
        → ends_well r ≡ true
        → length (buf ++ contents r) ≤ n
        → (out : Bytes) × (stream_loop flush ps r buf ≡ ok out)
    unfolding stream_loop
    stream_loop-returns (broken b) buf h k = cc
    stream_loop-returns (eof b) buf h k =
        let (w, kept, flushed) = flush_read-returns buf b k in
        (w ++ stars (masked_at kept ps) kept, rw (flushed, redact_lem kept ps lawful))
    stream_loop-returns (more b r) buf h k =
        let split : buf ++ (b ++ contents r) ≡ (buf ++ b) ++ contents r =
          sym (append_assoc buf b (contents r)) in
        let total : length (buf ++ (b ++ contents r)) ≡ length (buf ++ b) + length (contents r) =
          ap length split ∙ length-append (buf ++ b) (contents r) in
        let (w, kept, flushed) = flush_read-returns buf b (omega arith) in
        let (front, parts, done) = flush_read-masks ps lawful flush masks buf b w kept flushed in
        let (out, later) = stream_loop-returns r kept h (
          omega
            (arith, ap length parts, length-append front kept, length-append kept (contents r))) in
        (w ++ out, rw (flushed, later))

  -- Whatever the mode, a result is the starred form of all that the reader delivers.
  pub stream-Starred :
      (r : Reader) (max_buffer : ℕ) {out : Bytes}
      → stream r ps max_buffer ≡ ok out
      → Starred out (contents r)
  unfolding stream
  stream-Starred r max_buffer {out} h = go (classify ps).0 h
    where
      go :
          (m : Mode)
          → elim m [
            | whole ↦ stream_whole r ps max_buffer
            | line ↦ stream_lines r ps max_buffer
            | chunked ↦ stream_chunked r ps (classify ps).1
          ]
            ≡ ok out
          → Starred out (contents r)
      go whole h =
          redact-Starred (contents r) ps lawful (ground (arith, stream_whole_lem r ps max_buffer))
      go line h =
          stream_loop-Starred ps lawful (line_flush ps max_buffer)
            (line_flush-masks ps lawful max_buffer) r [] h
      go chunked h =
          stream_loop-Starred ps lawful (tail_flush ps (classify ps).1)
            (tail_flush-masks ps lawful (classify ps).1) r [] h

  -- A reader that ends with io.EOF and delivers at most the limit is streamed without an error in
  -- every mode, and the output is the input with some bytes replaced by stars.
  pub stream_returns :
      (r : Reader) (max_buffer : ℕ)
      → ends_well r ≡ true
      → length (contents r) ≤ max_buffer
      → (out : Bytes) × (stream r ps max_buffer ≡ ok out) × Starred out (contents r)
  unfolding stream
  stream_returns r max_buffer h k =
      let (out, done) = go (classify ps).0 in (out, done, stream-Starred r max_buffer done)
    where
      go :
          (m : Mode)
          → (out : Bytes) × (elim m [
            | whole ↦ stream_whole r ps max_buffer
            | line ↦ stream_lines r ps max_buffer
            | chunked ↦ stream_chunked r ps (classify ps).1
          ]
              ≡ ok out)
      go whole = (
        stars (masked_at (contents r) ps) (contents r),
        stream_whole_lem r ps max_buffer
            ∙ rw ((let e : ltb max_buffer (length (contents r)) ≡ false = ground arith in e), h)
                (redact_lem (contents r) ps lawful),
      )
      go line =
          stream_loop-returns max_buffer (line_flush ps max_buffer)
            (line_flush-masks ps lawful max_buffer) (line_flush-returns max_buffer) r [] h k
      go chunked =
          stream_loop-returns max_buffer (tail_flush ps (classify ps).1)
            (tail_flush-masks ps lawful (classify ps).1)
            (tail_flush-returns (classify ps).1 max_buffer) r [] h k
