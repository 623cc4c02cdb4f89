-- ===== src/Redact/Stream/Chunked.antt =====
-- `streamChunked` over a file that one read delivers: where the carried tail is scanned alone.
use janusfs.Base.{ℕ, ◌-◌, ◌<◌, ◌≡◌, false}
use janusfs.Base.{List, [], ◌∷◌, ◌++◌, arith, leb, length, take, drop, All, ok}
use janusfs.Base.Text.{Bytes}
use janusfs.Patterns.{Pattern, IsLawful}
use janusfs.Redact.Masking.{stars, masked_at}
use janusfs.Redact.Correct.{redact_lem}
use janusfs.Redact.Stream.{more, eof, flush_except_tail, stream_chunked}

-- If one read delivers the file and it is longer than the carried tail, then what stands before the
-- tail is masked as in the whole file, but a byte of the tail is masked exactly if a scan of the
-- tail alone marks it: a match that begins before the cut is not continued behind it.
pub stream_chunked-one_read :
    (b : ℕ) (buf : Bytes) (ps : List Pattern) (n : ℕ)
    → All IsLawful ps
    → n < length (b ∷ buf)
    → let a : Bytes = b ∷ buf in
      let cut : ℕ = length a - n in
      stream_chunked (more a (eof [])) ps n
      ≡ ok (take cut (stars (masked_at a ps) a) ++ stars (masked_at (drop cut a) ps) (drop cut a))
unfolding stream_chunked flush_except_tail
stream_chunked-one_read b buf ps n lawful h =
    rw
      (
        (let e : leb (length (b ∷ buf)) n ≡ false = ground arith in e),
        redact_lem (b ∷ buf) ps lawful,
      )
      (rw (redact_lem (drop (length (b ∷ buf) - n) (b ∷ buf)) ps lawful))
