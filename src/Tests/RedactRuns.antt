-- ===== src/Tests/RedactRuns.antt =====
-- Redaction over concrete buffers.
use janusfs.Base.{ℕ, ◌≤◌, ◌≡◌, refl, ◌&&◌, ◌==◌, true, List, [], ◌∷◌, ◌++◌}
use janusfs.Base.{
  arith, if◌then◌else◌, length, take, All, any, all, ltb, ok, fail, buffer_exceeded, read_failed,
}
use janusfs.Base.Text.{Bytes, codes}
use janusfs.Patterns.{Pattern, IsLawful}
use janusfs.Patterns.Builtins.{whole_file_pattern}
use janusfs.Redact.{Span, redact, merge_spans}
use janusfs.Redact.Merge.{covered, Apart, merge_spans_lem}
use janusfs.Redact.Masking.{stars, masked_at}
use janusfs.Redact.Correct.{redact_lem}
use janusfs.Redact.Stream.{
  more, eof, broken, Reader, stream, stream_whole, stream_chunked, classify, whole, line, chunked,
}
use janusfs.Redact.Stream.Modes.{
  unbounded, line_anchored, classify_mode, classify_carry, carried_by,
}
use janusfs.Redact.Stream.Masks.{contents, ends_well, Starred}
use janusfs.Redact.Stream.Whole.{breaks_with_bytes, stream_whole_lem}
use janusfs.Redact.Stream.Total.{stream-Starred, stream_returns}
use janusfs.Redact.Stream.Chunked.{stream_chunked-one_read}
use janusfs.Tests.Samples.{word_pattern, word_regexp-lawful}

abbrev pats : List Pattern
pats = word_pattern (codes "aws-key") (codes "KEY") ∷ word_pattern (codes "jwt") (codes "YEY") ∷ []

lawful : All IsLawful pats
lawful = (word_regexp-lawful (codes "KEY"), (word_regexp-lawful (codes "YEY"), tt))

-- Two matches that overlap are one span.
redact_run : redact (codes "a KEYEY b") pats ≡ ok (codes "a ***** b")
unfolding redact
redact_run = refl

whole_file_run : redact (codes "abc") (whole_file_pattern ∷ pats) ≡ ok (codes "***")
unfolding redact whole_file_pattern
whole_file_run = refl

-- The word is shorter than the tail and lies across the cut: its last byte is served as it is.
straddling_run : stream_chunked (more (codes "aa KEY zz") (eof [])) pats 4 ≡ ok (codes "aa **Y zz")
unfolding stream_chunked redact
straddling_run = refl

abbrev spans : List Span
spans = record { off = 5; len = 2 } ∷ record { off = 1; len = 3 } ∷ record { off = 2; len = 3 } ∷ []

merge_spans_lem_example :
    ((i : ℕ) → covered (merge_spans spans) i ≡ covered spans i) × Apart (merge_spans spans)
merge_spans_lem_example = merge_spans_lem spans

redact_lem_example :
    redact (codes "a KEYEY b") pats
    ≡ ok (stars (masked_at (codes "a KEYEY b") pats) (codes "a KEYEY b"))
redact_lem_example = redact_lem (codes "a KEYEY b") pats lawful

classify_mode_example :
    (classify pats).0
    ≡ (if any unbounded pats then whole else if any line_anchored pats then line else chunked)
classify_mode_example = classify_mode pats

classify_carry_example : (all (carried_by (classify pats).1) pats ≡ true) × (1 ≤ (classify pats).1)
classify_carry_example = classify_carry pats refl

abbrev input : Reader
input = more (codes "a KE") (more [] (eof (codes "YEY b")))

stream_whole_lem_example : stream_whole input pats 20 ≡ (
    if ltb 20 (length (contents input))
    then (if length (contents input) == 21 && breaks_with_bytes input
        then fail read_failed
        else fail buffer_exceeded)
    else if ends_well input
    then redact (contents input) pats
    else fail read_failed)
stream_whole_lem_example = stream_whole_lem input pats 20

-- A read error that comes with the first byte beyond the limit.
limit_run : stream_whole (broken (codes "abc")) pats 2 ≡ fail read_failed
unfolding stream_whole
limit_run = refl

stream_returns_example :
    (out : Bytes) × (stream input pats 20 ≡ ok out) × Starred out (contents input)
stream_returns_example = stream_returns pats lawful input 20 refl (omega arith)

stream_run : stream input pats 20 ≡ ok (codes "a ***** b")
unfolding stream redact
stream_run = refl

stream-Starred_example : Starred (codes "a ***** b") (contents input)
stream-Starred_example = stream-Starred pats lawful input 20 stream_run

stream_chunked-one_read_example :
    stream_chunked (more (codes "aa KEY zz") (eof [])) pats 4
    ≡ ok (
        take 5 (stars (masked_at (codes "aa KEY zz") pats) (codes "aa KEY zz"))
        ++ stars (masked_at (codes "Y zz") pats) (codes "Y zz"))
stream_chunked-one_read_example =
    stream_chunked-one_read b'a' (codes "a KEY zz") pats 4 lawful (omega arith)
