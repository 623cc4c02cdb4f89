-- ===== src/Redact/Stream.antt =====
-- `Stream` of internal/redact/redact.go: the three ways to redact a reader's bytes. The writer is
-- a buffer in memory, as its caller passes, whose writes cannot fail; `out` is what it holds.
pub mod Modes
pub mod Masks
pub mod Whole
pub mod Total
pub mod Chunked
use janusfs.Base.{ℕ, zero, suc, ◌+◌, ◌-◌, ◌≤◌, Bool, true, false, not, ◌&&◌, Option, none, some}
use janusfs.Base.{List, [], ◌∷◌, ◌++◌, leb, ltb, ◌==◌, if◌then◌else◌, length, take, drop, is_empty}
use janusfs.Base.{Result, ok, fail, buffer_exceeded, read_failed, ◌>>=◌}
use janusfs.Base.Text.{Bytes, codes, eq, has_prefix}
use janusfs.Patterns.{Pattern, Matcher, whole_file, regex}
use janusfs.Redact.{redact}

-- What the calls of `Read` return in turn: bytes (none is possible) with no error, until one call
-- returns its bytes with io.EOF or with another error.
pub data Reader : Type 0 where
  more : Bytes → Reader → Reader
  eof : Bytes → Reader
  broken : Bytes → Reader

pub data Mode : Type 0 where
  chunked line whole : Mode

-- `builtinCarryLen`.
unfoldable pub builtin_carry_len : Bytes → Option ℕ
builtin_carry_len name =
    if eq name (codes "env-value")
    then some 4096
    else if eq name (codes "aws-key")
    then some 128
    else if eq name (codes "jwt")
    then some 8192
    else if eq name (codes "db-uri")
    then some 4096
    else if eq name (codes "github-token")
    then some 256
    else if eq name (codes "generic-secret")
    then some 4096
    else none

-- What one pattern asks for in the loop of `classify`.
pub data Demand : Type 0 where
  buffer_all : Demand
  by_line : Demand
  carry : ℕ → Demand

unfoldable pub demand : Pattern → Demand
unfolding builtin_carry_len
demand p = elim p.matcher [
  | whole_file ↦ buffer_all
  | regex re ↦
      if not p.builtin
      then (if has_prefix re.source (codes "(?m)") then by_line else buffer_all)
      else if eq p.name (codes "private-key")
      then buffer_all
      else elim (builtin_carry_len p.name) [ none ↦ carry 0 | some l ↦ carry l ]
]

-- A line-anchored custom regex turns the chunked mode into the line mode.
unfoldable pub to_line : Mode → Mode
to_line chunked = line
to_line line = line
to_line whole = whole

-- The loop of `classify` over the patterns, with the mode and the length so far.
unfoldable pub classify_loop : List Pattern → Mode → ℕ → Mode × ℕ
unfolding demand to_line
classify_loop [] m len = (m, if len == 0 then 4096 else len)
classify_loop (p ∷ ps) m len = elim (demand p) [
  | buffer_all ↦ (whole, 0)
  | by_line ↦ classify_loop ps (to_line m) len
  | carry l ↦ classify_loop ps m (if ltb len l then l else len)
]

unfoldable pub classify : List Pattern → Mode × ℕ
unfolding classify_loop
classify ps = classify_loop ps chunked 0

-- `io.ReadAll(io.LimitReader(r, n))`: a read is asked for no more than is left of `n`, and there is no
-- further one behind that. An error that comes with the last bytes asked for is returned.
unfoldable pub read_all : ℕ → Reader → Bytes → Result Bytes
read_all n (eof b) acc = ok (acc ++ take n b)
read_all n (broken b) acc = if leb (length b) n then fail read_failed else ok (acc ++ take n b)
read_all n (more b r) acc =
    let rest = read_all (n - length b) r (acc ++ b) in
    if leb n (length b) then ok (acc ++ take n b) else rest

unfoldable pub stream_whole : Reader → List Pattern → ℕ → Result Bytes
unfolding read_all
stream_whole r pats max_buffer = read_all (max_buffer + 1) r [] >>= λ buf.
    if ltb max_buffer (length buf) then fail buffer_exceeded else redact buf pats

abbrev newline : ℕ
newline = 10

-- The bytes up to and with the last newline, and those behind it; `none` if there is no newline.
unfoldable pub split_last_line : Bytes → Option (Bytes × Bytes)
split_last_line [] = none
split_last_line (b ∷ buf) = elim (split_last_line buf) [
  | some (lines, rest) ↦ some (b ∷ lines, rest)
  | none ↦ if b == newline then some (b ∷ [], buf) else none
]

-- What is written, and what stays in the buffer.
unfoldable pub flush_complete_lines : Bytes → List Pattern → Result (Bytes × Bytes)
unfolding split_last_line
flush_complete_lines buf pats = elim (split_last_line buf) [
  | none ↦ ok ([], buf)
  | some (lines, rest) ↦ redact lines pats >>= λ redacted. ok (redacted, rest)
]

unfoldable pub flush_except_tail : Bytes → List Pattern → ℕ → Result (Bytes × Bytes)
flush_except_tail buf pats carry_len =
    if leb (length buf) carry_len
    then ok ([], buf)
    else redact buf pats >>= λ redacted.
        let cut = length buf - carry_len in ok (take cut redacted, drop cut buf)

-- The body of both loops under `n > 0`: the buffer, already with the bytes read, is flushed.
abbrev pub Flush : Type 0
Flush = Bytes → Result (Bytes × Bytes)

unfoldable pub line_flush : List Pattern → ℕ → Flush
unfolding flush_complete_lines
line_flush pats max_buffer buf =
    if ltb max_buffer (length buf) then fail buffer_exceeded else flush_complete_lines buf pats

unfoldable pub tail_flush : List Pattern → ℕ → Flush
unfolding flush_except_tail
tail_flush pats carry_len buf = flush_except_tail buf pats carry_len

-- `n == 0` skips the body.
unfoldable pub flush_read : Flush → Bytes → Bytes → Result (Bytes × Bytes)
flush_read flush buf b = if is_empty b then ok ([], buf) else flush (buf ++ b)

-- The loop that `streamLines` and `streamChunked` share: what each call writes, in order.
unfoldable pub stream_loop : Flush → List Pattern → Reader → Bytes → Result Bytes
unfolding flush_read
stream_loop flush pats (more b r) buf = flush_read flush buf b >>= λ (written, kept).
    stream_loop flush pats r kept >>= λ later. ok (written ++ later)
stream_loop flush pats (eof b) buf = flush_read flush buf b >>= λ (written, kept).
    redact kept pats >>= λ later. ok (written ++ later)
stream_loop flush pats (broken b) buf = flush_read flush buf b >>= λ _. fail read_failed

unfoldable pub stream_lines : Reader → List Pattern → ℕ → Result Bytes
unfolding stream_loop line_flush
stream_lines r pats max_buffer = stream_loop (line_flush pats max_buffer) pats r []

unfoldable pub stream_chunked : Reader → List Pattern → ℕ → Result Bytes
unfolding stream_loop tail_flush
stream_chunked r pats carry_len = stream_loop (tail_flush pats carry_len) pats r []

unfoldable pub stream : Reader → List Pattern → ℕ → Result Bytes
unfolding classify stream_whole stream_lines stream_chunked
stream r pats max_buffer =
    let (m, carry_len) = classify pats in
    elim m [
      | whole ↦ stream_whole r pats max_buffer
      | line ↦ stream_lines r pats max_buffer
      | chunked ↦ stream_chunked r pats carry_len
    ]
