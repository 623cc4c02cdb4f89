-- ===== src/Redact.antt =====
-- internal/redact/redact.go: the spans that a pattern set matches, and their redaction.
pub mod Merge
pub mod Bounds
pub mod Masking
pub mod Correct
pub mod Stream
use janusfs.Base.{ℕ, zero, suc, ◌+◌, ◌-◌, ◌≤◌, Bool, true, false, ◌&&◌, Option, none, some}
use janusfs.Base.{List, [], ◌∷◌, ◌++◌, leb, ltb, if◌then◌else◌, length, get_elem?, is_empty}
use janusfs.Base.{Result, ok, fail, panic, ◌>>=◌}
use janusfs.Base.Text.{Bytes}
use janusfs.Patterns.{Match, Pattern, Matcher, whole_file, regex}

-- A range to mask: an absolute offset and a length.
pub record Span : Type 0 where
  pub off : ℕ
  pub len : ℕ

unfoldable pub is_whole_file : Pattern → Bool
is_whole_file p = elim p.matcher [ whole_file ↦ true | regex re ↦ false ]

unfoldable pub has_whole_file : List Pattern → Bool
unfolding is_whole_file
has_whole_file [] = false
has_whole_file (p ∷ ps) = if is_whole_file p then true else has_whole_file ps

-- The span that is masked for a match: that of the pattern's group if it took part in the match.
unfoldable pub selected : ℕ → Match → ℕ × ℕ
selected zero m = (m.start, m.stop)
selected (suc g) m = elim (get_elem? m.groups g) [
  | none ↦ (m.start, m.stop)
  | some none ↦ (m.start, m.stop)
  | some (some s) ↦ s
]

unfoldable pub span_of : ℕ → ℕ × ℕ → List Span
span_of base (a, b) = if ltb a b then record { off = base + a; len = b - a } ∷ [] else []

unfoldable pub match_spans : ℕ → ℕ → List Match → List Span
unfolding selected span_of
match_spans base g [] = []
match_spans base g (m ∷ ms) = span_of base (selected g m) ++ match_spans base g ms

-- `p.PreFilter != nil && !p.PreFilter(buf)` skips the pattern.
unfoldable pub may_match : Option (Bytes → Bool) → Bytes → Bool
may_match none buf = true
may_match (some f) buf = f buf

unfoldable pub pattern_spans : Bytes → ℕ → Pattern → List Span
unfolding match_spans may_match
pattern_spans buf base p = elim p.matcher [
  | whole_file ↦ []
  | regex re ↦
      if may_match p.pre_filter buf then match_spans base p.group_index (re.find_all buf) else []
]

-- The spans of all patterns, before they are merged.
unfoldable pub all_spans : Bytes → ℕ → List Pattern → List Span
unfolding pattern_spans
all_spans buf base [] = []
all_spans buf base (p ∷ ps) = pattern_spans buf base p ++ all_spans buf base ps

-- `slices.SortFunc` by offset.
unfoldable pub insert : Span → List Span → List Span
insert s [] = s ∷ []
insert s (t ∷ ts) = if leb s.off t.off then s ∷ t ∷ ts else t ∷ insert s ts

unfoldable pub sort : List Span → List Span
unfolding insert
sort [] = []
sort (s ∷ ss) = insert s (sort ss)

abbrev pub end_of : Span → ℕ
end_of s = s.off + s.len

-- The current span, grown if the next one reaches past its end.
unfoldable pub extend : Span → Span → Span
extend cur next =
    if ltb (end_of cur) (end_of next) then record cur { len = end_of next - cur.off } else cur

-- The loop of `mergeSpans`: `cur` is `spans[writeIdx]`.
unfoldable pub coalesce : Span → List Span → List Span
unfolding extend
coalesce cur [] = cur ∷ []
coalesce cur (next ∷ rest) =
    let joined = coalesce (extend cur next) rest in
    let apart = cur ∷ coalesce next rest in if leb next.off (end_of cur) then joined else apart

unfoldable pub coalesce_all : List Span → List Span
unfolding coalesce
coalesce_all [] = []
coalesce_all (s ∷ ss) = coalesce s ss

unfoldable pub merge_spans : List Span → List Span
unfolding coalesce_all sort
merge_spans spans = coalesce_all (sort spans)

unfoldable pub find_spans : Bytes → ℕ → List Pattern → List Span
unfolding has_whole_file merge_spans all_spans
find_spans buf base pats =
    if has_whole_file pats
    then record { off = base; len = length buf } ∷ []
    else merge_spans (all_spans buf base pats)

abbrev pub star : ℕ
star = b'*'

-- `for i := range sub { sub[i] = '*' }` for the part of `out` from `off` on.
unfoldable pub fill : ℕ → ℕ → Bytes → Bytes
fill off len [] = []
fill zero zero (b ∷ out) = b ∷ out
fill zero (suc len) (b ∷ out) = star ∷ fill zero len out
fill (suc off) len (b ∷ out) = b ∷ fill off len out

-- `out[s.Off : s.Off+s.Len]` panics where the span does not lie in the buffer.
unfoldable pub fill_span : Span → Bytes → Result Bytes
unfolding fill
fill_span s out = if leb (end_of s) (length out) then ok (fill s.off s.len out) else fail panic

unfoldable pub fill_spans : List Span → Bytes → Result Bytes
unfolding fill_span
fill_spans [] out = ok out
fill_spans (s ∷ ss) out = fill_span s out >>= fill_spans ss

unfoldable pub redact : Bytes → List Pattern → Result Bytes
unfolding find_spans fill_spans
redact buf pats =
    let spans = find_spans buf 0 pats in if is_empty spans then ok buf else fill_spans spans buf
