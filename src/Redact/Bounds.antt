-- ===== src/Redact/Bounds.antt =====
-- `FindSpans`: the spans of lawful patterns lie in the buffer, and stay there when they are merged.
use janusfs.Base.{ℕ, zero, suc, ◌≤◌}
use janusfs.Base.{List, [], ◌∷◌, arith, leb, if◌then◌else◌, All}
use janusfs.Base.{Bool-cases, inl, inr, length, get_elem?, Option, none, some, All-append}
use janusfs.Base.Text.{Bytes}
use janusfs.Patterns.{
  Match, Pattern, Matcher, whole_file, regex, IsLawful, MatcherIsLawful, IsWithin, Within,
  GroupWithin,
}
use janusfs.Redact.{
  Span, end_of, insert, sort, extend, coalesce, coalesce_all, merge_spans, find_spans,
  has_whole_file, selected, span_of, match_spans, may_match, pattern_spans, all_spans,
}

-- Every span ends at `n` at most.
abbrev pub Bounded : ℕ → List Span → Type 0
Bounded n = All (λ s. end_of s ≤ n)

insert-Bounded :
    (n : ℕ) (s : Span) (ss : List Span) → end_of s ≤ n → Bounded n ss → Bounded n (insert s ss)
unfolding insert
insert-Bounded n s [] h k = (h, tt)
insert-Bounded n s (t ∷ ts) h k = elim (Bool-cases (leb s.off t.off)) [
  | inl e ↦ rw e (h, k)
  | inr e ↦ rw e (k.0, insert-Bounded n s ts h k.1)
]

sort-Bounded : (n : ℕ) (ss : List Span) → Bounded n ss → Bounded n (sort ss)
unfolding sort
sort-Bounded n [] h = tt
sort-Bounded n (s ∷ ss) h = insert-Bounded n s (sort ss) h.0 (sort-Bounded n ss h.1)

extend-bounded :
    (n : ℕ) (cur next : Span) → end_of cur ≤ n → end_of next ≤ n → end_of (extend cur next) ≤ n
unfolding extend
extend-bounded n cur next h k = ground arith

coalesce-Bounded :
    (n : ℕ) (cur : Span) (ss : List Span)
    → end_of cur ≤ n
    → Bounded n ss
    → Bounded n (coalesce cur ss)
unfolding coalesce
coalesce-Bounded n cur [] h k = (h, tt)
coalesce-Bounded n cur (next ∷ rest) h k = elim (Bool-cases (leb next.off (end_of cur))) [
  | inl e ↦ rw e (coalesce-Bounded n (extend cur next) rest (extend-bounded n cur next h k.0) k.1)
  | inr e ↦ rw e (h, coalesce-Bounded n next rest k.0 k.1)
]

coalesce_all-Bounded : (n : ℕ) (ss : List Span) → Bounded n ss → Bounded n (coalesce_all ss)
unfolding coalesce_all
coalesce_all-Bounded n [] h = tt
coalesce_all-Bounded n (s ∷ ss) h = coalesce-Bounded n s ss h.0 h.1

merge_spans-Bounded : (n : ℕ) (ss : List Span) → Bounded n ss → Bounded n (merge_spans ss)
unfolding merge_spans
merge_spans-Bounded n ss h = coalesce_all-Bounded n (sort ss) (sort-Bounded n ss h)

selected-Within : (n g : ℕ) (m : Match) → IsWithin n m → Within n (selected g m)
unfolding selected
selected-Within n zero m h = (h.ordered, h.bounded)
selected-Within n (suc g) m h = go m.groups g h.groups_within
  where
    go :
        (gs : List (Option (ℕ × ℕ))) (k : ℕ)
        → All (GroupWithin n) gs
        → Within n (elim (get_elem? gs k) [
          | none ↦ (m.start, m.stop)
          | some none ↦ (m.start, m.stop)
          | some (some s) ↦ s
        ])
    go [] k a = (h.ordered, h.bounded)
    go (none ∷ gs) zero a = (h.ordered, h.bounded)
    go (some s ∷ gs) zero a = a.0
    go (s ∷ gs) (suc k) a = go gs k a.1

span_of-Bounded : (n : ℕ) (s : ℕ × ℕ) → Within n s → Bounded n (span_of 0 s)
unfolding span_of
span_of-Bounded n (a, b) h = ground arith

match_spans-Bounded :
    (n g : ℕ) (ms : List Match) → All (IsWithin n) ms → Bounded n (match_spans 0 g ms)
unfolding match_spans
match_spans-Bounded n g [] h = tt
match_spans-Bounded n g (m ∷ ms) h =
    All-append (λ s. end_of s ≤ n) (span_of 0 (selected g m)) (match_spans 0 g ms)
      (span_of-Bounded n (selected g m) (selected-Within n g m h.0))
      (match_spans-Bounded n g ms h.1)

pattern_spans-Bounded :
    (buf : Bytes) (p : Pattern) → IsLawful p → Bounded (length buf) (pattern_spans buf 0 p)
unfolding pattern_spans
pattern_spans-Bounded buf p h = go p.matcher h
  where
    go :
        (m : Matcher)
        → MatcherIsLawful m
        → Bounded (length buf) (elim m [
          | whole_file ↦ []
          | regex re ↦
              if may_match p.pre_filter buf
              then match_spans 0 p.group_index (re.find_all buf)
              else []
        ])
    go whole_file h = tt
    go (regex re) h = elim (Bool-cases (may_match p.pre_filter buf)) [
      | inl e ↦ rw e (match_spans-Bounded (length buf) p.group_index (re.find_all buf) (h buf))
      | inr e ↦ rw e tt
    ]

all_spans-Bounded :
    (buf : Bytes) (ps : List Pattern) → All IsLawful ps → Bounded (length buf) (all_spans buf 0 ps)
unfolding all_spans
all_spans-Bounded buf [] h = tt
all_spans-Bounded buf (p ∷ ps) h =
    All-append (λ s. end_of s ≤ length buf) (pattern_spans buf 0 p) (all_spans buf 0 ps)
      (pattern_spans-Bounded buf p h.0) (all_spans-Bounded buf ps h.1)

pub find_spans-Bounded :
    (buf : Bytes) (ps : List Pattern) → All IsLawful ps → Bounded (length buf) (find_spans buf 0 ps)
unfolding find_spans
find_spans-Bounded buf ps h = elim (Bool-cases (has_whole_file ps)) [
  | inl e ↦ rw e (omega arith, tt)
  | inr e ↦
      rw e (merge_spans-Bounded (length buf) (all_spans buf 0 ps) (all_spans-Bounded buf ps h))
]
