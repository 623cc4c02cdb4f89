-- ===== src/Redact/Correct.antt =====
-- `FindSpans` and `Redact`: which bytes of a buffer become stars.
use janusfs.Base.{ℕ, ◌<◌, ◌≡◌, refl, sym, ◌∙◌, ap, true, false, ◌&&◌}
use janusfs.Base.{List, [], ◌∷◌, arith, if◌then◌else◌, any, any-append, All}
use janusfs.Base.{Bool-cases, inl, inr, length, ok, is_empty}
use janusfs.Base.Text.{Bytes}
use janusfs.Patterns.{Match, Pattern, Matcher, whole_file, regex, IsLawful}
use janusfs.Redact.{
  Span, find_spans, has_whole_file, is_whole_file, selected, span_of, match_spans, may_match,
  pattern_spans, all_spans, fill_spans, redact,
}
use janusfs.Redact.Merge.{holds, covered, covered-merge_spans}
use janusfs.Redact.Bounds.{find_spans-Bounded}
use janusfs.Redact.Masking.{
  stars, match_marks, marks, masked_at, stars_from_ext, stars_from_none, length-stars_from,
  fill_spans-stars,
}

covered-span_of : (g i : ℕ) (m : Match) → covered (span_of 0 (selected g m)) i ≡ match_marks g i m
unfolding span_of
covered-span_of g i m = ground arith

covered-match_spans :
    (g i : ℕ) (ms : List Match) → covered (match_spans 0 g ms) i ≡ any (match_marks g i) ms
unfolding match_spans
covered-match_spans g i [] = refl
covered-match_spans g i (m ∷ ms) =
    any-append (holds i) (span_of 0 (selected g m)) (match_spans 0 g ms)
    ∙ rw (covered-span_of g i m, covered-match_spans g i ms)

covered-pattern_spans :
    (buf : Bytes) (i : ℕ) (p : Pattern)
    → is_whole_file p ≡ false
    → covered (pattern_spans buf 0 p) i ≡ marks buf i p
unfolding pattern_spans is_whole_file
covered-pattern_spans buf i p h = go p.matcher h
  where
    go :
        (m : Matcher)
        → elim m [ whole_file ↦ true | regex re ↦ false ] ≡ false
        → covered
            (elim m [
              | whole_file ↦ []
              | regex re ↦
                  if may_match p.pre_filter buf
                  then match_spans 0 p.group_index (re.find_all buf)
                  else []
            ])
            i
          ≡ elim m [
            | whole_file ↦ true
            | regex re ↦
                may_match p.pre_filter buf && any (match_marks p.group_index i) (re.find_all buf)
          ]
    go whole_file h = cc
    go (regex re) h = elim (Bool-cases (may_match p.pre_filter buf)) [
      | inl e ↦ rw (e, covered-match_spans p.group_index i (re.find_all buf))
      | inr e ↦ rw e
    ]

covered-all_spans :
    (buf : Bytes) (i : ℕ) (ps : List Pattern)
    → has_whole_file ps ≡ false
    → covered (all_spans buf 0 ps) i ≡ masked_at buf ps i
unfolding all_spans has_whole_file
covered-all_spans buf i [] h = refl
covered-all_spans buf i (p ∷ ps) h =
    any-append (holds i) (pattern_spans buf 0 p) (all_spans buf 0 ps)
    ∙ rw (covered-pattern_spans buf i p (ground arith), covered-all_spans buf i ps (ground arith))

masked_at-whole_file :
    (buf : Bytes) (i : ℕ) (ps : List Pattern) → has_whole_file ps ≡ true → masked_at buf ps i ≡ true
unfolding has_whole_file is_whole_file
masked_at-whole_file buf i [] h = cc
masked_at-whole_file buf i (p ∷ ps) h = ground (arith, masked_at-whole_file buf i ps)

-- Before the end of the buffer the spans that `FindSpans` returns cover the positions that some
-- pattern marks, and no others.
pub covered-find_spans :
    (buf : Bytes) (ps : List Pattern) (i : ℕ)
    → i < length buf
    → covered (find_spans buf 0 ps) i ≡ masked_at buf ps i
unfolding find_spans
covered-find_spans buf ps i h = elim (Bool-cases (has_whole_file ps)) [
  | inl e ↦ rw (e, masked_at-whole_file buf i ps e) (ground arith)
  | inr e ↦ rw e (covered-merge_spans (all_spans buf 0 ps) i ∙ covered-all_spans buf i ps e)
]

-- With patterns whose matches lie within the buffer, `Redact` never panics, and returns the buffer
-- with a star at every position that some pattern marks, and each other byte as it was.
pub redact_lem :
    (buf : Bytes) (ps : List Pattern)
    → All IsLawful ps
    → redact buf ps ≡ ok (stars (masked_at buf ps) buf)
unfolding redact
redact_lem buf ps h = go (find_spans buf 0 ps) refl
  where
    agree :
        (ss : List Span) (i : ℕ)
        → find_spans buf 0 ps ≡ ss
        → i < length buf
        → covered ss i ≡ masked_at buf ps i
    agree ss i e k = ap (λ (t : List Span). covered t i) (sym e) ∙ covered-find_spans buf ps i k

    go :
        (ss : List Span)
        → find_spans buf 0 ps ≡ ss
        → (if is_empty ss then ok buf else fill_spans ss buf) ≡ ok (stars (masked_at buf ps) buf)
    go [] e = ap ok (
        sym (stars_from_none 0 buf)
        ∙ stars_from_ext 0 (λ _. false) (masked_at buf ps) buf
            (λ i k l. agree [] i e (omega arith)))
    go (s ∷ ss) e =
        ap (fill_spans (s ∷ ss)) (sym (stars_from_none 0 buf))
        ∙ fill_spans-stars (s ∷ ss) (λ _. false) buf (rw e at (find_spans-Bounded buf ps h))
        ∙ ap ok (
            stars_from_ext 0 (λ i. covered (s ∷ ss) i) (masked_at buf ps) buf
              (λ i k l. agree (s ∷ ss) i e (omega arith)))

-- The redaction has the length of the buffer.
pub length-redact :
    (buf : Bytes) (ps : List Pattern)
    → All IsLawful ps
    → (out : Bytes) × (redact buf ps ≡ ok out) × (length out ≡ length buf)
length-redact buf ps h =
    (stars (masked_at buf ps) buf, redact_lem buf ps h, length-stars_from 0 (masked_at buf ps) buf)
