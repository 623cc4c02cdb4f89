-- ===== src/Redact/Masking.antt =====
-- The loops of `Redact` that write stars.
use janusfs.Base.{ℕ, zero, suc, ◌+◌, ◌≤◌, ◌<◌, ◌≡◌, refl, ◌∙◌, ap, Bool, true, false, ◌&&◌}
use janusfs.Base.{◌||◌, List, [], ◌∷◌, arith, leb, ltb, if◌then◌else◌, any}
use janusfs.Base.{length, ok}
use janusfs.Base.Text.{Bytes}
use janusfs.Patterns.{Match, Pattern, whole_file, regex}
use janusfs.Redact.{Span, end_of, selected, may_match, fill, fill_span, fill_spans, star}
use janusfs.Redact.Merge.{holds, covered}
use janusfs.Redact.Bounds.{Bounded}

-- The bytes with a star at each position, counted from `n`, where `f` holds.
abbrev pub stars_from : ℕ → (ℕ → Bool) → Bytes → Bytes
stars_from n f [] = []
stars_from n f (b ∷ buf) = (if f n then star else b) ∷ stars_from (n + 1) f buf

abbrev pub stars : (ℕ → Bool) → Bytes → Bytes
stars f buf = stars_from 0 f buf

-- The match's selected span holds the position.
abbrev pub match_marks : ℕ → ℕ → Match → Bool
match_marks g i m = let s = selected g m in leb s.0 i && ltb i s.1

-- The pattern marks the position of the buffer: it is the whole-file sentinel, or its prefilter
-- lets the buffer through and one of its matches selects a span with the position.
abbrev pub marks : Bytes → ℕ → Pattern → Bool
marks buf i p = elim p.matcher [
  | whole_file ↦ true
  | regex re ↦ may_match p.pre_filter buf && any (match_marks p.group_index i) (re.find_all buf)
]

abbrev pub masked_at : Bytes → List Pattern → ℕ → Bool
masked_at buf pats i = any (marks buf i) pats

pub stars_from_ext :
    (n : ℕ) (f g : ℕ → Bool) (buf : Bytes)
    → ((i : ℕ) → n ≤ i → i < n + length buf → f i ≡ g i)
    → stars_from n f buf ≡ stars_from n g buf
stars_from_ext n f g [] h = refl
stars_from_ext n f g (b ∷ buf) h = rw (
  h n (omega arith) (omega arith),
  stars_from_ext (n + 1) f g buf (λ i k l. h i (omega arith) (omega arith)),
)

pub stars_from_none : (n : ℕ) (buf : Bytes) → stars_from n (λ _. false) buf ≡ buf
stars_from_none n [] = refl
stars_from_none n (b ∷ buf) = rw (stars_from_none (n + 1) buf)

pub length-stars_from :
    (n : ℕ) (f : ℕ → Bool) (buf : Bytes) → length (stars_from n f buf) ≡ length buf
length-stars_from n f [] = refl
length-stars_from n f (b ∷ buf) = ap suc (length-stars_from (n + 1) f buf)

abbrev reaches : ℕ → ℕ → ℕ → Bool
reaches a b i = leb a i && ltb i b

-- A fill over an already starred buffer adds the positions of the fill.
fill-stars_from :
    (n off len : ℕ) (f : ℕ → Bool) (buf : Bytes)
    → fill off len (stars_from n f buf)
      ≡ stars_from n (λ i. f i || reaches (n + off) (n + off + len) i) buf
unfolding fill
fill-stars_from n off len f [] = refl
fill-stars_from n zero zero f (b ∷ buf) =
    stars_from_ext n f (λ i. f i || reaches (n + zero) (n + zero + zero) i) (b ∷ buf)
      (λ i h k. ground arith)
fill-stars_from n zero (suc len) f (b ∷ buf) =
    rw
      (
        fill-stars_from (n + 1) zero len f buf,
        stars_from_ext (n + 1) (λ i. f i || reaches (n + 1 + zero) (n + 1 + zero + len) i)
            (λ i. f i || reaches (n + zero) (n + zero + suc len) i) buf (λ i h k. ground arith),
      )
      (ground arith)
fill-stars_from n (suc off) len f (b ∷ buf) =
    rw
      (
        fill-stars_from (n + 1) off len f buf,
        stars_from_ext (n + 1) (λ i. f i || reaches (n + 1 + off) (n + 1 + off + len) i)
            (λ i. f i || reaches (n + suc off) (n + suc off + len) i) buf (λ i h k. ground arith),
      )
      (ground arith)

fill_span-stars :
    (s : Span) (f : ℕ → Bool) (buf : Bytes)
    → end_of s ≤ length buf
    → fill_span s (stars f buf) ≡ ok (stars (λ i. f i || holds i s) buf)
unfolding fill_span
fill_span-stars s f buf h =
    rw
      (
        length-stars_from 0 f buf,
        fill-stars_from 0 s.off s.len f buf,
        stars_from_ext 0 (λ i. f i || reaches (0 + s.off) (0 + s.off + s.len) i)
            (λ i. f i || holds i s) buf (λ i k l. ground arith),
      )
      (ground arith)

pub fill_spans-stars :
    (ss : List Span) (f : ℕ → Bool) (buf : Bytes)
    → Bounded (length buf) ss
    → fill_spans ss (stars f buf) ≡ ok (stars (λ i. f i || covered ss i) buf)
unfolding fill_spans
fill_spans-stars [] f buf h =
    ap ok (stars_from_ext 0 f (λ i. f i || false) buf (λ i k l. ground arith))
fill_spans-stars (s ∷ ss) f buf h = rw (fill_span-stars s f buf h.0) (
    fill_spans-stars ss (λ i. f i || holds i s) buf h.1
    ∙ ap ok (stars_from_ext 0 _ _ buf (λ i k l. ground arith)))
