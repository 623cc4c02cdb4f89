-- ===== src/Redact/Merge.antt =====
-- `mergeSpans`: the merged spans cover what the given ones cover, in order and apart.
use janusfs.Base.{ℕ, ◌≤◌, ◌<◌, ◌≡◌, refl, ◌∙◌, ap, Bool, ◌&&◌}
use janusfs.Base.{◌||◌, List, [], ◌∷◌, arith, leb, ltb, any}
use janusfs.Base.{or_assoc, Bool-cases, inl, inr}
use janusfs.Redact.{Span, end_of, insert, sort, extend, coalesce, coalesce_all, merge_spans}

-- The span holds the position `i`.
abbrev pub holds : ℕ → Span → Bool
holds i s = leb s.off i && ltb i (end_of s)

abbrev pub covered : List Span → ℕ → Bool
covered spans i = any (holds i) spans

-- Every span starts at `n` or later, in order.
abbrev pub SortedFrom : ℕ → List Span → Type 0
SortedFrom n [] = Unit
SortedFrom n (s ∷ ss) = (n ≤ s.off) × SortedFrom s.off ss

-- Every span starts after `n`, and after the end of the one before it.
abbrev pub ApartFrom : ℕ → List Span → Type 0
ApartFrom n [] = Unit
ApartFrom n (s ∷ ss) = (n < s.off) × ApartFrom (end_of s) ss

abbrev pub Apart : List Span → Type 0
Apart [] = Unit
Apart (s ∷ ss) = ApartFrom (end_of s) ss

covered-insert : (s : Span) (ss : List Span) (i : ℕ) → covered (insert s ss) i ≡ covered (s ∷ ss) i
unfolding insert
covered-insert s [] i = refl
covered-insert s (t ∷ ts) i = elim (Bool-cases (leb s.off t.off)) [
  | inl e ↦ rw e
  | inr e ↦ rw (e, covered-insert s ts i) (swap (holds i t) (holds i s) (covered ts i))
]
  where
    swap : (a b c : Bool) → (a || (b || c)) ≡ (b || (a || c))
    swap a b c = ground arith

covered-sort : (ss : List Span) (i : ℕ) → covered (sort ss) i ≡ covered ss i
unfolding sort
covered-sort [] i = refl
covered-sort (s ∷ ss) i =
    covered-insert s (sort ss) i ∙ ap (λ b. holds i s || b) (covered-sort ss i)

insert-SortedFrom :
    (n : ℕ) (s : Span) (ss : List Span) → n ≤ s.off → SortedFrom n ss → SortedFrom n (insert s ss)
unfolding insert
insert-SortedFrom n s [] h k = (h, tt)
insert-SortedFrom n s (t ∷ ts) h k = elim (Bool-cases (leb s.off t.off)) [
  | inl e ↦ rw e (h, (ground arith, k.1))
  | inr e ↦ rw e (k.0, insert-SortedFrom t.off s ts (ground arith) k.1)
]

pub sort-SortedFrom : (ss : List Span) → SortedFrom 0 (sort ss)
unfolding sort
sort-SortedFrom [] = tt
sort-SortedFrom (s ∷ ss) = insert-SortedFrom 0 s (sort ss) (omega arith) (sort-SortedFrom ss)

-- Growing a span by one that starts within its reach adds what that one covers.
holds-extend :
    (cur next : Span) (i : ℕ)
    → cur.off ≤ next.off
    → next.off ≤ end_of cur
    → holds i (extend cur next) ≡ (holds i cur || holds i next)
unfolding extend
holds-extend cur next i h k = ground arith

extend-off : (cur next : Span) → (extend cur next).off ≡ cur.off
unfolding extend
extend-off cur next = ground arith

SortedFrom-weaken : (m n : ℕ) (ss : List Span) → m ≤ n → SortedFrom n ss → SortedFrom m ss
SortedFrom-weaken m n [] h k = tt
SortedFrom-weaken m n (s ∷ ss) h k = (omega arith, k.1)

SortedFrom-extend :
    (cur next : Span) (rest : List Span)
    → SortedFrom cur.off (next ∷ rest)
    → SortedFrom (extend cur next).off rest
SortedFrom-extend cur next rest h = rw extend-off (SortedFrom-weaken cur.off next.off rest h.0 h.1)

covered-coalesce :
    (cur : Span) (ss : List Span) (i : ℕ)
    → SortedFrom cur.off ss
    → covered (coalesce cur ss) i ≡ covered (cur ∷ ss) i
unfolding coalesce
covered-coalesce cur [] i h = refl
covered-coalesce cur (next ∷ rest) i h = elim (Bool-cases (leb next.off (end_of cur))) [
  | inl e ↦ rw (
    e,
    covered-coalesce (extend cur next) rest i (SortedFrom-extend cur next rest h),
    holds-extend cur next i h.0 (ground arith),
    or_assoc,
  )
  | inr e ↦ rw e (ap (λ b. holds i cur || b) (covered-coalesce next rest i h.1))
]

-- What `coalesce` returns starts where the current span starts, and its parts are apart.
coalesce-Apart :
    (n : ℕ) (cur : Span) (ss : List Span)
    → n < cur.off
    → SortedFrom cur.off ss
    → ApartFrom n (coalesce cur ss)
unfolding coalesce
coalesce-Apart n cur [] h k = (h, tt)
coalesce-Apart n cur (next ∷ rest) h k = elim (Bool-cases (leb next.off (end_of cur))) [
  | inl e ↦ rw e (
      coalesce-Apart n (extend cur next) rest (rw extend-off h) (SortedFrom-extend cur next rest k))
  | inr e ↦ rw e (h, coalesce-Apart (end_of cur) next rest (ground arith) k.1)
]

coalesce-Apart_first :
    (cur : Span) (ss : List Span) → SortedFrom cur.off ss → Apart (coalesce cur ss)
unfolding coalesce
coalesce-Apart_first cur [] k = tt
coalesce-Apart_first cur (next ∷ rest) k = elim (Bool-cases (leb next.off (end_of cur))) [
  | inl e ↦ rw e (coalesce-Apart_first (extend cur next) rest (SortedFrom-extend cur next rest k))
  | inr e ↦ rw e (coalesce-Apart (end_of cur) next rest (ground arith) k.1)
]

coalesce_all-Apart : (ss : List Span) → SortedFrom 0 ss → Apart (coalesce_all ss)
unfolding coalesce_all
coalesce_all-Apart [] h = tt
coalesce_all-Apart (s ∷ ss) h = coalesce-Apart_first s ss h.1

covered-coalesce_all :
    (ss : List Span) (i : ℕ) → SortedFrom 0 ss → covered (coalesce_all ss) i ≡ covered ss i
unfolding coalesce_all
covered-coalesce_all [] i h = refl
covered-coalesce_all (s ∷ ss) i h = covered-coalesce s ss i h.1

pub covered-merge_spans : (ss : List Span) (i : ℕ) → covered (merge_spans ss) i ≡ covered ss i
unfolding merge_spans
covered-merge_spans ss i = covered-coalesce_all (sort ss) i (sort-SortedFrom ss) ∙ covered-sort ss i

-- The merged spans cover the same positions as the given ones, and each starts behind the end of
-- the one before it, with a gap.
pub merge_spans_lem :
    (ss : List Span)
    → ((i : ℕ) → covered (merge_spans ss) i ≡ covered ss i) × Apart (merge_spans ss)
unfolding merge_spans
merge_spans_lem ss = (covered-merge_spans ss, coalesce_all-Apart (sort ss) (sort-SortedFrom ss))
