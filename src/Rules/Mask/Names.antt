-- ===== src/Rules/Mask/Names.antt =====
-- The patterns that the mask loop collects: one of each name.
use janusfs.Base.{ℕ, suc, ◌≤◌, ◌≡◌, refl, ◌∙◌, Bool, false, List, [], ◌∷◌, ◌++◌}
use janusfs.Base.{arith, any, any-append, if◌then◌else◌, Bool-cases, inl, inr, Option, none, some}
use janusfs.Base.Text.{Bytes, eq, eq→≡, eq_comm}
use janusfs.Base.Sorting.{bytes_le, insert_by, sort_by, any-insert_by, any-sort_by}
use janusfs.Patterns.{Pattern}
use janusfs.Rules.{MaskEntry, MaskError, MaskLevel, RuleSet}
use janusfs.Rules.Trace.{is_applicable}
use janusfs.Rules.Mask.{
  MaskState, has_name, add_pattern, add_patterns, entry_matches, apply_entry, entry_step,
  entry_loop, mask_step, mask_loop, sort_patterns,
}

-- How many of the patterns have the name.
abbrev pub count_named : Bytes → List Pattern → ℕ
count_named n [] = 0
count_named n (p ∷ ps) = if has_name n p then suc (count_named n ps) else count_named n ps

-- No name stands twice.
abbrev pub Distinct : List Pattern → Type 0
Distinct [] = Unit
Distinct (p ∷ ps) = (any (has_name p.name) ps ≡ false) × Distinct ps

count_named-none :
    (n : Bytes) (ps : List Pattern) → any (has_name n) ps ≡ false → count_named n ps ≡ 0
count_named-none n [] h = refl
count_named-none n (p ∷ ps) h = ground (arith, count_named-none n ps)

pub count_named-le_one : (n : Bytes) (ps : List Pattern) → Distinct ps → count_named n ps ≤ 1
unfolding has_name
count_named-le_one n [] h = omega arith
count_named-le_one n (p ∷ ps) h = elim (Bool-cases (eq p.name n)) [
  | inr e ↦ rw e (count_named-le_one n ps h.1)
  | inl e ↦ rw e (omega (arith, count_named-none n ps (rw (eq→≡ p.name n e) at h.0)))
]

Distinct-snoc :
    (ps : List Pattern) (p : Pattern)
    → any (has_name p.name) ps ≡ false
    → Distinct ps
    → Distinct (ps ++ (p ∷ []))
unfolding has_name
Distinct-snoc [] p h k = (refl, tt)
Distinct-snoc (q ∷ ps) p h k = (
  any-append (has_name q.name) ps (p ∷ []) ∙ rw k.0 (ground (arith, eq_comm p.name q.name)),
  Distinct-snoc ps p (ground arith) k.1,
)

add_pattern-Distinct :
    (pats : List Pattern) (p : Pattern) → Distinct pats → Distinct (add_pattern pats p)
unfolding add_pattern
add_pattern-Distinct pats p h = elim (Bool-cases (any (has_name p.name) pats)) [
  | inl e ↦ rw e h
  | inr e ↦ rw e (Distinct-snoc pats p e h)
]

add_patterns-Distinct : (pats ps : List Pattern) → Distinct pats → Distinct (add_patterns pats ps)
unfolding add_patterns
add_patterns-Distinct pats [] h = h
add_patterns-Distinct pats (p ∷ ps) h =
    add_patterns-Distinct (add_pattern pats p) ps (add_pattern-Distinct pats p h)

apply_entry-Distinct :
    (lvl : MaskLevel) (e : MaskEntry) (c : Option MaskError) (st : MaskState)
    → Distinct st.pats
    → Distinct (apply_entry lvl e c st).pats
unfolding apply_entry
apply_entry-Distinct lvl e none st h = add_patterns-Distinct st.pats e.patterns h
apply_entry-Distinct lvl e (some err) st h = h

entry_step-Distinct :
    (lvl : MaskLevel) (rel : Bytes) (st : MaskState) (e : MaskEntry)
    → Distinct st.pats
    → Distinct (entry_step lvl rel st e).pats
unfolding entry_step
entry_step-Distinct lvl rel st e h = elim (Bool-cases (entry_matches e rel)) [
  | inr m ↦ rw m h
  | inl m ↦ rw m (apply_entry-Distinct lvl e e.compile_err st h)
]

entry_loop-Distinct :
    (lvl : MaskLevel) (rel : Bytes) (es : List MaskEntry) (st : MaskState)
    → Distinct st.pats
    → Distinct (entry_loop lvl rel es st).pats
unfolding entry_loop
entry_loop-Distinct lvl rel [] st h = h
entry_loop-Distinct lvl rel (e ∷ es) st h =
    entry_loop-Distinct lvl rel es (entry_step lvl rel st e) (entry_step-Distinct lvl rel st e h)

mask_step-Distinct :
    (rs : RuleSet) (p : Bytes) (st : MaskState) (lvl : MaskLevel)
    → Distinct st.pats
    → Distinct (mask_step rs p st lvl).pats
unfolding mask_step
mask_step-Distinct rs p st lvl h = elim (Bool-cases (is_applicable lvl.is_global lvl.rel_dir p)) [
  | inr a ↦ rw a h
  | inl a ↦ rw a (entry_loop-Distinct lvl _ lvl.entries st h)
]

pub mask_loop-Distinct :
    (rs : RuleSet) (p : Bytes) (ls : List MaskLevel) (st : MaskState)
    → Distinct st.pats
    → Distinct (mask_loop rs p ls st).pats
unfolding mask_loop
mask_loop-Distinct rs p [] st h = h
mask_loop-Distinct rs p (l ∷ ls) st h =
    mask_loop-Distinct rs p ls (mask_step rs p st l) (mask_step-Distinct rs p st l h)

abbrev by_name : Pattern → Pattern → Bool
by_name a b = bytes_le a.name b.name

insert_by-Distinct :
    (p : Pattern) (ps : List Pattern)
    → any (has_name p.name) ps ≡ false
    → Distinct ps
    → Distinct (insert_by by_name p ps)
unfolding insert_by has_name
insert_by-Distinct p [] h k = (refl, tt)
insert_by-Distinct p (q ∷ ps) h k = elim (Bool-cases (by_name p q)) [
  | inl e ↦ rw e (h, k)
  | inr e ↦ rw e (
    any-insert_by (has_name q.name) by_name p ps ∙ ground (arith, eq_comm p.name q.name, k.0),
    insert_by-Distinct p ps (ground arith) k.1,
  )
]

sort_by-Distinct : (ps : List Pattern) → Distinct ps → Distinct (sort_by by_name ps)
unfolding sort_by
sort_by-Distinct [] h = h
sort_by-Distinct (p ∷ ps) h =
    insert_by-Distinct p (sort_by by_name ps) (any-sort_by (has_name p.name) by_name ps ∙ h.0)
      (sort_by-Distinct ps h.1)

pub sort_patterns-Distinct : (ps : List Pattern) → Distinct ps → Distinct (sort_patterns ps)
unfolding sort_patterns
sort_patterns-Distinct ps h = sort_by-Distinct ps h
