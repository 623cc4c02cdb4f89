-- ===== src/Rules/Mask/Entries.antt =====
-- What the mask loop finds, told by the entries alone: the names of the patterns that they give,
-- and whether one of them failed to compile.
use janusfs.Base.{◌≡◌, refl, ◌∙◌, Bool, true, false, not, ◌&&◌, ◌||◌, List, [], ◌∷◌}
use janusfs.Base.{
  arith, any, any-append, Bool-cases, inl, inr, is_empty, Option, none, some, or_assoc,
}
use janusfs.Base.Text.{Bytes, eq→≡}
use janusfs.Patterns.{Pattern}
use janusfs.Rules.{MaskEntry, MaskError, MaskLevel, RuleSet}
use janusfs.Rules.Trace.{is_applicable, relative_to}
use janusfs.Rules.Mask.{
  MaskState, has_name, add_pattern, add_patterns, entry_matches, apply_entry, entry_step,
  entry_loop, mask_step, mask_loop,
}

abbrev pub is_none {ℓ} : {A : Type ℓ} → Option A → Bool
is_none none = true
is_none (some a) = false

-- The entry matches and compiled.
abbrev pub is_active : Bytes → MaskEntry → Bool
is_active rel e = entry_matches e rel && is_none e.compile_err

-- The entry matches and failed to compile.
abbrev pub is_broken : Bytes → MaskEntry → Bool
is_broken rel e = entry_matches e rel && not (is_none e.compile_err)

-- A test of the entries of a level that applies to the path.
abbrev pub in_level : RuleSet → Bytes → (Bytes → MaskEntry → Bool) → MaskLevel → Bool
in_level rs p test lvl =
    is_applicable lvl.is_global lvl.rel_dir p
    && any (test (relative_to rs.root lvl.is_global lvl.dir lvl.rel_dir p)) lvl.entries

-- An active entry gives a pattern of the name, or some pattern.
abbrev pub gives : Bytes → Bytes → MaskEntry → Bool
gives n rel e = is_active rel e && any (has_name n) e.patterns

abbrev pub gives_some : Bytes → MaskEntry → Bool
gives_some rel e = is_active rel e && not (is_empty e.patterns)

add_pattern-named :
    (n : Bytes) (pats : List Pattern) (p : Pattern)
    → any (has_name n) (add_pattern pats p) ≡ (any (has_name n) pats || has_name n p)
unfolding add_pattern
add_pattern-named n pats p = elim (Bool-cases (any (has_name p.name) pats)) [
  | inr e ↦ rw e (any-append (has_name n) pats (p ∷ []) ∙ ground arith)
  | inl e ↦ rw e (elim (Bool-cases (has_name n p)) [
    | inr k ↦ ground arith
    | inl k ↦ rw (eq→≡ p.name n (unfold has_name in k)) at e ∙ ground (arith, e)
  ])
]

add_patterns-named :
    (n : Bytes) (pats ps : List Pattern)
    → any (has_name n) (add_patterns pats ps) ≡ (any (has_name n) pats || any (has_name n) ps)
unfolding add_patterns
add_patterns-named n pats [] = ground arith
add_patterns-named n pats (p ∷ ps) =
    add_patterns-named n (add_pattern pats p) ps ∙ rw (add_pattern-named n pats p, or_assoc)

add_pattern-nonempty : (pats : List Pattern) (p : Pattern) → is_empty (add_pattern pats p) ≡ false
unfolding add_pattern
add_pattern-nonempty [] p = refl
add_pattern-nonempty (q ∷ pats) p = ground arith

add_patterns-nonempty :
    (pats ps : List Pattern)
    → not (is_empty (add_patterns pats ps)) ≡ (not (is_empty pats) || not (is_empty ps))
unfolding add_patterns
add_patterns-nonempty pats [] = ground arith
add_patterns-nonempty pats (p ∷ ps) =
    add_patterns-nonempty (add_pattern pats p) ps ∙ rw (add_pattern-nonempty pats p) (ground arith)

-- A test of the state that each entry can only turn on.
abbrev Grows : (MaskState → Bool) → (Bytes → MaskEntry → Bool) → Type 0
Grows seen test =
    (lvl : MaskLevel) (rel : Bytes) (st : MaskState) (e : MaskEntry)
    → seen (entry_step lvl rel st e) ≡ (seen st || test rel e)

module _ (seen : MaskState → Bool) (test : Bytes → MaskEntry → Bool) (grows : Grows seen test) where
  entry_loop-grows :
      (lvl : MaskLevel) (rel : Bytes) (es : List MaskEntry) (st : MaskState)
      → seen (entry_loop lvl rel es st) ≡ (seen st || any (test rel) es)
  unfolding entry_loop
  entry_loop-grows lvl rel [] st = ground arith
  entry_loop-grows lvl rel (e ∷ es) st =
      entry_loop-grows lvl rel es (entry_step lvl rel st e) ∙ rw (grows lvl rel st e, or_assoc)

  mask_step-grows :
      (rs : RuleSet) (p : Bytes) (st : MaskState) (lvl : MaskLevel)
      → seen (mask_step rs p st lvl) ≡ (seen st || in_level rs p test lvl)
  unfolding mask_step
  mask_step-grows rs p st lvl = elim (Bool-cases (is_applicable lvl.is_global lvl.rel_dir p)) [
    | inr a ↦ rw a (ground arith)
    | inl a ↦ rw a (
        entry_loop-grows lvl (relative_to rs.root lvl.is_global lvl.dir lvl.rel_dir p) lvl.entries
          st)
  ]

  pub mask_loop-grows :
      (rs : RuleSet) (p : Bytes) (ls : List MaskLevel) (st : MaskState)
      → seen (mask_loop rs p ls st) ≡ (seen st || any (in_level rs p test) ls)
  unfolding mask_loop
  mask_loop-grows rs p [] st = ground arith
  mask_loop-grows rs p (l ∷ ls) st =
      mask_loop-grows rs p ls (mask_step rs p st l) ∙ rw (mask_step-grows rs p st l, or_assoc)

abbrev pub named : Bytes → MaskState → Bool
named n st = any (has_name n) st.pats

abbrev pub nonempty : MaskState → Bool
nonempty st = not (is_empty st.pats)

abbrev pub spoiled : MaskState → Bool
spoiled st = not (is_none st.poisoned_ref)

pub named-Grows : (n : Bytes) → Grows (named n) (gives n)
unfolding entry_step
named-Grows n lvl rel st e = elim (Bool-cases (entry_matches e rel)) [
  | inr m ↦ rw m (ground arith)
  | inl m ↦ rw m (go e.compile_err)
]
  where
    go :
        (c : Option MaskError)
        → named n (apply_entry lvl e c st)
          ≡ (named n st || (is_none c && any (has_name n) e.patterns))
    go none = unfold apply_entry in add_patterns-named n st.pats e.patterns
    go (some err) = unfold apply_entry in ground arith

pub nonempty-Grows : Grows nonempty gives_some
unfolding entry_step
nonempty-Grows lvl rel st e = elim (Bool-cases (entry_matches e rel)) [
  | inr m ↦ rw m (ground arith)
  | inl m ↦ rw m (go e.compile_err)
]
  where
    go :
        (c : Option MaskError)
        → nonempty (apply_entry lvl e c st)
          ≡ (nonempty st || (is_none c && not (is_empty e.patterns)))
    go none = unfold apply_entry in add_patterns-nonempty st.pats e.patterns
    go (some err) = unfold apply_entry in ground arith

pub spoiled-Grows : Grows spoiled is_broken
unfolding entry_step
spoiled-Grows lvl rel st e = elim (Bool-cases (entry_matches e rel)) [
  | inr m ↦ rw m (ground arith)
  | inl m ↦ rw m (go e.compile_err)
]
  where
    go : (c : Option MaskError) → spoiled (apply_entry lvl e c st) ≡ (spoiled st || not (is_none c))
    go none = unfold apply_entry in ground arith
    go (some err) = unfold apply_entry in ground arith
