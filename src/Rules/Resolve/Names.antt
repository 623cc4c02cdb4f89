-- ===== src/Rules/Resolve/Names.antt =====
-- The patterns of a resolution: one of each name.
use janusfs.Base.{
  ◌≤◌, ◌≡◌, refl, Bool, true, List, [], ◌∷◌, Bool-cases, inl, inr, is_empty, Option, none, some,
}
use janusfs.Base.Text.{Bytes}
use janusfs.Rules.{RuleSet}
use janusfs.Rules.Trace.{TraceEntry, RuleRef}
use janusfs.Rules.Ignore.{resolve_ignore}
use janusfs.Rules.Mask.{MaskState, names_of}
use janusfs.Rules.Mask.Names.{
  Distinct, count_named, count_named-le_one, mask_loop-Distinct, sort_patterns-Distinct,
}
use janusfs.Rules.Resolve.{
  Resolution, conclude, resolve_mask, resolve_self, resolve_from, resolve, normalize, ancestors,
}

-- The names are those of the patterns, and no two patterns share one.
abbrev Matched : Resolution → Type 0
Matched r = Distinct r.patterns × (r.pattern_names ≡ names_of r.patterns)

conclude-Matched : (st : MaskState) → Distinct st.pats → Matched (conclude st)
unfolding conclude
conclude-Matched st h = go st.poisoned_ref
  where
    go : (r : Option RuleRef) → Matched (conclude (record st { poisoned_ref = r }))
    go (some ref) = (tt, refl)
    go none = elim (Bool-cases (is_empty st.pats)) [
      | inl e ↦ rw e (tt, refl)
      | inr e ↦ rw e (sort_patterns-Distinct st.pats h, refl)
    ]

resolve_mask-Matched :
    (rs : RuleSet) (p : Bytes) (t : List TraceEntry) → Matched (resolve_mask rs p t)
unfolding resolve_mask
resolve_mask-Matched rs p t = conclude-Matched _ (mask_loop-Distinct rs p rs.mask_levels _ tt)

resolve_self-Matched : (rs : RuleSet) (p : Bytes) (d : Bool) → Matched (resolve_self rs p d)
unfolding resolve_self
resolve_self-Matched rs p d = elim (Bool-cases (resolve_ignore rs p d).is_hidden) [
  | inl h ↦ rw h (tt, refl)
  | inr h ↦
      rw h (elim (Bool-cases d) [
        | inl e ↦ rw e (tt, refl)
        | inr e ↦ rw e (resolve_mask-Matched rs p _)
      ])
]

resolve_from-Matched :
    (rs : RuleSet) (p : Bytes) (d : Bool) (as' : List Bytes) → Matched (resolve_from rs p d as')
unfolding resolve_from
resolve_from-Matched rs p d [] = resolve_self-Matched rs p d
resolve_from-Matched rs p d (a ∷ as') = elim (Bool-cases (resolve_ignore rs a true).is_hidden) [
  | inl h ↦ rw h (tt, refl)
  | inr h ↦ rw h (resolve_from-Matched rs p d as')
]

-- A resolution holds at most one pattern of each name, so that of several patterns that share a
-- name all but one are dropped; its names are those of its patterns, in order.
pub resolve-names :
    (rs : RuleSet) (rel_path : Bytes) (d : Bool) (n : Bytes)
    → (count_named n (resolve rs rel_path d).patterns ≤ 1)
      × ((resolve rs rel_path d).pattern_names ≡ names_of (resolve rs rel_path d).patterns)
unfolding resolve
resolve-names rs rel_path d n =
    let q = normalize rel_path in
    let (distinct, names) = resolve_from-Matched rs q d (ancestors q) in
    (count_named-le_one n _ distinct, names)
