-- ===== src/Engine/StaleWalk.antt =====
-- StaleAncestors of internal/engine/engine.go against the directories that it is to look at.
use janusfs.Base.{
  ℕ, suc, ◌≤◌, ◌≡◌, refl, sym, ◌∙◌, ap, Bool, true, false, ◌||◌, not, Bool-cases, inl, inr, Option,
  some, arith, All,
}
use janusfs.Base.{List, [], ◌∷◌, ◌++◌, if◌then◌else◌, length, any, length-append, is_empty}
use janusfs.Base.Text.{Bytes, eq, has_prefix}
use janusfs.Base.FilePath.{slash, clean, clean_parts, join_slash, is_rooted, join}
use janusfs.Base.FilePath.Parts.{IsName}
use janusfs.Base.FilePath.Clean.{clean_parts-IsName, clean-rooted, begins_with}
use janusfs.Base.FilePath.Below.{rooted, below-begins_with, join-is_rooted, dir_of-is_rooted}
use janusfs.Rules.{RuleSet}
use janusfs.Engine.Stale.{Disk, Snapshot, stale_loop, first_dir, stale_ancestors}
use janusfs.Engine.Ancestors.{
  has_changed, levels, visited, begins_with-drop, stale_loop-step, loop-levels,
}
use mathlib.Core.Path.{subst}
use mathlib.Core.List.{reverse, reverse-cons, reverse-reverse}

length-reverse {ℓ} : {A : Type ℓ} (xs : List A) → length (reverse xs) ≡ length xs
length-reverse [] = refl
length-reverse (x ∷ xs) =
    ap length (reverse-cons x xs)
    ∙ omega (arith, length-append (reverse xs) (x ∷ []), length-reverse xs)

full-length : (s : Bytes) → is_empty s ≡ false → 1 ≤ length s
full-length [] h = cc
full-length (c ∷ s) h = omega arith

-- Each name of a path takes a byte.
length-join_slash : (ps : List Bytes) → All IsName ps → length ps ≤ length (join_slash ps)
length-join_slash [] h = omega arith
length-join_slash (s ∷ []) h = omega (arith, full-length s h.0.full)
length-join_slash (s ∷ t ∷ ps) h = omega (
  arith,
  full-length s h.0.full,
  length-join_slash (t ∷ ps) h.1,
  length-append s (slash ∷ join_slash (t ∷ ps)),
)

outside :
    (b at below : Bool) (r : Option Bool)
    → (at || below) ≡ false
    → (if b then some true else if at || not below then some false else r) ≡ some (b || false)
outside true at below r h = refl
outside false true below r h = cc
outside false false true r h = cc
outside false false false r h = refl

first_dir-is_rooted :
    (rs : RuleSet) (p : Bytes) (d : Bool)
    → is_rooted rs.root ≡ true
    → is_rooted (first_dir rs p d) ≡ true
unfolding first_dir
first_dir-is_rooted rs p true h = join-is_rooted rs.root p h
first_dir-is_rooted rs p false h = dir_of-is_rooted (join rs.root p) (join-is_rooted rs.root p h)

module _ (disk : Disk) (snap : Snapshot) (q : Bytes) (qs : List Bytes)
    (names : All IsName (q ∷ qs)) where
  -- From below the root.
  loop-inside :
      (dir : Bytes) (parts rest : List Bytes)
      → clean dir ≡ rooted parts
      → parts ≡ (q ∷ qs) ++ rest
      → All IsName parts
      → stale_loop (suc (length (clean dir))) disk snap (rooted (q ∷ qs)) dir
        ≡ some (any (has_changed disk snap) (levels (q ∷ qs) rest))
  loop-inside dir parts rest e split all =
      let same : reverse (reverse rest) ≡ rest = reverse-reverse rest in
      let split' : parts ≡ (q ∷ qs) ++ reverse (reverse rest) =
        split ∙ ap (λ r. (q ∷ qs) ++ r) (sym same) in
      loop-levels disk snap q qs names (suc (length (clean dir))) dir (reverse rest)
        (e ∙ ap rooted split') (subst (All IsName) split' all)
        (omega (
          arith,
          length-reverse rest,
          ap length split,
          length-append (q ∷ qs) rest,
          ap length e,
          length-join_slash parts all,
        ))
      ∙ ap (λ r. some (any (has_changed disk snap) (levels (q ∷ qs) r))) same

  -- From outside of it.
  loop-outside :
      (fuel : ℕ) (dir : Bytes) (parts : List Bytes)
      → clean dir ≡ rooted parts
      → All IsName parts
      → begins_with parts (q ∷ qs) ≡ false
      → stale_loop (suc fuel) disk snap (rooted (q ∷ qs)) dir
        ≡ some (any (has_changed disk snap) (rooted parts ∷ []))
  loop-outside fuel dir parts e all out =
      let no = below-begins_with parts q qs all names ∙ out in
      stale_loop-step fuel disk snap (rooted (q ∷ qs)) dir (rooted parts) e
      ∙ outside (has_changed disk snap (rooted parts)) (eq (rooted parts) (rooted (q ∷ qs)))
          (has_prefix (rooted parts) (rooted (q ∷ qs) ++ (slash ∷ []))) _ no

-- Where the engine's root is an absolute path other than `/`, the loop ends within its fuel, and it
-- says that the policy is stale exactly if the policy file of some directory from the root down to
-- the path's own has another modification time or size than the snapshot has, or has come or gone.
-- For a path that leads out of the root the one directory looked at is its own.
pub stale_ancestors-visited :
    (disk : Disk) (snap : Snapshot) (rs : RuleSet) (rel_path : Bytes) (is_dir : Bool) (q : Bytes)
    (qs : List Bytes)
    → is_rooted rs.root ≡ true
    → clean_parts rs.root ≡ q ∷ qs
    → stale_ancestors disk rs snap rel_path is_dir
      ≡ some (
          any
            (has_changed disk snap)
            (visited (clean_parts rs.root) (clean_parts (first_dir rs rel_path is_dir))))
unfolding stale_ancestors
stale_ancestors-visited disk snap rs rel_path is_dir q qs h parts =
    let dir = first_dir rs rel_path is_dir in
    let ps = clean_parts dir in
    let rooted_dir = first_dir-is_rooted rs rel_path is_dir h in
    let all = clean_parts-IsName dir rooted_dir in
    let names : All IsName (q ∷ qs) = subst (All IsName) parts (clean_parts-IsName rs.root h) in
    let e = clean-rooted dir rooted_dir in
    ap (λ r. stale_loop (suc (length (clean dir))) disk snap r dir)
      (clean-rooted rs.root h ∙ ap rooted parts)
    ∙ elim (Bool-cases (begins_with ps (q ∷ qs))) [
      | inl inside ↦
          rw (parts, inside)
            (loop-inside disk snap q qs names dir ps _ e (begins_with-drop ps (q ∷ qs) inside) all)
      | inr out ↦
          rw (parts, out) (loop-outside disk snap q qs names (length (clean dir)) dir ps e all out)
    ]
