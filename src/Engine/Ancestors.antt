-- ===== src/Engine/Ancestors.antt =====
-- What StaleAncestors of internal/engine/engine.go looks at, and that its loop ends.
use janusfs.Base.{
  ℕ, zero, suc, ◌<◌, ◌≡◌, refl, sym, ◌∙◌, ap, Bool, true, false, ◌||◌, not, Bool-cases, inl, inr,
  some, arith, All, All-append,
}
use janusfs.Base.{List, [], ◌∷◌, ◌++◌, if◌then◌else◌, length, any, drop, length-append, append-nil}
use janusfs.Base.Text.{Bytes, eq, eq→≡, eq_refl, has_prefix}
use janusfs.Base.FilePath.{slash, clean, dir_of}
use janusfs.Base.FilePath.Parts.{IsName}
use janusfs.Base.FilePath.Clean.{clean_parts-join_slash, clean-rooted, begins_with}
use janusfs.Base.FilePath.Below.{rooted, below-begins_with}
use janusfs.Base.FilePath.Parent.{dir_of-rooted, rooted-injective}
use janusfs.Engine.Stale.{Disk, Snapshot, stat_config_fp, fp_eq, snap_of, stale_loop}
use mathlib.Core.Path.{subst}
use mathlib.Core.List.{append_assoc, reverse, reverse-cons}

-- The policy file of the directory is not what the snapshot has.
abbrev pub has_changed : Disk → Snapshot → Bytes → Bool
has_changed disk snap dir = not (fp_eq (stat_config_fp disk dir) (snap_of snap dir))

-- The directories from `base` down, by their parts.
abbrev pub levels : List Bytes → List Bytes → List Bytes
levels base [] = rooted base ∷ []
levels base (p ∷ ps) = rooted base ∷ levels (base ++ (p ∷ [])) ps

-- Those that a walk from a directory up to `base` meets; one outside of it goes nowhere.
abbrev pub visited : List Bytes → List Bytes → List Bytes
visited base parts =
    if begins_with parts base then levels base (drop (length base) parts) else rooted parts ∷ []

begins_with-append : (ps qs : List Bytes) → begins_with (ps ++ qs) ps ≡ true
begins_with-append [] qs = ground arith
begins_with-append (p ∷ ps) qs = ground (arith, eq_refl p, begins_with-append ps qs)

pub begins_with-drop :
    (ps qs : List Bytes) → begins_with ps qs ≡ true → ps ≡ qs ++ drop (length qs) ps
begins_with-drop ps [] h = ground arith
begins_with-drop [] (q ∷ qs) h = cc
begins_with-drop (p ∷ ps) (q ∷ qs) h =
    ground (arith, h, eq→≡ p q (ground (arith, h)), begins_with-drop ps qs (ground (arith, h)))

any-levels :
    (f : Bytes → Bool) (base ps : List Bytes) (p : Bytes)
    → any f (levels base (ps ++ (p ∷ [])))
      ≡ (any f (levels base ps) || f (rooted (base ++ (ps ++ (p ∷ [])))))
any-levels f base [] p = ground arith
any-levels f base (q ∷ ps) p =
    ap (λ b. f (rooted base) || b)
      (any-levels f (base ++ (q ∷ [])) ps p
        ∙ ap (λ t. any f (levels (base ++ (q ∷ [])) ps) || f (rooted t))
            (append_assoc base (q ∷ []) (ps ++ (p ∷ []))))
    ∙ ground arith

pub stale_loop-step :
    (fuel : ℕ) (disk : Disk) (snap : Snapshot) (root dir here : Bytes)
    → clean dir ≡ here
    → stale_loop (suc fuel) disk snap root dir ≡ (
        if has_changed disk snap here
        then some true
        else if eq here root || not (has_prefix here (root ++ (slash ∷ [])))
        then some false
        else if eq (dir_of here) here
        then some false
        else stale_loop fuel disk snap root (dir_of here))
unfolding stale_loop
stale_loop-step fuel disk snap root dir here e = rw e refl

-- A rooted path with more names is another one.
longer :
    (ps qs : List Bytes)
    → All IsName ps
    → All IsName qs
    → length qs < length ps
    → (eq (rooted ps) (rooted qs) ≡ false) × (eq (rooted qs) (rooted ps) ≡ false)
longer ps qs h k less = (
  elim (Bool-cases (eq (rooted ps) (rooted qs))) [
    | inr e ↦ e
    | inl e ↦ absurd (omega (arith, less, ap length (rooted-injective ps qs h k (eq→≡ _ _ e))))
  ],
  elim (Bool-cases (eq (rooted qs) (rooted ps))) [
    | inr e ↦ e
    | inl e ↦ absurd (omega (arith, less, ap length (rooted-injective qs ps k h (eq→≡ _ _ e))))
  ],
)

or_right : (a b : Bool) → a ≡ false → (a || b) ≡ true → b ≡ true
or_right a b e h = cc

at_level : (b c : Bool) → (if b then some true else some c) ≡ some (c || b)
at_level true true = refl
at_level true false = refl
at_level false true = refl
at_level false false = refl

All-split {ℓ κ} :
    {A : Type ℓ} (P : A → Type κ) (xs ys : List A) → All P (xs ++ ys) → All P xs × All P ys
All-split P [] ys h = (tt, h)
All-split P (x ∷ xs) ys h = ((h.0, (All-split P xs ys h.1).0), (All-split P xs ys h.1).1)

pub at_end : (b : Bool) → (if b then some true else some false) ≡ some (b || false)
at_end true = refl
at_end false = refl

module _ (disk : Disk) (snap : Snapshot) (q : Bytes) (qs : List Bytes)
    (names : All IsName (q ∷ qs)) where
  -- At the root the loop ends.
  loop-at_root :
      (fuel : ℕ) (dir : Bytes)
      → clean dir ≡ rooted (q ∷ qs)
      → stale_loop (suc fuel) disk snap (rooted (q ∷ qs)) dir
        ≡ some (any (has_changed disk snap) (levels (q ∷ qs) []))
  loop-at_root fuel dir e =
      stale_loop-step fuel disk snap (rooted (q ∷ qs)) dir (rooted (q ∷ qs)) e
      ∙ rw (eq_refl (rooted (q ∷ qs))) (at_end (has_changed disk snap (rooted (q ∷ qs))))

  -- Above it, it goes on with the directory's parent.
  loop-below :
      (fuel : ℕ) (dir : Bytes) (ps : List Bytes) (p : Bytes)
      → clean dir ≡ rooted ((q ∷ qs) ++ (ps ++ (p ∷ [])))
      → All IsName ((q ∷ qs) ++ ps)
      → IsName p
      → stale_loop (suc fuel) disk snap (rooted (q ∷ qs)) dir ≡ (
          if has_changed disk snap (rooted ((q ∷ qs) ++ (ps ++ (p ∷ []))))
          then some true
          else stale_loop fuel disk snap (rooted (q ∷ qs)) (rooted ((q ∷ qs) ++ ps)))
  loop-below fuel dir ps p e h k =
      let base : List Bytes = q ∷ qs in
      let parts : List Bytes = base ++ (ps ++ (p ∷ [])) in
      let here = rooted parts in
      let split : (base ++ ps) ++ (p ∷ []) ≡ parts = append_assoc base ps (p ∷ []) in
      let all : All IsName parts =
        subst (All IsName) split (All-append IsName (base ++ ps) (p ∷ []) h (k, tt)) in
      let parent : dir_of here ≡ rooted (base ++ ps) =
        ap (λ t. dir_of (rooted t)) (sym split) ∙ dir_of-rooted (base ++ ps) p h k in
      let size = length-append base (ps ++ (p ∷ [])) in
      let size' = length-append ps (p ∷ []) in
      let not_root = longer parts base all names (omega (arith, size, size')) in
      let not_parent =
        longer parts (base ++ ps) all h (omega (arith, size, size', length-append base ps)) in
      let inside =
        below-begins_with parts q qs all names ∙ begins_with-append base (ps ++ (p ∷ [])) in
      stale_loop-step fuel disk snap (rooted base) dir here e
      ∙ rw (parent, not_root.0, not_parent.1, or_right (eq here (rooted base)) _ not_root.0 inside)
          refl

  pub loop-levels :
      (fuel : ℕ) (dir : Bytes) (ts : List Bytes)
      → clean dir ≡ rooted ((q ∷ qs) ++ reverse ts)
      → All IsName ((q ∷ qs) ++ reverse ts)
      → length ts < fuel
      → stale_loop fuel disk snap (rooted (q ∷ qs)) dir
        ≡ some (any (has_changed disk snap) (levels (q ∷ qs) (reverse ts)))
  loop-levels zero dir ts e h less = absurd (omega (arith, less))
  loop-levels (suc fuel) dir [] e h less =
      loop-at_root fuel dir (e ∙ ap rooted (append-nil (q ∷ qs)))
  loop-levels (suc fuel) dir (t ∷ ts) e h less =
      let base : List Bytes = q ∷ qs in
      let ps : List Bytes = reverse ts in
      let last : reverse (t ∷ ts) ≡ ps ++ (t ∷ []) = reverse-cons t ts in
      let (above, name) =
        All-split IsName (base ++ ps) (t ∷ [])
          (subst (All IsName) (ap (λ r. base ++ r) last ∙ sym (append_assoc base ps (t ∷ []))) h) in
      let clean_above : clean (rooted (base ++ ps)) ≡ rooted (base ++ ps) =
        clean-rooted (rooted (base ++ ps)) refl
        ∙ ap rooted (clean_parts-join_slash (base ++ ps) above) in
      loop-below fuel dir ps t (e ∙ ap (λ r. rooted (base ++ r)) last) above name.0
      ∙ rw (loop-levels fuel (rooted (base ++ ps)) ts clean_above above (omega (arith, less))) (
          at_level (has_changed disk snap (rooted (base ++ (ps ++ (t ∷ [])))))
            (any (has_changed disk snap) (levels base ps)))
      ∙ ap some (sym (any-levels (has_changed disk snap) base ps t))
      ∙ ap (λ r. some (any (has_changed disk snap) (levels base r))) (sym last)
