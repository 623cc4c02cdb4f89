-- ===== src/Rules/Resolve/Precedence.antt =====
-- `Resolve`: hidden directories, the global floor, and the patterns of a resolution.
use janusfs.Base.{
  ℕ, ◌≤◌, ◌≡◌, refl, sym, ◌∙◌, ap, Bool, true, false, not, ◌||◌, List, [], ◌∷◌, ◌++◌,
}
use janusfs.Base.{arith, any, all, any-append, if◌then◌else◌, ◌==◌, Bool-cases, inl, inr, map}
use janusfs.Base.Text.{Bytes}
use janusfs.Base.FilePath.{slash}
use janusfs.Rules.{Decision, allowed, masked, hidden, IgnoreLevel, MaskLevel, RuleSet}
use janusfs.Rules.Ignore.{global_tier}
use janusfs.Rules.Ignore.Floor.{with_levels, resolve_ignore-floor}
use janusfs.Rules.Mask.Entries.{in_level, gives_some, is_broken}
use janusfs.Rules.Resolve.{resolve, normalize, ancestors}
use janusfs.Rules.Resolve.Decide.{hides, mask_decision, resolve-decision}

any-map :
    (f : Bytes → Bytes) (q : Bytes → Bool) (xs : List Bytes)
    → any q (map f xs) ≡ any (λ x. q (f x)) xs
any-map f q [] = refl
any-map f q (x ∷ xs) = ap (λ b. q (f x) || b) (any-map f q xs)

or_step : (x y w z : Bool) → ((y || w) ≡ true → z ≡ true) → ((x || y) || w) ≡ true → (x || z) ≡ true
or_step true y w z f e = refl
or_step false y w z f e = f e

-- The ancestors of a path below `a` include those of `a`, and `a` itself.
ancestors-below :
    (q : Bytes → Bool) (a s : Bytes)
    → (any q (ancestors a) || q a) ≡ true
    → any q (ancestors (a ++ (slash ∷ s))) ≡ true
unfolding ancestors
ancestors-below q [] s h = ground arith
ancestors-below q (c ∷ a) s h = elim (Bool-cases (c == slash)) [
  | inl e ↦
      rw (e, any-map (λ t. c ∷ t) q (ancestors (a ++ (slash ∷ s))))
        (or_step (q []) _ (q (c ∷ a)) _ (ancestors-below (λ t. q (c ∷ t)) a s)
          (rw (e, any-map (λ t. c ∷ t) q (ancestors a)) at h))
  | inr e ↦
      rw (e, any-map (λ t. c ∷ t) q (ancestors (a ++ (slash ∷ s))))
        (ancestors-below (λ t. q (c ∷ t)) a s (rw (e, any-map (λ t. c ∷ t) q (ancestors a)) at h))
]

hidden_dir :
    (h d : Bool) (m : Decision)
    → (if h then hidden else if true then allowed else m) ≡ hidden
    → h ≡ true
hidden_dir h d m e = ground arith

-- Let `a` and `a/s` be paths in the form that Resolve cleans them to. If the rules hide the
-- directory `a`, they hide `a/s`, whatever else they say of it. The children of the mount root are
-- `s` in that form, so nothing is said of rules that hide the root itself.
pub resolve-below_hidden :
    (rs : RuleSet) (a s : Bytes) (is_dir : Bool)
    → normalize a ≡ a
    → normalize (a ++ (slash ∷ s)) ≡ a ++ (slash ∷ s)
    → (resolve rs a true).decision ≡ hidden
    → (resolve rs (a ++ (slash ∷ s)) is_dir).decision ≡ hidden
resolve-below_hidden rs a s is_dir na nb h =
    let below : any (hides rs true) (ancestors (a ++ (slash ∷ s))) ≡ true =
      ancestors-below (hides rs true) a s (
        hidden_dir _ true (mask_decision rs a) (rw na at (sym (resolve-decision rs a true) ∙ h))) in
    rw (resolve-decision, nb, below)

-- How far a decision restricts a path.
abbrev pub rank : Decision → ℕ
rank allowed = 0
rank masked = 1
rank hidden = 2

or_mono :
    (a b c d : Bool)
    → (a ≡ true → b ≡ true)
    → (c ≡ true → d ≡ true)
    → (a || c) ≡ true
    → (b || d) ≡ true
or_mono true b c d f g e = rw (f refl)
or_mono false b c d f g e = rw (g e) (ground arith)

any_mono :
    (f g : Bytes → Bool) (xs : List Bytes)
    → ((x : Bytes) → f x ≡ true → g x ≡ true)
    → any f xs ≡ true
    → any g xs ≡ true
any_mono f g [] h e = e
any_mono f g (x ∷ xs) h e = or_mono (f x) (g x) (any f xs) (any g xs) (h x) (any_mono f g xs h) e

rank_mono :
    (h h' d b b' m m' : Bool)
    → (h ≡ true → h' ≡ true)
    → rank (
        if h
        then hidden
        else if d
        then allowed
        else if b
        then hidden
        else if m
        then masked
        else allowed)
      ≤ rank (
          if h'
          then hidden
          else if d
          then allowed
          else if b || b'
          then hidden
          else if m || m'
          then masked
          else allowed)
rank_mono true h' d b b' m m' f = rw (f refl) (omega arith)
rank_mono false h' d b b' m m' f = ground arith

module _ (rs : RuleSet) (globals in_tree : List IgnoreLevel) (gm im : List MaskLevel) where
  abbrev global_only : RuleSet
  global_only = with_levels rs globals gm

  abbrev both : RuleSet
  both = with_levels rs (globals ++ in_tree) (gm ++ im)

  hides_mono :
      (d : Bool) (q : Bytes)
      → all (global_tier rs) globals ≡ true
      → all (λ l. not (global_tier rs l)) in_tree ≡ true
      → hides global_only d q ≡ true
      → hides both d q ≡ true
  hides_mono d q tg ti h = resolve_ignore-floor rs q d globals in_tree gm (gm ++ im) tg ti h

  -- The policy files of a tree can only restrict what the global policy allows: with any in-tree
  -- levels of hide, allow and mask rules behind the global ones, a path that the global policy
  -- hides stays hidden, and one that it masks is masked or hidden.
  pub resolve-floor :
      (p : Bytes) (d : Bool)
      → all (global_tier rs) globals ≡ true
      → all (λ l. not (global_tier rs l)) in_tree ≡ true
      → rank (resolve global_only p d).decision ≤ rank (resolve both p d).decision
  resolve-floor p d tg ti =
      rw
        (
          resolve-decision global_only p d,
          resolve-decision both p d,
          any-append (in_level both q is_broken) gm im,
          any-append (in_level both q gives_some) gm im,
        )
        (rank_mono _ _ d _ _ _ _ (
          or_mono _ _ _ _
            (any_mono (hides global_only true) (hides both true) (ancestors q)
              (λ x e. hides_mono true x tg ti e))
            (hides_mono d q tg ti)))
    where
      q : Bytes
      q = normalize p
