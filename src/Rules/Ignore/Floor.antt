-- ===== src/Rules/Ignore/Floor.antt =====
-- The floor of `resolveIgnore`: what the global levels hide stays hidden.
use janusfs.Base.{◌≡◌, refl, sym, ◌∙◌, ap, Bool, true, false, not, ◌&&◌, List, [], ◌∷◌, ◌++◌}
use janusfs.Base.{arith, all, Bool-cases, inl, inr}
use janusfs.Base.Text.{Bytes}
use janusfs.Rules.{IgnorePattern, IgnoreLevel, MaskLevel, RuleSet}
use janusfs.Rules.Trace.{is_applicable, relative_to}
use janusfs.Rules.Ignore.{
  IgnoreState, global_tier, pattern_step, pattern_loop, level_step, level_loop, start,
  resolve_ignore,
}

-- The rule set with other levels.
abbrev pub with_levels : RuleSet → List IgnoreLevel → List MaskLevel → RuleSet
with_levels rs ignores masks = record rs { ignore_levels = ignores; mask_levels = masks }

pub level_loop-append :
    (rs : RuleSet) (p : Bytes) (d : Bool) (xs ys : List IgnoreLevel) (st : IgnoreState)
    → level_loop rs p d (xs ++ ys) st ≡ level_loop rs p d ys (level_loop rs p d xs st)
unfolding level_loop
level_loop-append rs p d [] ys st = refl
level_loop-append rs p d (x ∷ xs) ys st = level_loop-append rs p d xs ys (level_step rs p d st x)

-- The loop reads the root and the global directory of the rule set, and no levels.
pub level_loop-with_levels :
    (rs : RuleSet) (is : List IgnoreLevel) (ms : List MaskLevel) (p : Bytes) (d : Bool)
    (ls : List IgnoreLevel) (st : IgnoreState)
    → level_loop (with_levels rs is ms) p d ls st ≡ level_loop rs p d ls st
unfolding level_loop level_step
level_loop-with_levels rs is ms p d [] st = refl
level_loop-with_levels rs is ms p d (l ∷ ls) st =
    level_loop-with_levels rs is ms p d ls (level_step rs p d st l)

-- The path is hidden, and so is the floor.
abbrev Floored : IgnoreState → Type 0
Floored st = (st.floor_hidden ≡ true) × (st.is_hidden ≡ true)

pattern_step-Floored :
    (lvl : IgnoreLevel) (rel : Bytes) (d : Bool) (st : IgnoreState) (p : IgnorePattern)
    → Floored st
    → Floored (pattern_step false lvl rel d st p)
unfolding pattern_step
pattern_step-Floored lvl rel d st p h = ground arith

pattern_loop-Floored :
    (lvl : IgnoreLevel) (rel : Bytes) (d : Bool) (ps : List IgnorePattern) (st : IgnoreState)
    → Floored st
    → Floored (pattern_loop false lvl rel d ps st)
unfolding pattern_loop
pattern_loop-Floored lvl rel d [] st h = h
pattern_loop-Floored lvl rel d (p ∷ ps) st h =
    pattern_loop-Floored lvl rel d ps _ (pattern_step-Floored lvl rel d st p h)

module _ (rs : RuleSet) (p : Bytes) (d : Bool) where
  level_step-Floored :
      (st : IgnoreState) (lvl : IgnoreLevel)
      → global_tier rs lvl ≡ false
      → Floored st
      → Floored (level_step rs p d st lvl)
  unfolding level_step
  level_step-Floored st lvl t h = elim (Bool-cases (is_applicable lvl.is_global lvl.rel_dir p)) [
    | inr e ↦ rw e h
    | inl e ↦ elim (Bool-cases lvl.poisoned) [
      | inl bad ↦ rw (e, bad, t) (ground arith)
      | inr good ↦
          rw (e, good, t)
            (pattern_loop-Floored lvl (relative_to rs.root lvl.is_global lvl.dir lvl.rel_dir p) d
              lvl.patterns st h)
    ]
  ]

  pub level_loop-Floored :
      (ls : List IgnoreLevel) (st : IgnoreState)
      → all (λ l. not (global_tier rs l)) ls ≡ true
      → Floored st
      → Floored (level_loop rs p d ls st)
  unfolding level_loop
  level_loop-Floored [] st t h = h
  level_loop-Floored (l ∷ ls) st t h =
      let (here, rest) = and_true (not (global_tier rs l)) _ t in
      level_loop-Floored ls (level_step rs p d st l) rest
        (level_step-Floored st l (not_true (global_tier rs l) here) h)
    where
      and_true : (a b : Bool) → (a && b) ≡ true → (a ≡ true) × (b ≡ true)
      and_true a b e = ground arith

      not_true : (a : Bool) → not a ≡ true → a ≡ false
      not_true a e = ground arith

  -- Over the global levels the floor is the verdict.
  level_step-floor_eq :
      (st : IgnoreState) (lvl : IgnoreLevel)
      → global_tier rs lvl ≡ true
      → st.floor_hidden ≡ st.is_hidden
      → (level_step rs p d st lvl).floor_hidden ≡ (level_step rs p d st lvl).is_hidden
  unfolding level_step
  level_step-floor_eq st lvl t h = elim (Bool-cases (is_applicable lvl.is_global lvl.rel_dir p)) [
    | inr e ↦ rw e h
    | inl e ↦ elim (Bool-cases lvl.poisoned) [
      | inl bad ↦ rw (e, bad, t)
      | inr good ↦ rw (e, good, t)
    ]
  ]

  level_loop-floor_eq :
      (ls : List IgnoreLevel) (st : IgnoreState)
      → all (global_tier rs) ls ≡ true
      → st.floor_hidden ≡ st.is_hidden
      → (level_loop rs p d ls st).floor_hidden ≡ (level_loop rs p d ls st).is_hidden
  unfolding level_loop
  level_loop-floor_eq [] st t h = h
  level_loop-floor_eq (l ∷ ls) st t h =
      let (here, rest) = and_true (global_tier rs l) _ t in
      level_loop-floor_eq ls (level_step rs p d st l) rest (level_step-floor_eq st l here h)
    where
      and_true : (a b : Bool) → (a && b) ≡ true → (a ≡ true) × (b ≡ true)
      and_true a b e = ground arith

  -- What the global levels hide is hidden with any further levels behind them.
  pub resolve_ignore-floor :
      (globals in_tree : List IgnoreLevel) (gm im : List MaskLevel)
      → all (global_tier rs) globals ≡ true
      → all (λ l. not (global_tier rs l)) in_tree ≡ true
      → (resolve_ignore (with_levels rs globals gm) p d).is_hidden ≡ true
      → (resolve_ignore (with_levels rs (globals ++ in_tree) im) p d).is_hidden ≡ true
  unfolding resolve_ignore
  resolve_ignore-floor globals in_tree gm im tg ti h =
      let alone : (level_loop rs p d globals start).is_hidden ≡ true =
        ap (λ (s : IgnoreState). s.is_hidden)
          (sym (level_loop-with_levels rs globals gm p d globals start))
        ∙ h in
      let floor = level_loop-floor_eq globals start tg refl in
      ap (λ (s : IgnoreState). s.is_hidden)
        (level_loop-with_levels rs (globals ++ in_tree) im p d (globals ++ in_tree) start
          ∙ level_loop-append rs p d globals in_tree start)
      ∙ (level_loop-Floored in_tree (level_loop rs p d globals start) ti (floor ∙ alone, alone)).1
