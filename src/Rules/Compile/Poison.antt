-- ===== src/Rules/Compile/Poison.antt =====
-- A line that does not compile poisons its level.
use janusfs.Base.{
  ℕ, ◌+◌, ◌≡◌, refl, sym, ◌∙◌, ap, Bool, true, false, Option, none, some, List, [], ◌∷◌, ◌++◌, ◌||◌,
}
use janusfs.Base.{
  arith, any, any-append, if◌then◌else◌, length, Bool-cases, inl, inr, or_assoc, ◌==◌,
}
use janusfs.Base.Text.{Bytes}
use janusfs.Patterns.{RegexpPackage}
use janusfs.Rules.{IgnoreLevel}
use janusfs.Rules.Glob.{Compiled, compiled, bad_glob, compile_pattern_fold}
use janusfs.Rules.Compile.{
  add_compiled, add_ignore_pattern, add_all, compile_ignore_policy, trimmed, negated, empty_level,
  load_policy_level, PolicyRead, absent, unreadable, unparsable, parsed,
}

abbrev pub is_bad : Compiled → Bool
is_bad (compiled p) = false
is_bad (bad_glob e) = true

-- The level is there and poisoned.
abbrev pub is_poisoned : Option IgnoreLevel → Bool
is_poisoned none = false
is_poisoned (some lvl) = lvl.poisoned

add_compiled-poisoned :
    (lvl : IgnoreLevel) (n : ℕ) (g : Bytes) (c : Compiled)
    → (add_compiled lvl n g c).poisoned ≡ (lvl.poisoned || is_bad c)
unfolding add_compiled
add_compiled-poisoned lvl n g (compiled p) = ground arith
add_compiled-poisoned lvl n g (bad_glob e) = ground arith

module _ (re : RegexpPackage) (fold_case : Bool) where
  -- The glob does not compile, wherever it stands.
  abbrev pub fails : Bytes → Bool
  fails g = is_bad (compile_pattern_fold re 0 g fold_case)

  pub is_bad-line : (n : ℕ) (g : Bytes) → is_bad (compile_pattern_fold re n g fold_case) ≡ fails g
  unfolding compile_pattern_fold
  is_bad-line n g = ground arith

  add_ignore_pattern-poisoned :
      (lvl : IgnoreLevel) (n : ℕ) (g : Bytes)
      → (add_ignore_pattern re fold_case lvl n g).poisoned ≡ (lvl.poisoned || fails g)
  unfolding add_ignore_pattern
  add_ignore_pattern-poisoned lvl n g =
      add_compiled-poisoned lvl n g (compile_pattern_fold re n g fold_case)
      ∙ ap (λ b. lvl.poisoned || b) (is_bad-line n g)

  add_all-poisoned :
      (globs : List Bytes) (lvl : IgnoreLevel) (n : ℕ)
      → (add_all re fold_case lvl n globs).poisoned ≡ (lvl.poisoned || any fails globs)
  unfolding add_all
  add_all-poisoned [] lvl n = ground arith
  add_all-poisoned (g ∷ globs) lvl n =
      add_all-poisoned globs (add_ignore_pattern re fold_case lvl (n + 1) g) (n + 1)
      ∙ rw (add_ignore_pattern-poisoned lvl (n + 1) g, or_assoc)

  -- What poisons a directory's hide and allow rules: a policy file that cannot be read or parsed,
  -- one of another version, or a glob that does not compile.
  abbrev pub poisons : PolicyRead → Bool
  poisons absent = false
  poisons unreadable = true
  poisons unparsable = true
  poisons (parsed pf) =
      if pf.version == 1 then any fails (trimmed pf.hide ++ negated pf.allow) else true

  compile_ignore_policy-poisoned :
      (file dir : Bytes) (hide allow : List Bytes)
      → is_poisoned (compile_ignore_policy re fold_case file dir hide allow)
        ≡ any fails (trimmed hide ++ negated allow)
  unfolding compile_ignore_policy
  compile_ignore_policy-poisoned file dir [] [] = refl
  compile_ignore_policy-poisoned file dir (h ∷ hide) allow = add_both file dir (h ∷ hide) allow
    where
      add_both :
          (file dir : Bytes) (hide allow : List Bytes)
          → (add_all re fold_case
              (add_all re fold_case (empty_level file dir false) 0 (trimmed hide))
              (length hide)
              (negated allow)).poisoned
            ≡ any fails (trimmed hide ++ negated allow)
      add_both file dir hide allow =
          add_all-poisoned (negated allow) _ (length hide)
          ∙ rw (add_all-poisoned (trimmed hide) (empty_level file dir false) 0)
              (sym (any-append fails (trimmed hide) (negated allow)))
  compile_ignore_policy-poisoned file dir [] (a ∷ allow) =
      add_all-poisoned (negated (a ∷ allow)) (empty_level file dir false) 0

  -- A directory has a poisoned level exactly if its policy file cannot be read or parsed, has
  -- another version than 1, or has a hide or allow glob that does not compile.
  pub load_policy_level-poisoned :
      (dir : Bytes) (r : PolicyRead)
      → is_poisoned (load_policy_level re fold_case dir r).0 ≡ poisons r
  unfolding load_policy_level
  load_policy_level-poisoned dir absent = refl
  load_policy_level-poisoned dir unreadable = refl
  load_policy_level-poisoned dir unparsable = refl
  load_policy_level-poisoned dir (parsed pf) = elim (Bool-cases (pf.version == 1)) [
    | inl e ↦ rw e (compile_ignore_policy-poisoned _ dir pf.hide pf.allow)
    | inr e ↦ rw e
  ]
