-- ===== src/Rules/Compile/MaskGlob.antt =====
-- A mask line whose glob does not compile.
use janusfs.Base.{ℕ, ◌≡◌, refl, ◌∙◌, Bool, true, false, Option, none, [], ◌∷◌, ◌||◌}
use janusfs.Base.{is_empty}
use janusfs.Base.Text.{Bytes}
use janusfs.Patterns.{RegexpPackage}
use janusfs.Rules.{MaskEntry, MaskError, MaskLevel}
use janusfs.Rules.Glob.{Compiled, compiled, bad_glob, compile_pattern_fold}
use janusfs.Rules.MaskLine.{
  mask_glob, mask_refs, with_glob, parse_mask_line, build_entry, bare_entry,
}
use janusfs.Rules.Mask.{MaskState, entry_matches, entry_step}
use janusfs.Rules.Mask.Entries.{is_none}
use janusfs.Rules.Compile.{mask_entry}
use janusfs.Rules.Compile.Poison.{is_bad, fails, is_bad-line}

-- The line has an error, and the entry no glob to match.
abbrev IsUnmatchable : MaskEntry × Option MaskError → Type 0
IsUnmatchable (e, err) = (e.glob_pattern ≡ none) × (is_none err ≡ false)

module _ (re : RegexpPackage) (fold_case : Bool) where
  with_glob-bad :
      (n : ℕ) (g : Bytes) (after : Option Bytes) (c : Compiled)
      → is_bad c ≡ true
      → IsUnmatchable (with_glob re (bare_entry n g) after c)
  unfolding with_glob
  with_glob-bad n g after (compiled p) h = cc
  with_glob-bad n g after (bad_glob e) h = (refl, refl)

  build_entry-bad :
      (n : ℕ) (g : Bytes) (after : Option Bytes)
      → (is_empty g || fails re fold_case g) ≡ true
      → IsUnmatchable (build_entry re n g after fold_case)
  unfolding build_entry
  build_entry-bad n [] after h = (refl, refl)
  build_entry-bad n (c ∷ g) after h =
      with_glob-bad n (c ∷ g) after (compile_pattern_fold re n (c ∷ g) fold_case)
        (is_bad-line re fold_case n (c ∷ g) ∙ h)

  -- If the glob of a mask line is empty or does not compile, the entry carries an error, and the
  -- mask loop passes over it for every path: it neither masks nor hides anything.
  pub mask_entry-bad_glob :
      (lvl : MaskLevel) (rel : Bytes) (st : MaskState) (n : ℕ) (line : Bytes)
      → (is_empty (mask_glob line) || fails re fold_case (mask_glob line)) ≡ true
      → (is_none (mask_entry re fold_case n line).compile_err ≡ false)
        × (entry_step lvl rel st (mask_entry re fold_case n line) ≡ st)
  unfolding mask_entry entry_step entry_matches parse_mask_line
  mask_entry-bad_glob lvl rel st n line h =
      let (glob, err) = build_entry-bad n (mask_glob line) (mask_refs line) h in (err, rw glob)
