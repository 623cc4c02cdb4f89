-- ===== src/Rules/Mask.antt =====
-- The mask loop of `Resolve` in internal/rules/resolve.go.
pub mod Names
pub mod Entries
use janusfs.Base.{
  ℕ, suc, ◌+◌, Bool, true, false, Option, none, some, List, [], ◌∷◌, ◌++◌, ◌||◌, ◌&&◌, not,
}
use janusfs.Base.{◌==◌, ltb, if◌then◌else◌, is_empty, length, any, drop, get_elem?, map}
use janusfs.Base.Text.{Bytes, eq, has_prefix}
use janusfs.Base.FilePath.{slash, dot, clean, join, rel}
use janusfs.Base.Sorting.{bytes_le, sort_by}
use janusfs.Patterns.{Pattern}
use janusfs.Rules.{
  Decision, allowed, masked, hidden, IgnorePattern, IgnoreLevel, MaskEntry, MaskError, MaskLevel,
  RuleSet,
}
use janusfs.Rules.Glob.{matches}
use janusfs.Rules.Trace.{
  TraceKind, ignore_rule, mask_rule, config_error, TraceEntry, RuleRef, no_ref, file_ref, line_ref,
  is_applicable, relative_to_level, relative_to,
}

-- The variables of the mask loop of `Resolve`.
pub record MaskState : Type 0 where
  pub pats : List Pattern
  pub mask_ref : RuleRef
  pub poisoned_ref : Option RuleRef
  pub trace : List TraceEntry

unfoldable pub has_name : Bytes → Pattern → Bool
has_name n p = eq p.name n

-- A pattern whose name is already there is left out.
unfoldable pub add_pattern : List Pattern → Pattern → List Pattern
unfolding has_name
add_pattern pats p = if any (has_name p.name) pats then pats else pats ++ (p ∷ [])

unfoldable pub add_patterns : List Pattern → List Pattern → List Pattern
unfolding add_pattern
add_patterns pats [] = pats
add_patterns pats (p ∷ ps) = add_patterns (add_pattern pats p) ps

abbrev mask_trace : MaskLevel → MaskEntry → TraceKind → TraceEntry
mask_trace lvl e kind = record {
  file = lvl.file;
  line_no = e.line_no;
  kind = kind;
  line = e.glob;
  matched = true;
  negated = false;
}

abbrev first_ref : RuleRef → RuleRef → RuleRef
first_ref no_ref r = r
first_ref (file_ref f) r = file_ref f
first_ref (line_ref f n) r = line_ref f n

-- `entry.GlobPattern == nil || !entry.GlobPattern.matches(relToLevel, false)` skips the entry.
unfoldable pub entry_matches : MaskEntry → Bytes → Bool
unfolding matches
entry_matches e rel_level = elim e.glob_pattern [
  | none ↦ false
  | some p ↦ matches p rel_level false
]

-- A matching entry adds its patterns, or poisons the path if it failed to compile.
unfoldable pub apply_entry : MaskLevel → MaskEntry → Option MaskError → MaskState → MaskState
unfolding add_patterns
apply_entry lvl e (some err) st = record st {
  poisoned_ref = some (line_ref lvl.file e.line_no);
  trace = st.trace ++ (mask_trace lvl e config_error ∷ []);
}
apply_entry lvl e none st = record st {
  pats = add_patterns st.pats e.patterns;
  mask_ref = first_ref st.mask_ref (line_ref lvl.file e.line_no);
  trace = st.trace ++ (mask_trace lvl e mask_rule ∷ []);
}

-- The body of the loop over the entries.
unfoldable pub entry_step : MaskLevel → Bytes → MaskState → MaskEntry → MaskState
unfolding entry_matches apply_entry
entry_step lvl rel_level st e =
    if not (entry_matches e rel_level) then st else apply_entry lvl e e.compile_err st

unfoldable pub entry_loop : MaskLevel → Bytes → List MaskEntry → MaskState → MaskState
unfolding entry_step
entry_loop lvl rel_level [] st = st
entry_loop lvl rel_level (e ∷ es) st = entry_loop lvl rel_level es (entry_step lvl rel_level st e)

unfoldable pub mask_step : RuleSet → Bytes → MaskState → MaskLevel → MaskState
unfolding is_applicable relative_to entry_loop
mask_step rs rel_path st lvl =
    if not (is_applicable lvl.is_global lvl.rel_dir rel_path)
    then st
    else entry_loop lvl (relative_to rs.root lvl.is_global lvl.dir lvl.rel_dir rel_path) lvl.entries
        st

unfoldable pub mask_loop : RuleSet → Bytes → List MaskLevel → MaskState → MaskState
unfolding mask_step
mask_loop rs rel_path [] st = st
mask_loop rs rel_path (l ∷ ls) st = mask_loop rs rel_path ls (mask_step rs rel_path st l)

-- `slices.SortFunc` of the patterns by name.
unfoldable pub sort_patterns : List Pattern → List Pattern
unfolding sort_by
sort_patterns = sort_by (λ a b. bytes_le a.name b.name)

abbrev pub names_of : List Pattern → List Bytes
names_of = map (λ p. p.name)
