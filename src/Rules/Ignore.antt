-- ===== src/Rules/Ignore.antt =====
-- `resolveIgnore` of internal/rules/resolve.go.
pub mod Floor
use janusfs.Base.{
  ℕ, suc, ◌+◌, Bool, true, false, Option, none, some, List, [], ◌∷◌, ◌++◌, ◌||◌, ◌&&◌, not,
}
use janusfs.Base.{◌==◌, ltb, if◌then◌else◌, is_empty, length, any, drop, get_elem?, map}
use janusfs.Base.Text.{Bytes, eq, has_prefix}
use janusfs.Base.FilePath.{slash, dot, clean, join, rel}
use janusfs.Base.Sorting.{bytes_le, sort_by}
use janusfs.Patterns.{Pattern}
use janusfs.Rules.{
  Decision, allowed, masked, hidden, IgnorePattern, IgnoreLevel, MaskEntry, MaskLevel, RuleSet,
}
use janusfs.Rules.Glob.{matches}
use janusfs.Rules.Trace.{
  TraceKind, ignore_rule, mask_rule, config_error, TraceEntry, RuleRef, no_ref, file_ref, line_ref,
  is_applicable, relative_to_level, relative_to,
}

-- The variables of `resolveIgnore`.
pub record IgnoreState : Type 0 where
  pub is_hidden : Bool
  pub rule_ref : RuleRef
  pub poisoned : Bool
  pub trace : List TraceEntry
  pub floor_hidden : Bool

abbrev pub global_tier : RuleSet → IgnoreLevel → Bool
global_tier rs lvl = not (is_empty rs.global_dir) && eq lvl.dir rs.global_dir

abbrev ignore_trace : IgnoreLevel → IgnorePattern → Bool → Bool → TraceEntry
ignore_trace lvl p matched negated = record {
  file = lvl.file;
  line_no = p.line_no;
  kind = ignore_rule;
  line = p.raw;
  matched = matched;
  negated = negated;
}

-- The body of the inner loop.
unfoldable pub pattern_step :
    Bool → IgnoreLevel → Bytes → Bool → IgnoreState → IgnorePattern → IgnoreState
unfolding matches
pattern_step tier lvl rel_level is_dir st p =
    if not (matches p rel_level is_dir)
    then st
    else if not tier && p.negate && st.floor_hidden
    then record st { trace = st.trace ++ (ignore_trace lvl p false true ∷ []) }
    else record st {
      is_hidden = not p.negate;
      rule_ref = line_ref lvl.file p.line_no;
      trace = st.trace ++ (ignore_trace lvl p (not p.negate) p.negate ∷ []);
    }

unfoldable pub pattern_loop :
    Bool → IgnoreLevel → Bytes → Bool → List IgnorePattern → IgnoreState → IgnoreState
unfolding pattern_step
pattern_loop tier lvl rel_level is_dir [] st = st
pattern_loop tier lvl rel_level is_dir (p ∷ ps) st =
    pattern_loop tier lvl rel_level is_dir ps (pattern_step tier lvl rel_level is_dir st p)

abbrev poison_trace : Bytes → TraceEntry
poison_trace file = record {
  file = file;
  line_no = 0;
  kind = config_error;
  line = [];
  matched = true;
  negated = false;
}

-- A level that failed to compile hides what it covers.
unfoldable pub poison : Bool → IgnoreLevel → IgnoreState → IgnoreState
poison tier lvl st = record {
  is_hidden = true;
  rule_ref = file_ref lvl.file;
  poisoned = true;
  trace = st.trace ++ (poison_trace lvl.file ∷ []);
  floor_hidden = if tier then true else st.floor_hidden;
}

-- The verdict of the global level becomes the floor.
unfoldable pub set_floor : Bool → IgnoreState → IgnoreState
set_floor tier st = if tier then record st { floor_hidden = st.is_hidden } else st

-- The body of the outer loop.
unfoldable pub level_step : RuleSet → Bytes → Bool → IgnoreState → IgnoreLevel → IgnoreState
unfolding is_applicable relative_to pattern_loop poison set_floor
level_step rs rel_path is_dir st lvl =
    if not (is_applicable lvl.is_global lvl.rel_dir rel_path)
    then st
    else if lvl.poisoned
    then poison (global_tier rs lvl) lvl st
    else set_floor (global_tier rs lvl) (
        pattern_loop (global_tier rs lvl) lvl
          (relative_to rs.root lvl.is_global lvl.dir lvl.rel_dir rel_path) is_dir lvl.patterns st)

unfoldable pub level_loop : RuleSet → Bytes → Bool → List IgnoreLevel → IgnoreState → IgnoreState
unfolding level_step
level_loop rs rel_path is_dir [] st = st
level_loop rs rel_path is_dir (l ∷ ls) st =
    level_loop rs rel_path is_dir ls (level_step rs rel_path is_dir st l)

abbrev pub start : IgnoreState
start = record {
  is_hidden = false;
  rule_ref = no_ref;
  poisoned = false;
  trace = [];
  floor_hidden = false;
}

unfoldable pub resolve_ignore : RuleSet → Bytes → Bool → IgnoreState
unfolding level_loop
resolve_ignore rs rel_path is_dir = level_loop rs rel_path is_dir rs.ignore_levels start
