-- ===== src/Rules/Resolve.antt =====
-- `Resolve` of internal/rules/resolve.go.
pub mod Decide
pub mod Precedence
pub mod Names
use janusfs.Base.{
  ℕ, suc, ◌+◌, Bool, true, false, Option, none, some, List, [], ◌∷◌, ◌++◌, ◌||◌, ◌&&◌, not,
}
use janusfs.Base.{◌==◌, ltb, if◌then◌else◌, is_empty, length, any, drop, get_elem?, map}
use janusfs.Base.Text.{Bytes, eq, has_prefix}
use janusfs.Base.FilePath.{slash, dot, clean, join, rel}
use janusfs.Base.Sorting.{bytes_le, sort_by}
use janusfs.Patterns.{Pattern}
use janusfs.Rules.{
  Decision, allowed, masked, hidden, IgnorePattern, IgnoreLevel, MaskEntry, MaskLevel, RuleSet,
}
use janusfs.Rules.Glob.{matches}
use janusfs.Rules.Trace.{
  TraceKind, ignore_rule, mask_rule, config_error, TraceEntry, RuleRef, no_ref, file_ref, line_ref,
  is_applicable, relative_to_level, relative_to,
}
use janusfs.Rules.Ignore.{IgnoreState, resolve_ignore}
use janusfs.Rules.Mask.{MaskState, mask_loop, sort_patterns, names_of}

pub record Resolution : Type 0 where
  pub decision : Decision
  pub rule_ref : RuleRef
  pub pattern_names : List Bytes
  pub patterns : List Pattern
  pub poisoned : Bool
  pub trace : List TraceEntry

abbrev pub hidden_by : IgnoreState → Resolution
hidden_by st = record {
  decision = hidden;
  rule_ref = st.rule_ref;
  pattern_names = [];
  patterns = [];
  poisoned = st.poisoned;
  trace = st.trace;
}

abbrev allowed_with : List TraceEntry → Resolution
allowed_with trace = record {
  decision = allowed;
  rule_ref = no_ref;
  pattern_names = [];
  patterns = [];
  poisoned = false;
  trace = trace;
}

-- The end of `Resolve`, behind the mask loop.
unfoldable pub conclude : MaskState → Resolution
unfolding sort_patterns
conclude st = elim st.poisoned_ref [
  | some ref ↦ record {
    decision = hidden;
    rule_ref = ref;
    pattern_names = [];
    patterns = [];
    poisoned = true;
    trace = st.trace;
  }
  | none ↦ if is_empty st.pats then allowed_with st.trace else record {
    decision = masked;
    rule_ref = st.mask_ref;
    pattern_names = names_of (sort_patterns st.pats);
    patterns = sort_patterns st.pats;
    poisoned = false;
    trace = st.trace;
  }
]

unfoldable pub resolve_mask : RuleSet → Bytes → List TraceEntry → Resolution
unfolding conclude mask_loop
resolve_mask rs rel_path trace = conclude (
    mask_loop rs rel_path rs.mask_levels
      (record { pats = []; mask_ref = no_ref; poisoned_ref = none; trace = trace }))

-- What `Resolve` does for the path itself, once no ancestor is hidden.
unfoldable pub resolve_self : RuleSet → Bytes → Bool → Resolution
unfolding resolve_ignore resolve_mask
resolve_self rs rel_path is_dir =
    let st = resolve_ignore rs rel_path is_dir in
    if st.is_hidden
    then hidden_by st
    else if is_dir
    then allowed_with st.trace
    else resolve_mask rs rel_path st.trace

-- `relPath[:i]` for each slash at `i`.
unfoldable pub ancestors : Bytes → List Bytes
ancestors [] = []
ancestors (c ∷ s) =
    let rest = map (λ a. c ∷ a) (ancestors s) in if c == slash then [] ∷ rest else rest

-- The loop over the ancestors, and what comes behind it.
unfoldable pub resolve_from : RuleSet → Bytes → Bool → List Bytes → Resolution
unfolding resolve_ignore resolve_self
resolve_from rs rel_path is_dir [] = resolve_self rs rel_path is_dir
resolve_from rs rel_path is_dir (a ∷ as') =
    let st = resolve_ignore rs a true in
    let rest = resolve_from rs rel_path is_dir as' in if st.is_hidden then hidden_by st else rest

-- `filepath.ToSlash(filepath.Clean(relPath))`, with "." as the empty path.
unfoldable pub normalize : Bytes → Bytes
unfolding clean
normalize rel_path = let p = clean rel_path in if eq p dot then [] else p

unfoldable pub resolve : RuleSet → Bytes → Bool → Resolution
unfolding normalize ancestors resolve_from
resolve rs rel_path is_dir = let p = normalize rel_path in resolve_from rs p is_dir (ancestors p)
