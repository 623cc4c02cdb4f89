-- ===== src/Rules/Trace.antt =====
-- internal/rules/resolve.go: the evidence of a decision, and where a level applies.
use janusfs.Base.{ℕ, ◌+◌, Bool, true, false, none, some, ◌&&◌}
use janusfs.Base.{◌==◌, ltb, if◌then◌else◌, is_empty, length, drop, get_elem?}
use janusfs.Base.Text.{Bytes, eq, has_prefix}
use janusfs.Base.FilePath.{slash, dot, join, rel}

-- The kinds of a trace entry.
pub data TraceKind : Type 0 where
  ignore_rule mask_rule config_error : TraceKind

pub record TraceEntry : Type 0 where
  pub file : Bytes
  pub line_no : ℕ
  pub kind : TraceKind
  pub line : Bytes
  pub matched : Bool
  pub negated : Bool

-- `RuleRef`: "", a file, or "<file>:<line>".
pub data RuleRef : Type 0 where
  no_ref : RuleRef
  file_ref : Bytes → RuleRef
  line_ref : Bytes → ℕ → RuleRef

-- `isApplicable` of both kinds of levels.
unfoldable pub is_applicable : Bool → Bytes → Bytes → Bool
is_applicable is_global rel_dir rel_path =
    if is_global
    then true
    else if is_empty rel_dir
    then true
    else if eq rel_dir rel_path
    then true
    else ltb (length rel_dir) (length rel_path)
      && elim (get_elem? rel_path (length rel_dir)) [ none ↦ false | some c ↦ c == slash ]
      && has_prefix rel_path rel_dir

-- `relativeToLevel`.
unfoldable pub relative_to_level : Bytes → Bytes → Bytes → Bytes
relative_to_level root dir rel_path = elim (rel dir (join root rel_path)) [
  | none ↦ rel_path
  | some r ↦ r
]

-- `relativeTo` of both kinds of levels.
unfoldable pub relative_to : Bytes → Bool → Bytes → Bytes → Bytes → Bytes
unfolding relative_to_level
relative_to root is_global dir rel_dir rel_path =
    if is_global
    then relative_to_level root dir rel_path
    else if is_empty rel_dir
    then rel_path
    else if eq rel_dir rel_path
    then dot
    else drop (length rel_dir + 1) rel_path
