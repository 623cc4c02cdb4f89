-- ===== src/Rules.antt =====
-- internal/rules: policy files, their compilation and the resolution of paths.
pub mod Glob
pub mod MaskLine
pub mod Compile
pub mod Trace
pub mod Ignore
pub mod Mask
pub mod Resolve
use janusfs.Base.{ℕ, Bool, Option, List}
use janusfs.Base.Text.{Bytes}
use janusfs.Patterns.{Regexp, Pattern}
use janusfs.Patterns.Refs.{RefError}

-- `Decision`.
pub data Decision : Type 0 where
  allowed masked hidden : Decision

-- `ignorePattern`.
pub record IgnorePattern : Type 0 where
  pub negate : Bool
  pub dir_only : Bool
  pub re : Regexp
  pub line_no : ℕ
  pub raw : Bytes

-- `RawLine`.
pub record RawLine : Type 0 where
  pub line_no : ℕ
  pub text : Bytes

-- The errors of a glob, and those of a mask line.
pub data GlobError : Type 0 where
  empty_pattern unterminated_class bad_regex : GlobError

pub data MaskError : Type 0 where
  empty_glob : MaskError
  glob_error : GlobError → MaskError
  ref_error : RefError → MaskError

-- `IgnoreLevel`; of a line's error its number and kind are kept.
pub record IgnoreLevel : Type 0 where
  pub dir : Bytes
  pub file : Bytes
  pub patterns : List IgnorePattern
  pub raw_lines : List RawLine
  pub is_global : Bool
  pub rel_dir : Bytes
  pub poisoned : Bool
  pub line_errs : List (ℕ × GlobError)

-- `MaskEntry`.
pub record MaskEntry : Type 0 where
  pub line_no : ℕ
  pub glob : Bytes
  pub glob_pattern : Option IgnorePattern
  pub pattern_refs : List Bytes
  pub patterns : List Pattern
  pub compile_err : Option MaskError

-- `MaskLevel`.
pub record MaskLevel : Type 0 where
  pub dir : Bytes
  pub file : Bytes
  pub entries : List MaskEntry
  pub is_global : Bool
  pub rel_dir : Bytes

-- `RuleSet`, without the errors that are only reported.
pub record RuleSet : Type 0 where
  pub root : Bytes
  pub global_dir : Bytes
  pub ignore_levels : List IgnoreLevel
  pub mask_levels : List MaskLevel
  pub policy_dirs : List Bytes
  pub fold_case : Bool
