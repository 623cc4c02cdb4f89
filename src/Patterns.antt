-- ===== src/Patterns.antt =====
-- internal/patterns/patterns.go: redaction patterns, the builtin library and the references to
-- patterns that a policy file writes. The package regexp is a parameter.
pub mod Builtins
pub mod Filter
pub mod Refs
use janusfs.Base.{ℕ, zero, suc, Bool, Option, none, some, List, ◌≤◌, All, length, get_elem?}
use janusfs.Base.Text.{Bytes}

-- One element of `FindAllSubmatchIndex`: the span of the whole match, and the span of each group,
-- `none` where the group took no part (-1 in Go).
pub record Match : Type 0 where
  pub start : ℕ
  pub stop : ℕ
  pub groups : List (Option (ℕ × ℕ))

-- A compiled `*regexp.Regexp`, by what the code asks of it.
pub record Regexp : Type 0 where
  pub source : Bytes
  pub num_subexp : ℕ
  pub match_string : Bytes → Bool
  pub find_all : Bytes → List Match

-- `regexp.Compile` and `regexp.MustCompile`.
pub record RegexpPackage : Type 0 where
  pub compile : Bytes → Option Regexp
  pub must_compile : Bytes → Regexp

-- The fields `Regex` and `WholeFile`: the regex is nil for the whole-file sentinel alone.
pub data Matcher : Type 0 where
  whole_file : Matcher
  regex : Regexp → Matcher

pub record Pattern : Type 0 where
  pub name : Bytes
  pub builtin : Bool
  pub matcher : Matcher
  pub group_index : ℕ
  pub pre_filter : Option (Bytes → Bool)

-- A span of a group or of a match lies within the buffer.
abbrev pub Within : ℕ → ℕ × ℕ → Type 0
Within n (a, b) = (a ≤ b) × (b ≤ n)

abbrev pub GroupWithin : ℕ → Option (ℕ × ℕ) → Type 0
GroupWithin n none = Unit
GroupWithin n (some s) = Within n s

-- What the package regexp documents of the indices that it returns.
pub record IsWithin (n : ℕ) (m : Match) : Type 0 where
  pub ordered : m.start ≤ m.stop
  pub bounded : m.stop ≤ n
  pub groups_within : All (GroupWithin n) m.groups

abbrev pub MatcherIsLawful : Matcher → Type 0
MatcherIsLawful whole_file = Unit
MatcherIsLawful (regex re) = (buf : Bytes) → All (IsWithin (length buf)) (re.find_all buf)

abbrev pub IsLawful : Pattern → Type 0
IsLawful p = MatcherIsLawful p.matcher
