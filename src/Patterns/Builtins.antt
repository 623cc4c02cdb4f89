-- ===== src/Patterns/Builtins.antt =====
-- The builtin library of internal/patterns/patterns.go: the specifications, the registry that
-- `init` fills, and `LookupBuiltin`.
use janusfs.Base.{ℕ, true, Option, none, some, List, [], ◌∷◌, ◌++◌}
use janusfs.Base.{if◌then◌else◌}
use janusfs.Base.Text.{Bytes, codes, eq}
use janusfs.Patterns.{RegexpPackage, Pattern, whole_file, regex}
use janusfs.Patterns.Filter.{builtin_pre_filter}

pub record BuiltinSpec : Type 0 where
  pub name : Bytes
  pub expr : Bytes
  pub group_index : ℕ

abbrev spec : Bytes → Bytes → ℕ → BuiltinSpec
spec n e g = record { name = n; expr = e; group_index = g }

abbrev pub whole_file_name : Bytes
whole_file_name = codes "whole-file"

abbrev pub aws_key_name : Bytes
aws_key_name = codes "aws-key"

unfoldable pub builtin_specs : List BuiltinSpec
builtin_specs =
    spec (codes "env-value")
      (codes "(?m)^\\s*(?:export\\s+)?[A-Za-z_][A-Za-z0-9_]*\\s*=\\s*(.+?)\\s*$") 1
    ∷ spec aws_key_name (codes "\\b((?:AKIA|ASIA|ABIA|ACCA)[0-9A-Z]{16})\\b") 1
    ∷ spec (codes "private-key")
        (codes "(?s)-----BEGIN [A-Z ]*PRIVATE KEY-----.*?-----END [A-Z ]*PRIVATE KEY-----") 0
    ∷ spec (codes "jwt")
        (codes "\\b(eyJ[A-Za-z0-9_-]{10,}\\.[A-Za-z0-9_-]{10,}\\.[A-Za-z0-9_-]{10,})\\b") 1
    ∷ spec (codes "db-uri") (codes "\\b[a-z][a-z0-9+.-]*://([^\\s:@/]+:[^\\s@/]+)@") 1
    ∷ spec (codes "github-token") (codes "\\b((?:ghp|gho|ghu|ghs|ghr)_[A-Za-z0-9]{36,255})\\b") 1
    ∷ spec (codes "generic-secret")
        (codes
          "(?im)\\b(?:password|passwd|secret|token|api[_-]?key)\\b\\s*[:=]\\s*[\"']?([^\\s\"']{6,})")
        1
    ∷ []

unfoldable pub aws_secret_key_spec : BuiltinSpec
aws_secret_key_spec =
    spec aws_key_name (codes "(?i)\\baws_secret_access_key\\b\\s*[=:]\\s*([A-Za-z0-9/+=]{40})") 1

-- `builtinVariants`: the map from a name to its patterns.
abbrev pub Registry : Type 0
Registry = List (Bytes × List Pattern)

unfoldable pub lookup : Bytes → Registry → Option (List Pattern)
lookup k [] = none
lookup k ((j, ps) ∷ r) = if eq j k then some ps else lookup k r

-- `builtinVariants[name] = append(builtinVariants[name], p)`.
unfoldable pub append_variant : Bytes → Pattern → Registry → Registry
append_variant k p [] = (k, p ∷ []) ∷ []
append_variant k p ((j, ps) ∷ r) =
    if eq j k then (j, ps ++ (p ∷ [])) ∷ r else (j, ps) ∷ append_variant k p r

unfoldable pub whole_file_pattern : Pattern
whole_file_pattern = record {
  name = whole_file_name;
  builtin = true;
  matcher = whole_file;
  group_index = 0;
  pre_filter = none;
}

module _ (re : RegexpPackage) where
  -- The pattern that `register` builds. Each specification has a regex.
  unfoldable pub builtin_pattern : BuiltinSpec → Pattern
  unfolding builtin_pre_filter
  builtin_pattern s = record {
    name = s.name;
    builtin = true;
    matcher = regex (re.must_compile s.expr);
    group_index = s.group_index;
    pre_filter = builtin_pre_filter s.name s.expr;
  }

  unfoldable pub register : BuiltinSpec → Registry → Registry
  unfolding append_variant builtin_pattern
  register s r = append_variant s.name (builtin_pattern s) r

  unfoldable pub register_all : List BuiltinSpec → Registry → Registry
  unfolding register
  register_all [] r = r
  register_all (s ∷ specs) r = register_all specs (register s r)

  -- What `init` leaves in `builtinVariants`.
  unfoldable pub builtin_variants : Registry
  unfolding register_all builtin_specs aws_secret_key_spec
  builtin_variants = register aws_secret_key_spec (register_all builtin_specs [])

  unfoldable pub lookup_builtin : Bytes → Option (List Pattern)
  unfolding lookup builtin_variants whole_file_pattern
  lookup_builtin n =
      if eq n whole_file_name then some (whole_file_pattern ∷ []) else lookup n builtin_variants
