-- ===== src/Patterns/Refs.antt =====
-- `ParsePatternRef` of internal/patterns/patterns.go.
use janusfs.Base.{false, none, some, List, [], ◌∷◌, leb, ltb, not}
use janusfs.Base.{◌||◌, if◌then◌else◌, length, is_empty, drop}
use janusfs.Base.Text.{Bytes, trim_space, has_prefix, ends_with, drop_last}
use janusfs.Patterns.{Regexp, RegexpPackage, Pattern, regex}
use janusfs.Patterns.Builtins.{lookup_builtin}

-- The four errors of `ParsePatternRef`.
pub data RefError : Type 0 where
  empty_ref unclosed_regex bad_regex unknown_builtin : RefError

pub data Parsed : Type 0 where
  patterns : List Pattern → Parsed
  bad : RefError → Parsed

-- The pattern of a custom regex: group 1 if there is one, else the whole match.
unfoldable pub custom_pattern : Bytes → Regexp → Pattern
custom_pattern ref r = record {
  name = ref;
  builtin = false;
  matcher = regex r;
  group_index = if leb 1 r.num_subexp then 1 else 0;
  pre_filter = none;
}

module _ (re : RegexpPackage) where
  unfoldable pub parse_custom : Bytes → Parsed
  unfolding custom_pattern
  parse_custom ref =
      if ltb (length ref) 2 || not (ends_with ref b'/')
      then bad unclosed_regex
      else elim (re.compile (drop_last (drop 1 ref))) [
        | none ↦ bad bad_regex
        | some r ↦ patterns (custom_pattern ref r ∷ [])
      ]

  unfoldable pub parse_named : Bytes → Parsed
  unfolding lookup_builtin
  parse_named ref = elim (lookup_builtin re ref) [
    | none ↦ bad unknown_builtin
    | some ps ↦ patterns ps
  ]

  unfoldable pub parse_trimmed : Bytes → Parsed
  unfolding parse_custom parse_named
  parse_trimmed ref =
      if is_empty ref
      then bad empty_ref
      else if has_prefix ref (b'/' ∷ [])
      then parse_custom ref
      else parse_named ref

  unfoldable pub parse_pattern_ref : Bytes → Parsed
  unfolding parse_trimmed
  parse_pattern_ref ref = parse_trimmed (trim_space ref)
