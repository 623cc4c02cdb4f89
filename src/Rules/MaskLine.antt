-- ===== src/Rules/MaskLine.antt =====
-- The mask lines of internal/rules/rules.go: `parseMaskLine` and the functions that cut a line.
use janusfs.Base.{ℕ, Bool, false, Option, none, some, List, [], ◌∷◌, ◌++◌, ◌&&◌, not}
use janusfs.Base.{◌==◌, if◌then◌else◌, is_empty}
use janusfs.Base.Text.{Bytes, trim_space}
use janusfs.Patterns.{RegexpPackage, Pattern}
use janusfs.Patterns.Builtins.{whole_file_name, whole_file_pattern}
use janusfs.Patterns.Refs.{RefError, patterns, bad, parse_pattern_ref}
use janusfs.Rules.{MaskEntry, MaskError, empty_glob, glob_error, ref_error}
use janusfs.Rules.Glob.{Compiled, compiled, bad_glob, compile_pattern_fold}

abbrev backslash : ℕ
backslash = 92

-- `splitUnescapedColon`: the bytes before the first colon that no backslash precedes, and those
-- behind it. The flag says that the byte in front is a backslash.
unfoldable pub split_colon : Bool → Bytes → Bytes × Option Bytes
split_colon escaped [] = ([], none)
split_colon escaped (c ∷ s) =
    let rest = split_colon (c == backslash) s in
    if c == b':' && not escaped then ([], some s) else (c ∷ rest.0, rest.1)

-- The loop of `stripMaskInlineComment`: the bytes before the comment, if there is one.
unfoldable pub before_comment : Bool → Bool → Bytes → Option Bytes
before_comment in_slash escaped [] = none
before_comment in_slash escaped (c ∷ s) =
    let rest =
      before_comment (if c == b'/' && not escaped then not in_slash else in_slash) (c == backslash)
        s in
    if c == b'#' && not in_slash && not escaped
    then some []
    else elim rest [ none ↦ none | some before ↦ some (c ∷ before) ]

unfoldable pub strip_mask_inline_comment : Bytes → Bytes
unfolding before_comment
strip_mask_inline_comment line = elim (before_comment false false line) [
  | none ↦ line
  | some before ↦ trim_space before
]

-- The loop of `splitPatternRefs` over `s[start:]`, with the bytes of the current reference.
unfoldable pub split_refs : Bool → Bytes → Bytes → List Bytes
split_refs in_slash cur [] = let last = trim_space cur in if is_empty last then [] else last ∷ []
split_refs in_slash cur (c ∷ s) =
    let cut = c == b',' && not in_slash in
    let rest =
      split_refs (if c == b'/' then not in_slash else in_slash)
        (if cut then [] else cur ++ (c ∷ [])) s in
    if cut then trim_space cur ∷ rest else rest

unfoldable pub drop_empty : List Bytes → List Bytes
drop_empty [] = []
drop_empty (r ∷ refs) = let rest = drop_empty refs in if is_empty r then rest else r ∷ rest

unfoldable pub split_pattern_refs : Bytes → List Bytes
unfolding drop_empty split_refs
split_pattern_refs s = drop_empty (split_refs false [] s)

-- `strings.ReplaceAll(glob, "\:", ":")`.
unfoldable pub unescape_colons : Bytes → Bytes
unescape_colons [] = []
unescape_colons (c ∷ []) = c ∷ []
unescape_colons (c ∷ d ∷ s) =
    let skipped = unescape_colons s in
    let kept = unescape_colons (d ∷ s) in
    if c == backslash && d == b':' then b':' ∷ skipped else c ∷ kept

-- An entry with its line number and its glob alone.
abbrev pub bare_entry : ℕ → Bytes → MaskEntry
bare_entry line_no glob = record {
  line_no = line_no;
  glob = glob;
  glob_pattern = none;
  pattern_refs = [];
  patterns = [];
  compile_err = none;
}

-- The glob of a mask line, and what stands behind the colon.
unfoldable pub mask_glob : Bytes → Bytes
unfolding strip_mask_inline_comment split_colon unescape_colons
mask_glob raw = unescape_colons (trim_space (split_colon false (strip_mask_inline_comment raw)).0)

unfoldable pub mask_refs : Bytes → Option Bytes
unfolding strip_mask_inline_comment split_colon
mask_refs raw = (split_colon false (strip_mask_inline_comment raw)).1

module _ (re : RegexpPackage) where
  -- The loop over the references: the patterns of the good ones, and the first error.
  unfoldable pub parse_refs : List Bytes → List Pattern × Option RefError
  unfolding parse_pattern_ref
  parse_refs [] = ([], none)
  parse_refs (r ∷ refs) =
      let rest = parse_refs refs in
      elim (parse_pattern_ref re r) [
        | patterns ps ↦ (ps ++ rest.0, rest.1)
        | bad e ↦ (rest.0, some e)
      ]

  -- The part of `parseMaskLine` behind the compiled glob; `refs` is empty if there is no colon.
  unfoldable pub with_refs : MaskEntry → List Bytes → MaskEntry × Option MaskError
  unfolding parse_refs whole_file_pattern
  with_refs entry [] = (
    record entry { patterns = whole_file_pattern ∷ []; pattern_refs = whole_file_name ∷ [] },
    none,
  )
  with_refs entry (r ∷ refs) =
      let (ps, err) = parse_refs (r ∷ refs) in
      (
        record entry { patterns = ps; pattern_refs = r ∷ refs },
        elim err [ none ↦ none | some e ↦ some (ref_error e) ],
      )

  -- What `parseMaskLine` does with the outcome of the compilation of the glob.
  unfoldable pub with_glob : MaskEntry → Option Bytes → Compiled → MaskEntry × Option MaskError
  unfolding with_refs split_pattern_refs
  with_glob entry after (bad_glob e) = (entry, some (glob_error e))
  with_glob entry after (compiled gp) =
      with_refs (record entry { glob_pattern = some gp })
        (elim after [ none ↦ [] | some part ↦ split_pattern_refs part ])

  -- `parseMaskLine` from the glob and the references on.
  unfoldable pub build_entry : ℕ → Bytes → Option Bytes → Bool → MaskEntry × Option MaskError
  unfolding compile_pattern_fold with_glob
  build_entry line_no glob after fold_case =
      if is_empty glob
      then (bare_entry line_no glob, some empty_glob)
      else with_glob (bare_entry line_no glob) after
          (compile_pattern_fold re line_no glob fold_case)

  unfoldable pub parse_mask_line : ℕ → Bytes → Bool → MaskEntry × Option MaskError
  unfolding mask_glob mask_refs build_entry
  parse_mask_line line_no raw fold_case =
      build_entry line_no (mask_glob raw) (mask_refs raw) fold_case
