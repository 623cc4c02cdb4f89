-- ===== src/Rules/Glob.antt =====
-- internal/rules/glob.go: from a policy glob to a regular expression.
use janusfs.Base.{ℕ, Bool, true, false, Option, none, some, List, [], ◌∷◌, ◌++◌, ◌||◌, ◌&&◌, not}
use janusfs.Base.{◌==◌, if◌then◌else◌, is_empty, drop}
use janusfs.Base.Text.{Bytes, codes, eq, has_prefix, ends_with, drop_last, contains_byte}
use janusfs.Base.FilePath.{slash, split_slash}
use janusfs.Patterns.{RegexpPackage}
use janusfs.Rules.{IgnorePattern, GlobError, empty_pattern, unterminated_class, bad_regex}

abbrev backslash : ℕ
backslash = 92

-- The bytes that stand for themselves only behind a backslash.
unfoldable pub is_meta : ℕ → Bool
is_meta c =
    c == b'.'
    || c == b'+'
    || c == b'('
    || c == b')'
    || c == b'^'
    || c == b'$'
    || c == b'|'
    || c == backslash
    || c == b'{'
    || c == b'}'

-- `translateClass`, from what stands between the brackets.
unfoldable pub translate_class : Bytes → Bytes
translate_class inner =
    (b'[' ∷ (if has_prefix inner (b'!' ∷ []) then b'^' ∷ drop 1 inner else inner)) ++ (b']' ∷ [])

-- What `translateSegment` writes for a byte outside a class.
unfoldable pub translate_byte : ℕ → Bytes
unfolding is_meta
translate_byte c =
    if c == b'*'
    then codes "[^/]*"
    else if c == b'?'
    then codes "[^/]"
    else if is_meta c
    then backslash ∷ c ∷ []
    else c ∷ []

-- The loop of `translateSegment`. From an opening bracket on, the bytes of the class are gathered
-- until the first closing one.
unfoldable pub translate_loop : Option Bytes → Bytes → Option Bytes
unfolding translate_class translate_byte
translate_loop none [] = some []
translate_loop (some inner) [] = none
translate_loop none (c ∷ seg) = elim (translate_loop (if c == b'[' then some [] else none) seg) [
  | none ↦ none
  | some rest ↦ some (if c == b'[' then rest else translate_byte c ++ rest)
]
translate_loop (some inner) (c ∷ seg) =
    elim (translate_loop (if c == b']' then none else some (inner ++ (c ∷ []))) seg) [
      | none ↦ none
      | some rest ↦ some (if c == b']' then translate_class inner ++ rest else rest)
    ]

unfoldable pub translate_segment : Bytes → Option Bytes
unfolding translate_loop
translate_segment seg = translate_loop none seg

-- `isStar[i]`, or `pieces[i]`.
pub data Piece : Type 0 where
  stars : Piece
  piece : Bytes → Piece

unfoldable pub translate_segments : List Bytes → Option (List Piece)
unfolding translate_segment
translate_segments [] = some []
translate_segments (seg ∷ segs) =
    let rest = translate_segments segs in
    let here =
      if eq seg (codes "**")
      then some stars
      else elim (translate_segment seg) [ none ↦ none | some p ↦ some (piece p) ] in
    elim here [ none ↦ none | some p ↦ elim rest [ none ↦ none | some ps ↦ some (p ∷ ps) ] ]

-- The `switch` for a `**` that does not follow another one.
unfoldable pub stars_regex : Bool → Bool → Bool → Bytes
stars_regex single first last =
    if single
    then codes ".*"
    else if first
    then codes "(?:.*/)?"
    else if last
    then codes "/.*"
    else codes "(?:/.*)?"

-- The second loop of `translateGlob`, with the piece in front.
unfoldable pub write_pieces : Bool → Option Piece → List Piece → Bytes
unfolding stars_regex
write_pieces single prev [] = []
write_pieces single prev (p ∷ ps) =
    (elim p [
      | stars ↦ elim prev [
        | none ↦ stars_regex single true (is_empty ps)
        | some stars ↦ []
        | some (piece q) ↦ stars_regex single false (is_empty ps)
      ]
      | piece q ↦ elim prev [ none ↦ q | some stars ↦ q | some (piece r) ↦ slash ∷ q ]
    ])
    ++ write_pieces single (some p) ps

abbrev is_single : List Piece → Bool
is_single [] = false
is_single (p ∷ ps) = is_empty ps

unfoldable pub translate_glob : Bytes → Option Bytes
unfolding translate_segments write_pieces
translate_glob pattern = elim (translate_segments (split_slash pattern)) [
  | none ↦ none
  | some ps ↦ some (write_pieces (is_single ps) none ps)
]

-- The steps of `compilePatternFold` that strip the line: the line left, and what was found.
unfoldable pub strip_negation : Bytes → Bool × Bytes
strip_negation line =
    if has_prefix line (backslash ∷ b'!' ∷ [])
    then (false, b'!' ∷ drop 2 line)
    else if has_prefix line (b'!' ∷ [])
    then (true, drop 1 line)
    else (false, line)

unfoldable pub strip_hash : Bytes → Bytes
strip_hash line = if has_prefix line (backslash ∷ b'#' ∷ []) then b'#' ∷ drop 2 line else line

unfoldable pub strip_dir : Bytes → Bool × Bytes
strip_dir line = if ends_with line slash then (true, drop_last line) else (false, line)

unfoldable pub strip_anchor : Bytes → Bool × Bytes
strip_anchor line = if has_prefix line (slash ∷ []) then (true, drop 1 line) else (false, line)

-- The regular expression around the translated glob.
unfoldable pub full_regex : Bool → Bool → Bytes → Bytes
full_regex fold_case tied core =
    let full = (if tied then codes "^" else codes "^(?:.*/)?") ++ (core ++ codes "$") in
    if fold_case then codes "(?i)" ++ full else full

pub data Compiled : Type 0 where
  compiled : IgnorePattern → Compiled
  bad_glob : GlobError → Compiled

unfoldable pub compile_pattern_fold : RegexpPackage → ℕ → Bytes → Bool → Compiled
unfolding strip_negation strip_hash strip_dir strip_anchor full_regex translate_glob
compile_pattern_fold re line_no raw fold_case =
    let (negate, line1) = strip_negation raw in
    let (dir_only, line2) = strip_dir (strip_hash line1) in
    let (anchored, line) = strip_anchor line2 in
    if is_empty line then bad_glob empty_pattern else elim (translate_glob line) [
      | none ↦ bad_glob unterminated_class
      | some core ↦
          elim (re.compile (full_regex fold_case (anchored || contains_byte line slash) core)) [
            | none ↦ bad_glob bad_regex
            | some r ↦ compiled (record {
              negate = negate;
              dir_only = dir_only;
              re = r;
              line_no = line_no;
              raw = raw;
            })
          ]
    ]

-- `matches`.
unfoldable pub matches : IgnorePattern → Bytes → Bool → Bool
matches p rel_path is_dir = if p.dir_only && not is_dir then false else p.re.match_string rel_path
