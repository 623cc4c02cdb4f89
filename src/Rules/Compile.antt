-- ===== src/Rules/Compile.antt =====
-- internal/rules/rules.go: policy files compiled into levels, and the levels of a tree collected.
-- The disk and the YAML parser are a parameter: what a read of a directory's policy file yields.
pub mod Poison
pub mod MaskGlob
use janusfs.Base.{ℕ, ◌+◌, Bool, true, false, Option, none, some, List, [], ◌∷◌, ◌++◌, ◌&&◌, not}
use janusfs.Base.{◌==◌, if◌then◌else◌, is_empty, length}
use janusfs.Base.Sorting.{bytes_le, sort_by}
use janusfs.Base.Text.{Bytes, codes, eq, has_prefix, trim_space}
use janusfs.Base.FilePath.{dot, join, rel}
use janusfs.Patterns.{RegexpPackage}
use janusfs.Rules.{IgnoreLevel, MaskEntry, MaskLevel, RuleSet}
use janusfs.Rules.Glob.{Compiled, compiled, bad_glob, compile_pattern_fold}
use janusfs.Rules.MaskLine.{parse_mask_line}

pub record PolicyMask : Type 0 where
  pub paths : List Bytes
  pub patterns : List Bytes

pub record PolicyFile : Type 0 where
  pub version : ℕ
  pub hide : List Bytes
  pub allow : List Bytes
  pub mask : List PolicyMask

-- `os.Stat`, `os.ReadFile` and `yaml.Unmarshal` of a directory's policy file.
pub data PolicyRead : Type 0 where
  absent unreadable unparsable : PolicyRead
  parsed : PolicyFile → PolicyRead

abbrev pub policy_file_name : Bytes
policy_file_name = codes ".janusfs.yml"

unfoldable pub join_comma : List Bytes → Bytes
join_comma [] = []
join_comma (p ∷ []) = p
join_comma (p ∷ q ∷ ps) = p ++ (codes ", " ++ join_comma (q ∷ ps))

-- The line that `compileMaskPolicy` synthesises for one path.
unfoldable pub mask_line : Bytes → Bytes → Bytes
mask_line path part =
    if is_empty part then trim_space path else trim_space path ++ (codes " : " ++ part)

-- A glob of the allow list, as the negation that it stands for.
unfoldable pub allow_glob : Bytes → Bytes
allow_glob raw =
    let glob = trim_space raw in
    if not (is_empty glob) && not (has_prefix glob (b'!' ∷ [])) then b'!' ∷ glob else glob

-- What `addIgnorePattern` does with the outcome of the compilation.
unfoldable pub add_compiled : IgnoreLevel → ℕ → Bytes → Compiled → IgnoreLevel
add_compiled lvl line_no glob (bad_glob e) = record lvl {
  raw_lines = lvl.raw_lines ++ (record { line_no = line_no; text = glob } ∷ []);
  poisoned = true;
  line_errs = lvl.line_errs ++ ((line_no, e) ∷ []);
}
add_compiled lvl line_no glob (compiled p) = record lvl {
  raw_lines = lvl.raw_lines ++ (record { line_no = line_no; text = glob } ∷ []);
  patterns = lvl.patterns ++ (p ∷ []);
}

abbrev pub trimmed : List Bytes → List Bytes
trimmed [] = []
trimmed (g ∷ globs) = trim_space g ∷ trimmed globs

abbrev pub negated : List Bytes → List Bytes
negated [] = []
negated (g ∷ globs) = allow_glob g ∷ negated globs

-- A level with no pattern.
abbrev pub empty_level : Bytes → Bytes → Bool → IgnoreLevel
empty_level file dir poisoned = record {
  dir = dir;
  file = file;
  patterns = [];
  raw_lines = [];
  is_global = false;
  rel_dir = [];
  poisoned = poisoned;
  line_errs = [];
}

abbrev is_absent : PolicyRead → Bool
is_absent absent = true
is_absent unreadable = false
is_absent unparsable = false
is_absent (parsed pf) = false

abbrev pub is_global_dir : RuleSet → Bytes → Bool
is_global_dir rs dir = not (is_empty rs.global_dir) && eq dir rs.global_dir

unfoldable pub rel_dir_of : RuleSet → Bytes → Bytes
rel_dir_of rs dir =
    if is_global_dir rs dir
    then []
    else elim (rel rs.root dir) [ none ↦ [] | some r ↦ if eq r dot then [] else r ]

abbrev with_ignore : RuleSet → Bytes → Option IgnoreLevel → RuleSet
with_ignore rs dir none = rs
with_ignore rs dir (some lvl) = record rs {
  ignore_levels =
      rs.ignore_levels
      ++ (record lvl { is_global = is_global_dir rs dir; rel_dir = rel_dir_of rs dir } ∷ []);
}

abbrev with_mask : RuleSet → Bytes → Option MaskLevel → RuleSet
with_mask rs dir none = rs
with_mask rs dir (some lvl) = record rs {
  mask_levels =
      rs.mask_levels
      ++ (record lvl { is_global = is_global_dir rs dir; rel_dir = rel_dir_of rs dir } ∷ []);
}

module _ (re : RegexpPackage) (fold_case : Bool) where
  -- `addIgnorePattern`.
  unfoldable pub add_ignore_pattern : IgnoreLevel → ℕ → Bytes → IgnoreLevel
  unfolding compile_pattern_fold add_compiled
  add_ignore_pattern lvl line_no glob =
      add_compiled lvl line_no glob (compile_pattern_fold re line_no glob fold_case)

  -- The loops over the globs, with the number of the line before.
  unfoldable pub add_all : IgnoreLevel → ℕ → List Bytes → IgnoreLevel
  unfolding add_ignore_pattern
  add_all lvl n [] = lvl
  add_all lvl n (g ∷ globs) = add_all (add_ignore_pattern lvl (n + 1) g) (n + 1) globs

  unfoldable pub compile_ignore_policy :
      Bytes → Bytes → List Bytes → List Bytes → Option IgnoreLevel
  unfolding add_all allow_glob
  compile_ignore_policy file dir hide allow =
      if is_empty hide && is_empty allow
      then none
      else some (
          add_all (add_all (empty_level file dir false) 0 (trimmed hide)) (length hide)
            (negated allow))

  -- The entry of one path, its error kept in the entry.
  unfoldable pub mask_entry : ℕ → Bytes → MaskEntry
  unfolding parse_mask_line
  mask_entry line_no line =
      let (entry, err) = parse_mask_line re line_no line fold_case in
      record entry { compile_err = err }

  unfoldable pub path_entries : Bytes → ℕ → List Bytes → List MaskEntry
  unfolding mask_entry mask_line
  path_entries part n [] = []
  path_entries part n (p ∷ paths) =
      mask_entry (n + 1) (mask_line p part) ∷ path_entries part (n + 1) paths

  unfoldable pub mask_entries : ℕ → List PolicyMask → List MaskEntry
  unfolding path_entries join_comma
  mask_entries n [] = []
  mask_entries n (m ∷ masks) =
      path_entries (join_comma m.patterns) n m.paths ++ mask_entries (n + length m.paths) masks

  unfoldable pub compile_mask_policy : Bytes → Bytes → List PolicyMask → Option MaskLevel
  unfolding mask_entries
  compile_mask_policy file dir [] = none
  compile_mask_policy file dir (m ∷ masks) = some (record {
    dir = dir;
    file = file;
    entries = mask_entries 0 (m ∷ masks);
    is_global = false;
    rel_dir = [];
  })

  unfoldable pub load_policy_level : Bytes → PolicyRead → Option IgnoreLevel × Option MaskLevel
  unfolding compile_ignore_policy compile_mask_policy
  load_policy_level dir absent = (none, none)
  load_policy_level dir unreadable = (some (empty_level (join dir policy_file_name) dir true), none)
  load_policy_level dir unparsable = (some (empty_level (join dir policy_file_name) dir true), none)
  load_policy_level dir (parsed pf) =
      let file = join dir policy_file_name in
      if pf.version == 1
      then (compile_ignore_policy file dir pf.hide pf.allow, compile_mask_policy file dir pf.mask)
      else (some (empty_level file dir true), none)

  unfoldable pub load_level : (Bytes → PolicyRead) → RuleSet → Bytes → RuleSet
  unfolding load_policy_level rel_dir_of
  load_level disk rs dir =
      let (ignore, mask) = load_policy_level dir (disk dir) in
      let rs1 =
        if is_absent (disk dir)
        then rs
        else record rs { policy_dirs = rs.policy_dirs ++ (dir ∷ []) } in
      with_mask (with_ignore rs1 dir ignore) dir mask

  unfoldable pub load_levels : (Bytes → PolicyRead) → RuleSet → List Bytes → RuleSet
  unfolding load_level
  load_levels disk rs [] = rs
  load_levels disk rs (d ∷ dirs) = load_levels disk (load_level disk rs d) dirs

  -- `Discover`: the global directory if the home directory is known, then every directory of the
  -- walk, sorted.
  unfoldable pub discover : (Bytes → PolicyRead) → Bytes → Option Bytes → List Bytes → RuleSet
  unfolding load_levels
  discover disk root global dirs =
      let base : RuleSet = record {
        root = root;
        global_dir = elim global [ none ↦ [] | some gd ↦ gd ];
        ignore_levels = [];
        mask_levels = [];
        policy_dirs = [];
        fold_case = fold_case;
      } in
      load_levels disk (elim global [ none ↦ base | some gd ↦ load_level disk base gd ])
        (sort_by bytes_le dirs)
