-- ===== src/Config/Preconditions.antt =====
-- What a mount wants before it starts: absClean, ResolveMountpoint, Validate and pathsOverlap of
-- internal/config/config.go. What the file system says of a path is a parameter.
pub mod Derived
pub mod Disjoint
use janusfs.Base.{Bool, true, false, ◌||◌, not, Option, none, some}
use janusfs.Base.{[], ◌∷◌, ◌++◌, if◌then◌else◌, is_empty}
use janusfs.Base.Text.{Bytes, eq, has_prefix}
use janusfs.Base.FilePath.{slash, clean, join}
use janusfs.Config.{Config}

-- `os.Stat` of a path: gone, another error, or whether it is a directory.
pub data Stat : Type 0 where
  missing stat_failed : Stat
  found : Bool → Stat

-- `Readdirnames(1)` behind `os.Open`.
pub data FirstEntry : Type 0 where
  open_failed end_of_directory read_failed entry : FirstEntry

-- `filepath.Abs`, `filepath.EvalSymlinks`, `os.Stat`, the first entry of a directory, and whether
-- `os.MkdirAll` goes well.
pub record Paths : Type 0 where
  pub abs : Bytes → Option Bytes
  pub eval_symlinks : Bytes → Option Bytes
  pub stat : Bytes → Stat
  pub first_entry : Bytes → FirstEntry
  pub make_dir : Bytes → Bool

pub data ConfigError : Type 0 where
  source_required mountpoint_required source_unresolved mountpoint_unresolved : ConfigError
  source_missing source_inaccessible source_no_directory : ConfigError
  mountpoint_unavailable mountpoint_no_directory mountpoint_unchecked : ConfigError
  mountpoint_not_empty overlap mountpoint_not_made : ConfigError

unfoldable pub resolved : Bytes → Option Bytes → Bytes
unfolding clean
resolved path none = clean path
resolved path (some target) = clean target

unfoldable pub abs_clean : Paths → Bytes → Option Bytes
unfolding resolved
abs_clean fs p = elim (fs.abs p) [
  | none ↦ none
  | some path ↦ some (resolved path (fs.eval_symlinks path))
]

unfoldable pub paths_overlap : Bytes → Bytes → Bool
paths_overlap a b =
    if eq a b
    then true
    else has_prefix (b ++ (slash ∷ [])) (a ++ (slash ∷ []))
      || has_prefix (a ++ (slash ∷ [])) (b ++ (slash ∷ []))

-- `isEmptyDir`; `none` is an error.
unfoldable pub is_empty_dir : FirstEntry → Option Bool
is_empty_dir open_failed = none
is_empty_dir end_of_directory = some true
is_empty_dir read_failed = none
is_empty_dir entry = some false

-- The checks of `Validate` from the last to the first; `none` is that all went well.
unfoldable pub check_overlap : Bytes → Bytes → Option ConfigError
unfolding paths_overlap
check_overlap src mount = if paths_overlap src mount then some overlap else none

unfoldable pub check_empty : Option Bool → Bytes → Bytes → Option ConfigError
unfolding check_overlap
check_empty none src mount = some mountpoint_unchecked
check_empty (some false) src mount = some mountpoint_not_empty
check_empty (some true) src mount = check_overlap src mount

unfoldable pub check_mountpoint : Stat → FirstEntry → Bytes → Bytes → Option ConfigError
unfolding is_empty_dir check_empty
check_mountpoint missing first src mount = some mountpoint_unavailable
check_mountpoint stat_failed first src mount = some mountpoint_unavailable
check_mountpoint (found false) first src mount = some mountpoint_no_directory
check_mountpoint (found true) first src mount = check_empty (is_empty_dir first) src mount

unfoldable pub check_source : Stat → Stat → FirstEntry → Bytes → Bytes → Option ConfigError
unfolding check_mountpoint
check_source missing there first src mount = some source_missing
check_source stat_failed there first src mount = some source_inaccessible
check_source (found false) there first src mount = some source_no_directory
check_source (found true) there first src mount = check_mountpoint there first src mount

unfoldable pub check_paths : Paths → Option Bytes → Option Bytes → Option ConfigError
unfolding check_source
check_paths fs none mount = some source_unresolved
check_paths fs (some src) none = some mountpoint_unresolved
check_paths fs (some src) (some mount) =
    check_source (fs.stat src) (fs.stat mount) (fs.first_entry mount) src mount

unfoldable pub validate : Paths → Config → Option ConfigError
unfolding abs_clean check_paths
validate fs cfg =
    if is_empty cfg.src
    then some source_required
    else if is_empty cfg.mountpoint
    then some mountpoint_required
    else check_paths fs (abs_clean fs cfg.src) (abs_clean fs cfg.mountpoint)

-- The end of `ResolveMountpoint`, behind absClean.
unfoldable pub derive : Paths → Config → Option Bytes → Config × Option ConfigError
unfolding join
derive fs cfg none = (cfg, some source_unresolved)
derive fs cfg (some src) =
    if fs.make_dir (join cfg.mount_root src)
    then (record cfg { mountpoint = join cfg.mount_root src }, none)
    else (cfg, some mountpoint_not_made)

unfoldable pub resolve_mountpoint : Paths → Config → Config × Option ConfigError
unfolding abs_clean derive
resolve_mountpoint fs cfg =
    if not (is_empty cfg.mountpoint) || is_empty cfg.mount_root
    then (cfg, none)
    else if is_empty cfg.src
    then (cfg, some source_required)
    else derive fs cfg (abs_clean fs cfg.src)
