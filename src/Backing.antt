-- ===== src/Backing.antt =====
-- internal/backing/backing.go: access to the source tree relative to a descriptor of its root. The
-- kernel is a parameter: the system calls, relative to that descriptor, on a state of its own.
pub mod Confined
use janusfs.Base.{ℕ, Bool, true, false, not, ◌||◌, ◌&&◌, Option, none, some}
use janusfs.Base.{List, [], ◌∷◌, if◌then◌else◌, is_empty, any, all}
use janusfs.Base.Text.{Bytes, eq, has_prefix}
use janusfs.Base.FilePath.{slash, dot, dot_dot, split_slash}

pub record FileStat : Type 0 where
  pub directory : Bool
  pub mtime_sec : ℕ
  pub mtime_nsec : ℕ
  pub size : ℕ
  pub ino : ℕ

pub data SysCall : Type 0 where
  openat : Bytes → ℕ → ℕ → SysCall
  fstatat : Bytes → Bool → SysCall
  readlinkat : Bytes → SysCall
  unlinkat : Bytes → Bool → SysCall
  renameat linkat : Bytes → Bytes → SysCall
  mkdirat fchmodat : Bytes → ℕ → SysCall
  symlinkat : Bytes → Bytes → SysCall

pub data SysReply : Type 0 where
  done : SysReply
  descriptor : ℕ → SysReply
  attributes : FileStat → SysReply
  target : Bytes → SysReply
  sys_error : ℕ → SysReply

-- What a method returns: `invalid_rel_path` is ErrInvalidRelPath.
pub data Outcome : Type 0 where
  invalid_rel_path : Outcome
  reply : SysReply → Outcome

abbrev pub Kernel : Type 0 → Type 0
Kernel W = SysCall → W → W × SysReply

unfoldable pub bad_segment : Bytes → Bool
bad_segment seg = is_empty seg || (eq seg dot || eq seg dot_dot)

-- `validRel(rel) == nil`.
unfoldable pub valid_rel : Bytes → Bool
unfolding bad_segment
valid_rel rel =
    if is_empty rel
    then false
    else if eq rel dot
    then true
    else if has_prefix rel (slash ∷ [])
    then false
    else not (any bad_segment (split_slash rel))

module _ {W : Type 0} (kernel : Kernel W) where
  abbrev call : SysCall → W → W × Outcome
  call c w = let (w', r) = kernel c w in (w', reply r)

  -- The check of one path, and the system call behind it.
  unfoldable pub checked : Bytes → SysCall → W → W × Outcome
  unfolding valid_rel
  checked rel c w = if valid_rel rel then call c w else (w, invalid_rel_path)

  -- The checks of two paths.
  unfoldable pub checked_both : Bytes → Bytes → SysCall → W → W × Outcome
  unfolding valid_rel checked
  checked_both old new c w = if valid_rel old then checked new c w else (w, invalid_rel_path)

  unfoldable pub open_at : Bytes → ℕ → ℕ → W → W × Outcome
  unfolding checked
  open_at rel flags mode = checked rel (openat rel flags mode)

  unfoldable pub stat_at : Bytes → W → W × Outcome
  unfolding checked
  stat_at rel = checked rel (fstatat rel true)

  unfoldable pub lstat_at : Bytes → W → W × Outcome
  unfolding checked
  lstat_at rel = checked rel (fstatat rel false)

  unfoldable pub readlink_at : Bytes → W → W × Outcome
  unfolding checked
  readlink_at rel = checked rel (readlinkat rel)

  unfoldable pub unlink_at : Bytes → Bool → W → W × Outcome
  unfolding checked
  unlink_at rel dir = checked rel (unlinkat rel dir)

  unfoldable pub rename_at : Bytes → Bytes → W → W × Outcome
  unfolding checked_both
  rename_at old new = checked_both old new (renameat old new)

  unfoldable pub mkdir_at : Bytes → ℕ → W → W × Outcome
  unfolding checked
  mkdir_at rel mode = checked rel (mkdirat rel mode)

  unfoldable pub symlink_at : Bytes → Bytes → W → W × Outcome
  unfolding checked
  symlink_at text rel = checked rel (symlinkat text rel)

  unfoldable pub link_at : Bytes → Bytes → W → W × Outcome
  unfolding checked_both
  link_at old new = checked_both old new (linkat old new)

  unfoldable pub chmod_at : Bytes → ℕ → W → W × Outcome
  unfolding checked
  chmod_at rel mode = checked rel (fchmodat rel mode)
