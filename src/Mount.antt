-- ===== src/Mount.antt =====
-- internal/mount: the decision-bearing adapter. This file has janus_node.go's gates, the state of a
-- mount, and what its handlers share; apperrors.go's error numbers; and the reload of
-- cmd/janusfs/runtime.go. The kernel, go-fuse's loopback file system, the disk that holds the policy
-- files and Discover on it are parameters, on a state `W` of the world outside.
pub mod Reply
pub mod Ops
pub mod Requests
pub mod Gate
pub mod Permits
pub mod Opening
pub mod Links
pub mod Handles
pub mod Pread
pub mod Shown
pub mod Reading
use janusfs.Base.{ℕ, Bool, true, false, ◌||◌, Option, none, some, List, [], ◌∷◌, ◌++◌}
use janusfs.Base.{if◌then◌else◌, ◌/◌, ◌%◌, ◌==◌}
use janusfs.Base.Text.{Bytes, codes, eq}
use janusfs.Base.FilePath.{join, base_of}
use janusfs.Rules.{Decision, allowed, masked, hidden, RuleSet}
use janusfs.Engine.{Engine, Answer, resolve_alone, reload_alone}
use janusfs.Engine.Stale.{Disk, Snapshot, build_config_snapshot, stale_ancestors}
use janusfs.Backing.{
  Kernel, Outcome, reply, attributes, SysReply, FileStat, lstat_at, invalid_rel_path,
}
use janusfs.Provider.{RamCache, invalidate_all}

-- `syscall.Errno`: those that this code names, and any other.
pub data Errno : Type 0 where
  eacces enoent eio enosys : Errno
  other_errno : ℕ → Errno

-- The sentinels of apperrors, and any other error.
pub data AppError : Type 0 where
  rebuild_timeout_error redact_unsupported_error symlink_escape panic_error unrelated : AppError

unfoldable pub to_errno : AppError → Errno
to_errno symlink_escape = enoent
to_errno redact_unsupported_error = eacces
to_errno rebuild_timeout_error = eio
to_errno panic_error = eio
to_errno unrelated = eio

pub data GateClass : Type 0 where
  deny_non_allowed deny_hidden : GateClass

-- `gate`: `none` is to proceed.
unfoldable pub gate : GateClass → Decision → Option Errno
gate deny_non_allowed allowed = none
gate deny_non_allowed masked = some eacces
gate deny_non_allowed hidden = some eacces
gate deny_hidden allowed = none
gate deny_hidden masked = none
gate deny_hidden hidden = some eacces

unfoldable pub is_config_file : Bytes → Bool
unfolding base_of
is_config_file rel = eq (base_of rel) (codes ".janusfs.yml")

-- `flags&(O_WRONLY|O_RDWR|O_TRUNC|O_CREAT) != 0`, with the values on Linux: 1, 2, 512 and 64.
unfoldable pub has_write_intent : ℕ → Bool
has_write_intent flags =
    (flags % 2 == 1 || (flags / 2) % 2 == 1) || ((flags / 512) % 2 == 1 || (flags / 64) % 2 == 1)

-- What the file system of go-fuse is asked for, by paths relative to the root.
pub data Call : Type 0 where
  open_file opendir : Bytes → ℕ → Call
  getattr setattr readlink listxattr readdir : Bytes → Call
  lookup unlink mkdir rmdir mknod create : Bytes → Bytes → Call
  rename : Bytes → Bytes → Bytes → Bytes → Call
  symlink : Bytes → Bytes → Bytes → Call
  link : Bytes → Bytes → Bytes → Call
  getxattr setxattr removexattr : Bytes → Bytes → Call
  read_file write_file : Bytes → ℕ → ℕ → Call

-- What it yields; `opened` says whether the handle is a LoopbackFile.
pub data Yield : Type 0 where
  failed : Errno → Yield
  finished : Yield
  opened : Bool → Yield
  text : Bytes → Yield
  names : List Bytes → Yield

pub data Label : Type 0 where
  of_decision : Decision → Label
  config_readonly : Label

-- `OpEvent`, without the time it took and the word on the cache.
pub record Event : Type 0 where
  pub op : Bytes
  pub path : Bytes
  pub label : Label
  pub bytes : ℕ

-- What a mount works on: `has_reload` says whether `JanusRoot.Reload` is set.
pub record Outside (W : Type 0) : Type 0 where
  pub kernel : Kernel W
  pub loopback : Call → W → W × Yield
  pub disk : W → Disk
  pub discover : W → Option RuleSet
  pub root_path : Bytes
  pub has_reload : Bool

pub record Mount (W : Type 0) : Type 0 where
  pub world : W
  pub engine : Engine
  pub config_fp : Snapshot
  pub cache : RamCache
  pub events : List Event

-- `JanusNode`: where it stands in the tree now, and whether it is a directory.
pub record JanusNode : Type 0 where
  pub rel_path : Bytes
  pub is_dir : Bool

-- The directory bit of a stat that succeeded.
abbrev pub is_directory : Outcome → Bool
is_directory invalid_rel_path = false
is_directory (reply (attributes st)) = st.directory
is_directory (reply SysReply.done) = false
is_directory (reply (SysReply.descriptor fd)) = false
is_directory (reply (SysReply.target s)) = false
is_directory (reply (SysReply.sys_error e)) = false

module _ {W : Type 0} where
  unfoldable pub observe : Bytes → Bytes → Label → ℕ → Mount W → Mount W
  observe op path label bytes m = record m {
    events = m.events ++ (record { op = op; path = path; label = label; bytes = bytes } ∷ []);
  }

  -- `Engine.Resolve`, by one handler at a time.
  unfoldable pub ask : Bytes → Bool → Mount W → Mount W × Answer
  unfolding resolve_alone
  ask rel is_dir m = (
    record m { engine = (resolve_alone m.engine rel is_dir).0 },
    (resolve_alone m.engine rel is_dir).1,
  )

  -- `n.resolve()`.
  unfoldable pub resolve_node : JanusNode → Mount W → Mount W × Answer
  unfolding ask
  resolve_node n = ask n.rel_path n.is_dir

module _ {W : Type 0} (out : Outside W) where
  -- `n.decisionFor(name)`, for the name below a directory.
  unfoldable pub decision_for : JanusNode → Bytes → Mount W → Mount W × Decision
  unfolding ask lstat_at join
  decision_for n name m =
      let rel = join n.rel_path name in
      let (w, st) = lstat_at out.kernel rel m.world in
      let (m', a) = ask rel (is_directory st) (record m { world = w }) in (m', a.decision)

  -- `Engine.Reload`, behind Discover: an error leaves everything as it was.
  unfoldable pub reload_found : Option RuleSet → Mount W → Mount W
  unfolding reload_alone build_config_snapshot
  reload_found none m = m
  reload_found (some rs) m = record m {
    engine = reload_alone rs m.engine;
    config_fp = build_config_snapshot (out.disk m.world) rs;
  }

  unfoldable pub reload_engine : Mount W → Mount W
  unfolding reload_found
  reload_engine m = reload_found (out.discover m.world) m

  -- `mountRuntime.reload`.
  unfoldable pub reload : Mount W → Mount W
  unfolding reload_engine invalidate_all
  reload m = record (reload_engine m) { cache = invalidate_all (reload_engine m).cache }

  unfoldable pub reload_if : Option Bool → Mount W → Mount W
  unfolding reload reload_engine
  reload_if none m = m
  reload_if (some false) m = m
  reload_if (some true) m = if out.has_reload then reload m else reload_engine m

  -- `n.reloadIfStale()`.
  unfoldable pub reload_if_stale : JanusNode → Mount W → Mount W
  unfolding stale_ancestors reload_if
  reload_if_stale n m =
      reload_if (stale_ancestors (out.disk m.world) m.engine.rs m.config_fp n.rel_path n.is_dir) m
