-- ===== src/Mount/Ops.antt =====
-- The node operations of internal/mount/janus_node.go. A handler runs as one step: the lookups of
-- the engine, the calls of the loopback file system and the event that it leaves.
use janusfs.Base.{ℕ, Bool, false, ◌||◌, ◌&&◌, Option, none, some, []}
use janusfs.Base.{if◌then◌else◌}
use janusfs.Base.Text.{Bytes, codes, eq}
use janusfs.Base.FilePath.{join}
use janusfs.Rules.{Decision, allowed, masked, hidden}
use janusfs.Mount.{
  Errno, enosys, deny_non_allowed, deny_hidden, gate, is_config_file, has_write_intent, Call,
  open_file, opendir, setattr, readlink, listxattr, readdir, lookup, unlink, mkdir, rmdir, mknod,
  create, rename, symlink, link, getxattr, setxattr, removexattr, of_decision, config_readonly,
  Outside, Mount, JanusNode, observe, resolve_node, decision_for, reload_if_stale,
}
use janusfs.Mount.Reply.{
  refused, yielded, masked_handle, virtual_directory, Reply, virtual_name, is_root, checked_link,
  with_virtual, wrapped, forward, refuse, through_gate, on_node, on_child,
}

abbrev pub path_of : Option JanusNode → Bytes
path_of none = []
path_of (some np) = np.rel_path

-- The destination of a rename, which is checked where it is a node of this mount.
unfoldable pub is_config_target : Option JanusNode → Bytes → Bool
unfolding is_config_file join
is_config_target none new_name = false
is_config_target (some np) new_name = is_config_file (join np.rel_path new_name)

module _ {W : Type 0} (out : Outside W) where
  unfoldable pub lookup_node : JanusNode → Bytes → Mount W → Reply W
  unfolding is_root forward
  lookup_node n name m = if eq name virtual_name && is_root n then (m, virtual_directory) else (
    (forward out (lookup n.rel_path name) m).0,
    yielded (forward out (lookup n.rel_path name) m).1,
  )

  unfoldable pub readdir_node : JanusNode → Mount W → Reply W
  unfolding is_root forward with_virtual
  readdir_node n m =
      let (m', y) = forward out (readdir n.rel_path) m in
      (m', yielded (if is_root n then with_virtual y else y))

  unfoldable pub open_decided : JanusNode → ℕ → Decision → Mount W → Reply W
  unfolding has_write_intent refuse observe forward wrapped
  open_decided n flags hidden m = refuse out (codes "open") n.rel_path (of_decision hidden) m
  open_decided n flags masked m =
      if has_write_intent flags
      then refuse out (codes "open") n.rel_path (of_decision masked) m
      else (observe (codes "open") n.rel_path (of_decision masked) 0 m, masked_handle)
  open_decided n flags allowed m =
      let (m', y) = forward out (open_file n.rel_path flags) m in
      (observe (codes "open") n.rel_path (of_decision allowed) 0 m', wrapped y)

  unfoldable pub open_node : JanusNode → ℕ → Mount W → Reply W
  unfolding is_config_file has_write_intent refuse reload_if_stale resolve_node open_decided
  open_node n flags m =
      if is_config_file n.rel_path && has_write_intent flags
      then refuse out (codes "open") n.rel_path config_readonly m
      else let (m', a) = resolve_node n (reload_if_stale out n m) in
        open_decided n flags a.decision m'

  unfoldable pub ioctl_node : JanusNode → Mount W → Reply W
  ioctl_node n m = (m, refused enosys)

  unfoldable pub opendir_handle : JanusNode → ℕ → Mount W → Reply W
  unfolding reload_if_stale on_node
  opendir_handle n flags m =
      on_node out deny_hidden (codes "readdir") n (opendir n.rel_path flags)
        (reload_if_stale out n m)

  unfoldable pub setattr_node : JanusNode → Mount W → Reply W
  unfolding is_config_file refuse on_node
  setattr_node n m =
      if is_config_file n.rel_path
      then refuse out (codes "setattr") n.rel_path config_readonly m
      else on_node out deny_non_allowed (codes "setattr") n (setattr n.rel_path) m

  unfoldable pub unlink_node : JanusNode → Bytes → Mount W → Reply W
  unfolding is_config_file join refuse on_child
  unlink_node n name m =
      if is_config_file (join n.rel_path name)
      then refuse out (codes "unlink") n.rel_path config_readonly m
      else on_child out deny_non_allowed (codes "unlink") n name (unlink n.rel_path name) m

  unfoldable pub mkdir_node : JanusNode → Bytes → Mount W → Reply W
  unfolding on_child
  mkdir_node n name = on_child out deny_hidden (codes "mkdir") n name (mkdir n.rel_path name)

  unfoldable pub rmdir_node : JanusNode → Bytes → Mount W → Reply W
  unfolding on_child
  rmdir_node n name = on_child out deny_hidden (codes "rmdir") n name (rmdir n.rel_path name)

  unfoldable pub rename_to :
      Option JanusNode → JanusNode → Bytes → Decision → Call → Mount W → Reply W
  unfolding decision_for gate through_gate
  rename_to none n new_name d c m = through_gate out none (codes "rename") n.rel_path d c m
  rename_to (some np) n new_name d c m =
      through_gate out (gate deny_non_allowed (decision_for out np new_name m).1) (codes "rename")
        n.rel_path d c (decision_for out np new_name m).0

  -- The source's gate, and the destination's behind it.
  unfoldable pub rename_from :
      Option Errno → Option JanusNode → JanusNode → Bytes → Decision → Call → Mount W → Reply W
  unfolding observe rename_to
  rename_from (some e) np n new_name d c m =
      (observe (codes "rename") n.rel_path (of_decision d) 0 m, refused e)
  rename_from none np n new_name d c m = rename_to np n new_name d c m

  unfoldable pub rename_node : JanusNode → Bytes → Option JanusNode → Bytes → Mount W → Reply W
  unfolding is_config_file is_config_target join refuse decision_for gate rename_from
  rename_node n name np new_name m =
      if is_config_file (join n.rel_path name) || is_config_target np new_name
      then refuse out (codes "rename") n.rel_path config_readonly m
      else rename_from (gate deny_non_allowed (decision_for out n name m).1) np n new_name
          (decision_for out n name m).1 (rename n.rel_path name (path_of np) new_name)
          (decision_for out n name m).0

  unfoldable pub symlink_node : JanusNode → Bytes → Bytes → Mount W → Reply W
  unfolding on_child
  symlink_node n target name =
      on_child out deny_non_allowed (codes "symlink") n name (symlink n.rel_path target name)

  unfoldable pub link_checked :
      Option Errno → JanusNode → JanusNode → Bytes → Decision → Mount W → Reply W
  unfolding observe on_child
  link_checked (some e) tn n name d m =
      (observe (codes "link") n.rel_path (of_decision d) 0 m, refused e)
  link_checked none tn n name d m =
      on_child out deny_non_allowed (codes "link") n name (link tn.rel_path n.rel_path name) m

  -- A target that is no node of this mount is refused.
  unfoldable pub link_node : JanusNode → Option JanusNode → Bytes → Mount W → Reply W
  unfolding refuse resolve_node gate link_checked
  link_node n none name m = refuse out (codes "link") n.rel_path (of_decision hidden) m
  link_node n (some tn) name m =
      let (m', a) = resolve_node tn m in
      link_checked (gate deny_non_allowed a.decision) tn n name a.decision m'

  unfoldable pub mknod_node : JanusNode → Bytes → Mount W → Reply W
  unfolding on_child
  mknod_node n name = on_child out deny_non_allowed (codes "mknod") n name (mknod n.rel_path name)

  unfoldable pub create_node : JanusNode → Bytes → Mount W → Reply W
  unfolding is_config_file join refuse on_child
  create_node n name m =
      if is_config_file (join n.rel_path name)
      then refuse out (codes "create") n.rel_path config_readonly m
      else on_child out deny_non_allowed (codes "create") n name (create n.rel_path name) m

  unfoldable pub readlink_gated : Option Errno → JanusNode → Decision → Mount W → Reply W
  unfolding observe forward checked_link join
  readlink_gated (some e) n d m =
      (observe (codes "readlink") n.rel_path (of_decision d) 0 m, refused e)
  readlink_gated none n d m =
      let (m', y) = forward out (readlink n.rel_path) m in
      (
        observe (codes "readlink") n.rel_path (of_decision d) 0 m',
        checked_link out.root_path (join out.root_path n.rel_path) y,
      )

  unfoldable pub readlink_node : JanusNode → Mount W → Reply W
  unfolding resolve_node gate readlink_gated
  readlink_node n m =
      let (m', a) = resolve_node n m in readlink_gated (gate deny_hidden a.decision) n a.decision m'

  unfoldable pub getxattr_node : JanusNode → Bytes → Mount W → Reply W
  unfolding on_node
  getxattr_node n attr =
      on_node out deny_non_allowed (codes "getxattr") n (getxattr n.rel_path attr)

  unfoldable pub listxattr_node : JanusNode → Mount W → Reply W
  unfolding on_node
  listxattr_node n = on_node out deny_non_allowed (codes "listxattr") n (listxattr n.rel_path)

  unfoldable pub setxattr_node : JanusNode → Bytes → Mount W → Reply W
  unfolding on_node
  setxattr_node n attr =
      on_node out deny_non_allowed (codes "setxattr") n (setxattr n.rel_path attr)

  unfoldable pub removexattr_node : JanusNode → Bytes → Mount W → Reply W
  unfolding on_node
  removexattr_node n attr =
      on_node out deny_non_allowed (codes "removexattr") n (removexattr n.rel_path attr)
