-- ===== src/Mount/Requests.antt =====
-- The operations of internal/mount/janus_node.go that a policy gates, as one type of requests, and
-- what the policy says of each, told without the handlers.
use janusfs.Base.{Bool, true, false, ◌&&◌, not, Option, none, some}
use janusfs.Base.Text.{Bytes}
use janusfs.Base.FilePath.{join}
use janusfs.Rules.{Decision, allowed, masked, hidden, RuleSet}
use janusfs.Rules.Resolve.{resolve}
use janusfs.Backing.{lstat_at}
use janusfs.Mount.{
  Call, setattr, unlink, mkdir, rmdir, mknod, create, rename, symlink, link, getxattr, listxattr,
  setxattr, removexattr, Outside, Mount, JanusNode, is_config_file, is_directory,
}
use janusfs.Mount.Reply.{Reply}
use janusfs.Mount.Ops.{
  setattr_node, unlink_node, mkdir_node, rmdir_node, rename_node, symlink_node, link_node,
  mknod_node, create_node, getxattr_node, listxattr_node, setxattr_node, removexattr_node, path_of,
}

pub data Request : Type 0 where
  ask_setattr ask_listxattr : JanusNode → Request
  ask_unlink ask_mkdir ask_rmdir ask_mknod ask_create : JanusNode → Bytes → Request
  ask_getxattr ask_setxattr ask_removexattr : JanusNode → Bytes → Request
  -- The second node is the new parent, `none` if it is not of this mount.
  ask_rename : JanusNode → Bytes → Option JanusNode → Bytes → Request
  ask_symlink : JanusNode → Bytes → Bytes → Request
  -- The second node is the target, `none` if it is not of this mount.
  ask_link : JanusNode → Option JanusNode → Bytes → Request

abbrev pub is_allowed : Decision → Bool
is_allowed allowed = true
is_allowed masked = false
is_allowed hidden = false

abbrev pub is_visible : Decision → Bool
is_visible allowed = true
is_visible masked = true
is_visible hidden = false

module _ {W : Type 0} (out : Outside W) where
  unfoldable pub handle : Request → Mount W → Reply W
  unfolding setattr_node unlink_node mkdir_node rmdir_node rename_node symlink_node link_node
      mknod_node create_node getxattr_node listxattr_node setxattr_node removexattr_node
  handle (ask_setattr n) = setattr_node out n
  handle (ask_listxattr n) = listxattr_node out n
  handle (ask_unlink n name) = unlink_node out n name
  handle (ask_mkdir n name) = mkdir_node out n name
  handle (ask_rmdir n name) = rmdir_node out n name
  handle (ask_mknod n name) = mknod_node out n name
  handle (ask_create n name) = create_node out n name
  handle (ask_getxattr n attr) = getxattr_node out n attr
  handle (ask_setxattr n attr) = setxattr_node out n attr
  handle (ask_removexattr n attr) = removexattr_node out n attr
  handle (ask_rename n name np new) = rename_node out n name np new
  handle (ask_symlink n target name) = symlink_node out n target name
  handle (ask_link n t name) = link_node out n t name

  -- The verdict of the rules on a node, and on a name below one: a directory there counts as one.
  abbrev pub of_node : RuleSet → JanusNode → Decision
  of_node rs n = (resolve rs n.rel_path n.is_dir).decision

  abbrev pub of_child : RuleSet → W → JanusNode → Bytes → Decision
  of_child rs w n name =
      (resolve rs (join n.rel_path name)
        (is_directory (lstat_at out.kernel (join n.rel_path name) w).1)).decision

  abbrev pub is_config_child : JanusNode → Bytes → Bool
  is_config_child n name = is_config_file (join n.rel_path name)

  abbrev pub target_permits : RuleSet → W → Option JanusNode → Bytes → Bool
  target_permits rs w none new = true
  target_permits rs w (some np) new =
      not (is_config_child np new) && is_allowed (of_child rs w np new)

  abbrev pub source_permits : RuleSet → Option JanusNode → Bool
  source_permits rs none = false
  source_permits rs (some tn) = is_allowed (of_node rs tn)

  -- Whether the policy permits the request.
  unfoldable pub permits : RuleSet → W → Request → Bool
  permits rs w (ask_setattr n) = not (is_config_file n.rel_path) && is_allowed (of_node rs n)
  permits rs w (ask_listxattr n) = is_allowed (of_node rs n)
  permits rs w (ask_unlink n name) =
      not (is_config_child n name) && is_allowed (of_child rs w n name)
  permits rs w (ask_mkdir n name) = is_visible (of_child rs w n name)
  permits rs w (ask_rmdir n name) = is_visible (of_child rs w n name)
  permits rs w (ask_mknod n name) = is_allowed (of_child rs w n name)
  permits rs w (ask_create n name) =
      not (is_config_child n name) && is_allowed (of_child rs w n name)
  permits rs w (ask_getxattr n attr) = is_allowed (of_node rs n)
  permits rs w (ask_setxattr n attr) = is_allowed (of_node rs n)
  permits rs w (ask_removexattr n attr) = is_allowed (of_node rs n)
  permits rs w (ask_rename n name np new) =
      not (is_config_child n name)
      && (is_allowed (of_child rs w n name) && target_permits rs w np new)
  permits rs w (ask_symlink n target name) = is_allowed (of_child rs w n name)
  permits rs w (ask_link n t name) = source_permits rs t && is_allowed (of_child rs w n name)

  -- What the file system is asked for where the policy permits it.
  unfoldable pub call_of : Request → Call
  call_of (ask_setattr n) = setattr n.rel_path
  call_of (ask_listxattr n) = listxattr n.rel_path
  call_of (ask_unlink n name) = unlink n.rel_path name
  call_of (ask_mkdir n name) = mkdir n.rel_path name
  call_of (ask_rmdir n name) = rmdir n.rel_path name
  call_of (ask_mknod n name) = mknod n.rel_path name
  call_of (ask_create n name) = create n.rel_path name
  call_of (ask_getxattr n attr) = getxattr n.rel_path attr
  call_of (ask_setxattr n attr) = setxattr n.rel_path attr
  call_of (ask_removexattr n attr) = removexattr n.rel_path attr
  call_of (ask_rename n name np new) = rename n.rel_path name (path_of np) new
  call_of (ask_symlink n target name) = symlink n.rel_path target name
  call_of (ask_link n t name) = link (path_of t) n.rel_path name
