-- ===== src/Engine/Stale.antt =====
-- The policy files' fingerprints of internal/engine/engine.go: statConfigFP, buildConfigSnapshot and
-- StaleAncestors. The disk is what `os.Stat` of a directory's policy file yields now.
use janusfs.Base.{ℕ, zero, suc, Bool, true, false, ◌&&◌, ◌||◌, not, Option, none, some}
use janusfs.Base.{List, [], ◌∷◌, ◌++◌, ◌==◌, if◌then◌else◌, length, map}
use janusfs.Base.Text.{Bytes, eq, has_prefix}
use janusfs.Base.FilePath.{slash, clean, join, dir_of}
use janusfs.Rules.{RuleSet, IgnoreLevel, MaskLevel}

-- The modification time and the size of the directory's policy file, if it has one.
abbrev pub Disk : Type 0
Disk = Bytes → Option (ℕ × ℕ)

pub record DirConfigFp : Type 0 where
  pub ok : Bool
  pub mtime_ns : ℕ
  pub size : ℕ

abbrev pub no_config : DirConfigFp
no_config = record { ok = false; mtime_ns = 0; size = 0 }

unfoldable pub stat_config_fp : Disk → Bytes → DirConfigFp
stat_config_fp disk dir = elim (disk dir) [
  | none ↦ no_config
  | some (mtime, size) ↦ record { ok = true; mtime_ns = mtime; size = size }
]

-- `got == want` on fingerprints.
unfoldable pub fp_eq : DirConfigFp → DirConfigFp → Bool
fp_eq a b = (if a.ok then b.ok else not b.ok) && (a.mtime_ns == b.mtime_ns && a.size == b.size)

abbrev pub Snapshot : Type 0
Snapshot = List (Bytes × DirConfigFp)

-- `snap[dir]`: the zero fingerprint for a directory that is not there.
unfoldable pub snap_of : Snapshot → Bytes → DirConfigFp
snap_of [] dir = no_config
snap_of ((d, fp) ∷ snap) dir = let rest = snap_of snap dir in if eq d dir then fp else rest

unfoldable pub has_dir : Snapshot → Bytes → Bool
has_dir [] dir = false
has_dir ((d, fp) ∷ snap) dir = let rest = has_dir snap dir in if eq d dir then true else rest

-- The three loops: a directory that is there already is not looked at again.
unfoldable pub add_dirs : Disk → List Bytes → Snapshot → Snapshot
unfolding has_dir stat_config_fp
add_dirs disk [] snap = snap
add_dirs disk (d ∷ ds) snap =
    add_dirs disk ds (if has_dir snap d then snap else snap ++ ((d, stat_config_fp disk d) ∷ []))

unfoldable pub build_config_snapshot : Disk → RuleSet → Snapshot
unfolding add_dirs
build_config_snapshot disk rs = add_dirs disk (map (λ (l : MaskLevel). l.dir) rs.mask_levels) (
    add_dirs disk (map (λ (l : IgnoreLevel). l.dir) rs.ignore_levels)
      (add_dirs disk rs.policy_dirs []))

-- The loop of `StaleAncestors`; `none` where the fuel does not suffice.
unfoldable pub stale_loop : ℕ → Disk → Snapshot → Bytes → Bytes → Option Bool
unfolding fp_eq stat_config_fp snap_of
stale_loop zero disk snap root dir = none
stale_loop (suc fuel) disk snap root dir =
    let here = clean dir in
    let parent = dir_of here in
    let rest = stale_loop fuel disk snap root parent in
    if not (fp_eq (stat_config_fp disk here) (snap_of snap here))
    then some true
    else if eq here root || not (has_prefix here (root ++ (slash ∷ [])))
    then some false
    else if eq parent here
    then some false
    else rest

-- Where the loop of `StaleAncestors` starts.
unfoldable pub first_dir : RuleSet → Bytes → Bool → Bytes
first_dir rs rel_path is_dir = let dir = join rs.root rel_path in if is_dir then dir else dir_of dir

unfoldable pub stale_ancestors : Disk → RuleSet → Snapshot → Bytes → Bool → Option Bool
unfolding stale_loop first_dir
stale_ancestors disk rs snap rel_path is_dir =
    let dir = first_dir rs rel_path is_dir in
    stale_loop (suc (length (clean dir))) disk snap (clean rs.root) dir
