-- ===== src/Tests/ConfigRuns.antt =====
-- Concrete runs of the configuration, the backing and the check for stale policies.
use janusfs.Base.{◌≡◌, refl, ◌&&◌, not, true, false, none, some, List, [], ◌∷◌, ◌++◌, any}
use janusfs.Base.{if◌then◌else◌, all, ltb, is_empty}
use janusfs.Base.Text.{Bytes, codes, eq}
use janusfs.Base.FilePath.{slash, dot, dir_of, clean, clean_parts, split_slash, join}
use janusfs.Rules.{RuleSet}
use janusfs.Engine.Stale.{Disk, Snapshot, first_dir, stale_ancestors, build_config_snapshot}
use janusfs.Engine.Ancestors.{has_changed, visited}
use janusfs.Engine.StaleWalk.{stale_ancestors-visited}
use janusfs.Backing.{valid_rel}
use janusfs.Backing.Confined.{valid_rel-confined}
use janusfs.Config.{
  Config, JsonFile, holding, absent, FileSettings, default_config, base_config, Environment,
}
use janusfs.Config.Precedence.{
  if_fine, is_usable, all_well_formed, overlaid, filed, base_config-overlaid,
}
use janusfs.Config.Registry.{
  WriteEnd, done, not_opened, stopped_within, failed_behind, load_mounts, record_mount,
  remove_mount,
}
use janusfs.Config.Registry.View.{RegistryOp, recorded, removed, MountMap}
use janusfs.Config.Registry.Refinement.{
  Implements, spec_step, run_calls, stored, run_file-Implements,
}
use janusfs.Config.Preconditions.{
  Paths, found, end_of_directory, abs_clean, validate, resolve_mountpoint,
}
use janusfs.Config.Preconditions.Disjoint.{
  finds_nothing, is_directory_there, is_vacant, nested, validate-disjoint,
}
use janusfs.Config.Preconditions.Derived.{resolve_mountpoint_unique}

abbrev project : RuleSet
project = record {
  root = codes "/p";
  global_dir = [];
  ignore_levels = [];
  mask_levels = [];
  policy_dirs = codes "/p" ∷ codes "/p/d" ∷ [];
  fold_case = false;
}

abbrev before : Disk
before dir = if eq dir (codes "/p") then some (7, 40) else none

-- A policy file has come in the subdirectory.
abbrev now : Disk
now dir = if eq dir (codes "/p/d") then some (9, 12) else before dir

abbrev snapshot : Snapshot
snapshot = build_config_snapshot before project

stale_ancestors-visited_example :
    stale_ancestors now project snapshot (codes "d/e/f") false
    ≡ some (
        any (has_changed now snapshot) (
          visited
            (clean_parts (codes "/p"))
            (clean_parts (first_dir project (codes "d/e/f") false))))
stale_ancestors-visited_example =
    stale_ancestors-visited now snapshot project (codes "d/e/f") false (codes "p") [] refl refl

stale_run : stale_ancestors now project snapshot (codes "d/e/f") false ≡ some true
unfolding stale_ancestors build_config_snapshot clean dir_of join
stale_run = refl

fresh_run : stale_ancestors before project snapshot (codes "d/e/f") false ≡ some false
unfolding stale_ancestors build_config_snapshot clean dir_of join
fresh_run = refl

valid_rel-confined_example :
    clean_parts (codes "/s/../t" ++ (slash ∷ codes "a/b"))
    ≡ clean_parts (codes "/s/../t")
      ++ (if eq (codes "a/b") dot then [] else split_slash (codes "a/b"))
unfolding valid_rel
valid_rel-confined_example = valid_rel-confined (codes "/s/../t") (codes "a/b") refl refl

abbrev env : Environment
env name =
    if eq name (codes "JANUSFS_UI_PORT")
    then some (codes "-8")
    else if eq name (codes "JANUSFS_MOUNT_ROOT")
    then some (codes "/m")
    else none

abbrev settings : JsonFile FileSettings
settings = holding (record { mount_root = codes "/n"; exec_net = codes "none" })

base_config-overlaid_example : if_fine (base_config (some (codes "/h")) settings env) ≡ (
    if is_usable (some (codes "/h")) settings && all_well_formed env
    then some
        (overlaid env (filed (some (codes "/h")) settings (default_config (some (codes "/h")))))
    else none)
base_config-overlaid_example = base_config-overlaid (some (codes "/h")) settings env

-- The fourth write stops within the JSON.
abbrev ops : List (WriteEnd × RegistryOp)
ops =
    (done, recorded (codes "/a") (codes "/m/a") (codes "one"))
    ∷ (failed_behind, recorded (codes "/b") (codes "/m/b") [])
    ∷ (not_opened, removed (codes "/m/b"))
    ∷ (stopped_within, removed (codes "/m/a"))
    ∷ (done, removed (codes "/m/a"))
    ∷ []

-- For these runs a string of ASCII bytes comes back as it is, and any other as the replacement
-- character.
abbrev coded : Bytes → Bytes
coded s = if all (λ b. ltb b 128) s then s else 239 ∷ 191 ∷ 189 ∷ []

abbrev no_map : MountMap
no_map p = none

nothing-Implements : Implements coded absent (some no_map)
unfolding load_mounts
nothing-Implements = record { records = []; loads = refl; unique = tt; kept = tt; same = λ p. refl }

run_file-Implements_example :
    Implements coded
      (run_calls (stored coded) ops absent).0
      (run_calls spec_step ops (some no_map)).0
    × ((run_calls (stored coded) ops absent).1 ≡ (run_calls spec_step ops (some no_map)).1)
run_file-Implements_example =
    run_file-Implements coded ops absent (some no_map)
      (
        record { src_kept = refl; mountpoint_kept = refl; label_kept = refl },
        (
          record { src_kept = refl; mountpoint_kept = refl; label_kept = refl },
          (tt, (tt, (tt, tt))),
        ),
      )
      nothing-Implements

registry_run : (run_calls (stored coded) ops absent).1 ≡ true ∷ false ∷ false ∷ false ∷ false ∷ []
unfolding record_mount remove_mount
registry_run = refl

-- Every path is absolute, is a directory, and is empty.
abbrev fs : Paths
fs = record {
  abs = λ p. some p;
  eval_symlinks = λ p. none;
  stat = λ p. found true;
  first_entry = λ p. end_of_directory;
  make_dir = λ p. true;
}

abbrev cfg : Bytes → Bytes → Config
cfg src mountpoint = record (default_config none) {
  src = src;
  mountpoint = mountpoint;
  mount_root = codes "/m";
}

validate-disjoint_example : finds_nothing (validate fs (cfg (codes "/a/b/") (codes "/a/bc"))) ≡ (
    not (is_empty (codes "/a/b/"))
    && (not (is_empty (codes "/a/bc"))
        && (is_directory_there (fs.stat (codes "/a/b"))
            && (is_directory_there (fs.stat (codes "/a/bc"))
                && (is_vacant (fs.first_entry (codes "/a/bc"))
                    && not (nested (clean_parts (codes "/a/b")) (clean_parts (codes "/a/bc"))))))))
unfolding abs_clean clean default_config
validate-disjoint_example =
    validate-disjoint fs (cfg (codes "/a/b/") (codes "/a/bc")) (codes "/a/b") (codes "/a/bc") refl
      refl (record { is_absolute = refl; is_clean = refl; not_root = refl })
      (record { is_absolute = refl; is_clean = refl; not_root = refl })

resolve_mountpoint_unique_example :
    ((resolve_mountpoint fs (cfg (codes "/a/b/") [])).1 ≡ none)
    × ((resolve_mountpoint fs (cfg (codes "/c/../a/b") [])).1 ≡ none)
    × (codes "/a/b" ≡ codes "/a/b")
unfolding abs_clean clean default_config resolve_mountpoint
resolve_mountpoint_unique_example =
    resolve_mountpoint_unique fs (cfg (codes "/a/b/") []) (cfg (codes "/c/../a/b") [])
      (codes "/a/b") (codes "/a/b")
      (record {
        no_mountpoint = refl;
        has_root = refl;
        has_source = refl;
        source = refl;
        is_absolute = refl;
        is_clean = refl;
        makes = refl;
      })
      (record {
        no_mountpoint = refl;
        has_root = refl;
        has_source = refl;
        source = refl;
        is_absolute = refl;
        is_clean = refl;
        makes = refl;
      })
      refl refl
