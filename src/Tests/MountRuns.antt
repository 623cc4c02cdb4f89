-- ===== src/Tests/MountRuns.antt =====
-- Concrete runs of a mount.
use janusfs.Base.{ℕ, suc, ◌≡◌, refl, arith, true, false, ◌&&◌, none, some, [], ◌∷◌, min}
use janusfs.Base.{take, drop, if◌then◌else◌}
use janusfs.Base.Text.{Bytes, codes}
use janusfs.Rules.{RuleSet, masked}
use janusfs.Tests.Samples.{word_regexp, word_pattern}
use janusfs.Rules.Resolve.{resolve}
use janusfs.Engine.{new_engine}
use janusfs.Engine.Trusted.{new_engine-Trusted}
use janusfs.Provider.Run.{new_ram_cache}
use janusfs.Provider.Serve.{copy_at}
use janusfs.Backing.{SysReply}
use janusfs.Redact.Stream.{eof}
use janusfs.Mount.{
  text, Outside, Mount, JanusNode, is_config_file, has_write_intent, eacces, reload, read_file,
  write_file,
}
use janusfs.Mount.Reply.{refused}
use janusfs.Mount.Ops.{open_node, readlink_node}
use janusfs.Mount.Requests.{of_node, is_allowed, is_visible}
use janusfs.Mount.Gate.{seen, outcome}
use janusfs.Mount.Opening.{rules_now, opened_as, open_node-outcome}
use janusfs.Mount.Links.{link_read, readlink_node-told}
use janusfs.Mount.Handles.{Pread, Files, pread_full, revocable_read, revocable_write}
use janusfs.Mount.Pread.{Delivers, pread_full-copy_at}
use janusfs.Mount.Reading.{rules_reloaded, revocable-reload}

abbrev no_rules : RuleSet
no_rules = record {
  root = codes "/p";
  global_dir = [];
  ignore_levels = [];
  mask_levels = [];
  policy_dirs = [];
  fold_case = false;
}

-- The world counts what the file system is asked for; each symlink leads two levels up.
abbrev out : Outside ℕ
out = record {
  kernel = λ c w. (w, SysReply.done);
  loopback = λ c w. (suc w, text (codes "../../etc"));
  disk = λ w dir. none;
  discover = λ w. some no_rules;
  root_path = codes "/p";
  has_reload = true;
}

abbrev mount : Mount ℕ
mount = record {
  world = 0;
  engine = new_engine no_rules;
  config_fp = [];
  cache = new_ram_cache 100 100 100;
  events = [];
}

abbrev node : JanusNode
node = record { rel_path = codes "d"; is_dir = true }

open_node-outcome_example : seen out (open_node out node 1 mount) ≡ (
    if is_config_file (codes "d") && has_write_intent 1
    then (0, refused eacces)
    else opened_as out (of_node out (rules_now out node mount) node) node 1 0)
open_node-outcome_example = open_node-outcome out node 1 mount (new_engine-Trusted no_rules)

readlink_node-told_example :
    seen out (readlink_node out node mount)
    ≡ link_read out (is_visible (of_node out no_rules node)) node 0
unfolding new_engine
readlink_node-told_example =
    readlink_node-told out node (codes "p") [] mount refl refl (new_engine-Trusted no_rules)

revocable-reload_example :
    (seen out (revocable_read out node 4 0 (reload out mount))
      ≡ outcome out
          (is_allowed (of_node out (rules_reloaded out mount) node))
          (read_file node.rel_path 4 0)
          0)
    × (seen out (revocable_write out node 4 0 (reload out mount))
        ≡ outcome out
            (is_allowed (of_node out (rules_reloaded out mount) node))
            (write_file node.rel_path 4 0)
            0)
revocable-reload_example = revocable-reload out node 4 0 mount (new_engine-Trusted no_rules)

abbrev content : Bytes
content = codes "secret"

-- A descriptor that yields one byte at a time.
abbrev slow : Pread ℕ
slow fd n off w = (suc w, take (min n 1) (drop off content), none)

slow-Delivers : Delivers slow 3 content
slow-Delivers = record {
  size = λ n off w. min n 1;
  bytes = λ n off w. refl;
  fine = λ n off w. refl;
  fits = λ n off w. omega arith;
  some_left = λ n off w left inside. omega (arith, left);
}

pread_full-copy_at_example :
    (w' : ℕ) × (pread_full slow 3 4 2 0 ≡ some (w', copy_at content 4 2, none))
pread_full-copy_at_example = pread_full-copy_at 4 2 0 slow-Delivers

pread_full_run : pread_full slow 3 9 2 0 ≡ some (5, codes "cret", none)
unfolding pread_full
pread_full_run = refl

abbrev files : Files ℕ
files = record { pread = slow; close = λ fd w. w; whole = λ fd w. (w, eof content) }

-- Every file named `d` is masked, with a pattern for one word.
abbrev masking : RuleSet
masking = record no_rules {
  mask_levels =
      record {
        dir = codes "/p";
        file = codes "/p/.janusfs.yml";
        entries =
            record {
              line_no = 1;
              glob = codes "d";
              glob_pattern = some (record {
                line_no = 1;
                raw = codes "d";
                negate = false;
                dir_only = false;
                re = word_regexp (codes "d");
              });
              pattern_refs = codes "key" ∷ [];
              patterns = word_pattern (codes "key") (codes "KEY") ∷ [];
              compile_err = none;
            }
            ∷ [];
        is_global = false;
        rel_dir = [];
      }
      ∷ [];
}

abbrev masked_node : JanusNode
masked_node = record { rel_path = codes "d"; is_dir = false }

abbrev masked_mount : Mount ℕ
masked_mount = record mount { engine = new_engine masking }

masked_run : of_node out masking masked_node ≡ masked
unfolding resolve
masked_run = refl
