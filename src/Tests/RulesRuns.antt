-- ===== src/Tests/RulesRuns.antt =====
-- Policies over a small tree.
use janusfs.Base.{◌≤◌, ◌≡◌, refl, Bool, true, false, ◌||◌, none, some, List, [], ◌∷◌, ◌++◌}
use janusfs.Base.{if◌then◌else◌}
use janusfs.Base.Text.{Bytes, codes, eq}
use janusfs.Base.FilePath.{clean, join, rel}
use janusfs.Patterns.{RegexpPackage, Pattern}
use janusfs.Patterns.Builtins.{aws_key_name, lookup_builtin}
use janusfs.Rules.{IgnorePattern, IgnoreLevel, MaskEntry, MaskLevel, RuleSet, hidden, allowed}
use janusfs.Rules.Glob.{translate_glob, compile_pattern_fold}
use janusfs.Rules.MaskLine.{mask_glob}
use janusfs.Rules.Compile.{PolicyRead, parsed, absent, load_policy_level, mask_entry, discover}
use janusfs.Rules.Compile.Poison.{is_poisoned, poisons, load_policy_level-poisoned}
use janusfs.Rules.Compile.MaskGlob.{mask_entry-bad_glob}
use janusfs.Rules.Trace.{no_ref}
use janusfs.Rules.Ignore.Floor.{with_levels}
use janusfs.Rules.Mask.{MaskState, entry_step, names_of}
use janusfs.Rules.Mask.Names.{count_named}
use janusfs.Rules.Mask.Entries.{is_none}
use janusfs.Rules.Resolve.{resolve, normalize}
use janusfs.Rules.Resolve.Precedence.{rank, resolve-below_hidden, resolve-floor}
use janusfs.Rules.Resolve.Names.{resolve-names}
use mathlib.Core.Option
use janusfs.Tests.Samples.{words, word_regexp, word_pattern}

-- The package regexp for these runs: an expression that `translateGlob` makes of a name without
-- special bytes matches that name alone.
abbrev names : RegexpPackage
names = record {
  compile = λ e. some (record {
    source = e;
    num_subexp = 0;
    match_string =
        λ s. eq (codes "^" ++ (s ++ codes "$")) e || eq (codes "^(?:.*/)?" ++ (s ++ codes "$")) e;
    find_all = λ _. [];
  });
  must_compile = word_regexp;
}

abbrev policy : List Bytes → List Bytes → PolicyRead
policy hide allow = parsed (record { version = 1; hide = hide; allow = allow; mask = [] })

abbrev disk : Bytes → PolicyRead
disk d =
    if eq d (codes "/p")
    then policy (codes "keys/" ∷ []) []
    else if eq d (codes "/p/keys")
    then policy [] (codes "pub" ∷ [])
    else absent

project : RuleSet
unfolding discover join rel
project = discover names false disk (codes "/p") none (codes "/p/keys" ∷ codes "/p" ∷ [])

keys_hidden : (resolve project (codes "keys") true).decision ≡ hidden
unfolding project resolve
keys_hidden = refl

-- A deeper allow does not show what lies below a hidden directory.
pub_hidden : (resolve project (codes "keys/pub") false).decision ≡ hidden
unfolding project resolve
pub_hidden = refl

free_allowed : (resolve project (codes "a/../src/x") false).decision ≡ allowed
unfolding project resolve
free_allowed = refl

glob_translated :
    translate_glob (codes "config/**/*.y?ml") ≡ some (codes "config(?:/.*)?[^/]*\\.y[^/]ml")
unfolding translate_glob
glob_translated = refl

clean_run : clean (codes "a/./b//../c/..") ≡ codes "a"
unfolding clean
clean_run = refl

rel_run : rel (codes "/h/.janusfs/config") (codes "/h/p/.env") ≡ some (codes "../../p/.env")
unfolding rel
rel_run = refl

-- The reserved name has two patterns, and both go by that name.
aws_key_variants :
    Option.map names_of (lookup_builtin words aws_key_name)
    ≡ some (aws_key_name ∷ aws_key_name ∷ [])
unfolding lookup_builtin
aws_key_variants = refl

abbrev word_rule : Bool → Bytes → IgnorePattern
word_rule negate w = record {
  negate = negate;
  dir_only = false;
  re = word_regexp w;
  line_no = 1;
  raw = w;
}

abbrev level : Bytes → Bool → Bool → List IgnorePattern → IgnoreLevel
level dir is_global poisoned rules = record {
  dir = dir;
  file = dir;
  patterns = rules;
  raw_lines = [];
  is_global = is_global;
  rel_dir = [];
  poisoned = poisoned;
  line_errs = [];
}

abbrev mask_rule : List Pattern → MaskEntry
mask_rule ps = record {
  line_no = 1;
  glob = codes "env";
  glob_pattern = some (word_rule false (codes "env"));
  pattern_refs = [];
  patterns = ps;
  compile_err = none;
}

abbrev masks : MaskLevel
masks = record {
  dir = codes "/p";
  file = codes "/p";
  entries =
      mask_rule
        (word_pattern aws_key_name (codes "AKIA") ∷ word_pattern aws_key_name (codes "secret") ∷ [])
      ∷ [];
  is_global = false;
  rel_dir = [];
}

abbrev tree : RuleSet
tree = record {
  root = codes "/p";
  global_dir = codes "/h";
  ignore_levels = level (codes "/h") true false (word_rule false (codes "key") ∷ []) ∷ [];
  mask_levels = masks ∷ [];
  policy_dirs = [];
  fold_case = false;
}

abbrev globals : List IgnoreLevel
globals = level (codes "/h") true false (word_rule false (codes "key") ∷ []) ∷ []

abbrev in_tree : List IgnoreLevel
in_tree = level (codes "/p") false false (word_rule true (codes "key") ∷ []) ∷ []

-- Of the two patterns that share a name the second is dropped.
one_variant :
    (resolve tree (codes "a.env") false).patterns ≡ word_pattern aws_key_name (codes "AKIA") ∷ []
unfolding resolve join rel
one_variant = refl

resolve-names_example :
    (count_named aws_key_name (resolve tree (codes "a.env") false).patterns ≤ 1)
    × ((resolve tree (codes "a.env") false).pattern_names
        ≡ names_of (resolve tree (codes "a.env") false).patterns)
resolve-names_example = resolve-names tree (codes "a.env") false aws_key_name

resolve-below_hidden_example : (resolve project (codes "keys/pub") false).decision ≡ hidden
unfolding normalize
resolve-below_hidden_example =
    resolve-below_hidden project (codes "keys") (codes "pub") false refl refl keys_hidden

resolve-floor_example :
    rank (resolve (with_levels tree globals (masks ∷ [])) (codes "key") false).decision
    ≤ rank
        (resolve (with_levels tree (globals ++ in_tree) (masks ∷ [])) (codes "key") false).decision
resolve-floor_example =
    resolve-floor tree globals in_tree (masks ∷ []) [] (codes "key") false refl refl

abbrev broken : PolicyRead
broken = policy (codes "a[b" ∷ []) []

load_policy_level-poisoned_example :
    is_poisoned (load_policy_level words false (codes "/p") broken).0 ≡ poisons words false broken
load_policy_level-poisoned_example = load_policy_level-poisoned words false (codes "/p") broken

abbrev idle : MaskState
idle = record { pats = []; mask_ref = no_ref; poisoned_ref = none; trace = [] }

mask_entry-bad_glob_example :
    (is_none (mask_entry words false 1 (codes "a[b : jwt")).compile_err ≡ false)
    × (entry_step masks (codes "a[b") idle (mask_entry words false 1 (codes "a[b : jwt")) ≡ idle)
unfolding mask_glob compile_pattern_fold
mask_entry-bad_glob_example =
    mask_entry-bad_glob words false masks (codes "a[b") idle 1 (codes "a[b : jwt") refl
