-- ===== src/Engine.antt =====
-- internal/engine/engine.go: the rule set of the current generation, and the memo of its decisions.
-- What each goroutine does is a sequence of atomic operations; `Engine.Step` puts them together.
pub mod Step
pub mod Invariant
pub mod Fresh
pub mod Memo
pub mod Stale
pub mod Ancestors
pub mod StaleWalk
pub mod Trusted
use janusfs.Base.{ℕ, suc, ◌+◌, ◌%◌, ◌^◌, Bool, true, false, ◌&&◌, Option, none, some}
use janusfs.Base.{List, [], ◌∷◌, ltb, ◌==◌, if◌then◌else◌}
use janusfs.Base.Text.{Bytes, eq}
use janusfs.Patterns.{Pattern}
use janusfs.Rules.{Decision, RuleSet}
use janusfs.Rules.Trace.{TraceEntry, RuleRef}
use janusfs.Rules.Resolve.{resolve}

abbrev pub decision_cache_max : ℕ
decision_cache_max = 100000

-- `Resolution` of this package: that of rules, with the generation.
pub record Answer : Type 0 where
  pub decision : Decision
  pub rule_ref : RuleRef
  pub pattern_names : List Bytes
  pub patterns : List Pattern
  pub poisoned : Bool
  pub trace : List TraceEntry
  pub generation : ℕ

pub record DecisionKey : Type 0 where
  pub rel_path : Bytes
  pub is_dir : Bool
  pub gen : ℕ

abbrev same_flag : Bool → Bool → Bool
same_flag true b = b
same_flag false true = false
same_flag false false = true

-- `==` on keys.
unfoldable pub key_eq : DecisionKey → DecisionKey → Bool
key_eq j k = eq j.rel_path k.rel_path && same_flag j.is_dir k.is_dir && j.gen == k.gen

-- A store into one of the `sync.Map`s that have been made.
pub record Cell : Type 0 where
  pub cache : ℕ
  pub key : DecisionKey
  pub answer : Answer

-- `cache` is the pointer to the current map; the maps made so far are numbered, and `cells` holds
-- what was stored in each, the latest first. `made` is the number of the next map. The field
-- `configFP`, which Resolve does not read, stands in `Engine.Stale` and in `Mount`.
pub record Engine : Type 0 where
  pub rs : RuleSet
  pub gen : ℕ
  pub cache : ℕ
  pub cache_entries : ℕ
  pub cells : List Cell
  pub made : ℕ

-- `New`, behind a successful Discover.
unfoldable pub new_engine : RuleSet → Engine
new_engine rs = record { rs = rs; gen = 1; cache = 0; cache_entries = 0; cells = []; made = 1 }

-- `rs.Resolve(relPath, isDir)` and the copy of its fields.
unfoldable pub answer_of : RuleSet → DecisionKey → Answer
answer_of rs k =
    let res = resolve rs k.rel_path k.is_dir in
    record {
      decision = res.decision;
      rule_ref = res.rule_ref;
      pattern_names = res.pattern_names;
      patterns = res.patterns;
      poisoned = res.poisoned;
      trace = res.trace;
      generation = k.gen;
    }

-- `cache.Load(k)`.
unfoldable pub find_cell : List Cell → ℕ → DecisionKey → Option Answer
unfolding key_eq
find_cell [] m k = none
find_cell (c ∷ cs) m k =
    let rest = find_cell cs m k in if c.cache == m && key_eq c.key k then some c.answer else rest

-- `cache.Store(k, out)` into the map that the caller has loaded.
unfoldable pub store_answer : ℕ → DecisionKey → Answer → Engine → Engine
store_answer m k a e = record e { cells = record { cache = m; key = k; answer = a } ∷ e.cells }

-- `e.cacheEntries.Add(1)`, with its result.
unfoldable pub count_entry : Engine → Engine × ℕ
count_entry e = (record e { cache_entries = suc e.cache_entries }, suc e.cache_entries)

-- `e.cache.Store(&sync.Map{})`.
unfoldable pub drop_cache : Engine → Engine
drop_cache e = record e { cache = e.made; made = suc e.made }

-- `e.cache.CompareAndSwap(cache, &sync.Map{})`, with its result.
unfoldable pub swap_cache : ℕ → Engine → Engine × Bool
unfolding drop_cache
swap_cache m e =
    if e.cache == m then (drop_cache e, true) else (record e { made = suc e.made }, false)

-- `e.cacheEntries.Store(0)`.
unfoldable pub reset_entries : Engine → Engine
reset_entries e = record e { cache_entries = 0 }

-- `e.rs.Store(rs)`.
unfoldable pub store_rules : RuleSet → Engine → Engine
store_rules rs e = record e { rs = rs }

-- `e.gen.Add(1)` on 64 bits.
unfoldable pub bump_generation : Engine → Engine
bump_generation e = record e { gen = (e.gen + 1) % 2 ^ 64 }

-- The end of `Resolve`, behind `Add`.
unfoldable pub keep_answer : ℕ → DecisionKey → Answer → Engine × ℕ → Engine
unfolding swap_cache reset_entries store_answer
keep_answer m k a (e, n) =
    if ltb decision_cache_max n
    then (if (swap_cache m e).1 then reset_entries (swap_cache m e).0 else (swap_cache m e).0)
    else store_answer m k a e

-- `Resolve` behind the load from the map, where no other goroutine runs meanwhile.
unfoldable pub answer_alone : Engine → DecisionKey → Option Answer → Engine × Answer
unfolding answer_of count_entry keep_answer
answer_alone e k none = (keep_answer e.cache k (answer_of e.rs k) (count_entry e), answer_of e.rs k)
answer_alone e k (some a) = (e, a)

unfoldable pub resolve_alone : Engine → Bytes → Bool → Engine × Answer
unfolding find_cell answer_alone
resolve_alone e rel_path is_dir =
    let k : DecisionKey = record { rel_path = rel_path; is_dir = is_dir; gen = e.gen } in
    answer_alone e k (find_cell e.cells e.cache k)

-- `Reload` where no other goroutine runs meanwhile, behind a successful Discover.
unfoldable pub reload_alone : RuleSet → Engine → Engine
unfolding store_rules bump_generation drop_cache reset_entries
reload_alone rs e = reset_entries (drop_cache (bump_generation (store_rules rs e)))
