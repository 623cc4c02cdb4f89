-- ===== src/Engine/Step.antt =====
-- Goroutines that call `Resolve` and `Reload` of internal/engine/engine.go at once: the atomic
-- operations of each, and the interleavings of any number of them.
use janusfs.Base.{ℕ, Bool, Option, none, some}
use janusfs.Base.{List, [], ◌∷◌, ltb, ◌==◌, if◌then◌else◌, length}
use janusfs.Base.Text.{Bytes}
use janusfs.Rules.{RuleSet}
use janusfs.Engine.{
  Engine, Answer, DecisionKey, decision_cache_max, new_engine, answer_of, find_cell, store_answer,
  count_entry, drop_cache, swap_cache, reset_entries, store_rules, bump_generation,
}

-- Where a goroutine stands, with its local variables.
pub data Pc : Type 0 where
  idle : Pc
  -- `Resolve`: behind the load of the generation, of the map, a miss, the load of the rule set,
  -- the count, the swap, and at the return.
  keyed : DecisionKey → Pc
  looking missed : DecisionKey → ℕ → Pc
  computed over within : DecisionKey → ℕ → Answer → Pc
  swapped returned : DecisionKey → Answer → Pc
  -- `Reload`: behind Discover, and behind each of the first three stores.
  discovered : RuleSet → Pc
  stored bumped dropped : Pc

-- The engine, and what has been done to it: the rule sets stored so far, the latest first, and for
-- each generation, the latest first, how many had been stored when it began.
pub record World : Type 0 where
  pub engine : Engine
  pub stores : List RuleSet
  pub begun : List ℕ

unfoldable pub after_load : DecisionKey → ℕ → Option Answer → Pc
after_load k m none = missed k m
after_load k m (some a) = returned k a

unfoldable pub after_count : DecisionKey → ℕ → Answer → ℕ → Pc
after_count k m a n = if ltb decision_cache_max n then over k m a else within k m a

unfoldable pub after_swap : DecisionKey → Answer → Bool → Pc
after_swap k a done = if done then swapped k a else returned k a

-- One operation of a goroutine.
pub data Move : World → Pc → World → Pc → Type 0 where
  load_gen :
      {w : World} (p : Bytes) (d : Bool)
      → Move w idle w (keyed (record { rel_path = p; is_dir = d; gen = w.engine.gen }))
  load_cache : {w : World} {k : DecisionKey} → Move w (keyed k) w (looking k w.engine.cache)
  look_up :
      {w : World} {k : DecisionKey} {m : ℕ}
      → Move w (looking k m) w (after_load k m (find_cell w.engine.cells m k))
  compute :
      {w : World} {k : DecisionKey} {m : ℕ}
      → Move w (missed k m) w (computed k m (answer_of w.engine.rs k))
  count :
      {w : World} {k : DecisionKey} {m : ℕ} {a : Answer}
      → Move w
          (computed k m a)
          (record w { engine = (count_entry w.engine).0 })
          (after_count k m a (count_entry w.engine).1)
  swap :
      {w : World} {k : DecisionKey} {m : ℕ} {a : Answer}
      → Move w
          (over k m a)
          (record w { engine = (swap_cache m w.engine).0 })
          (after_swap k a (swap_cache m w.engine).1)
  reset :
      {w : World} {k : DecisionKey} {a : Answer}
      → Move w (swapped k a) (record w { engine = reset_entries w.engine }) (returned k a)
  store :
      {w : World} {k : DecisionKey} {m : ℕ} {a : Answer}
      → Move w (within k m a) (record w { engine = store_answer m k a w.engine }) (returned k a)
  leave : {w : World} {k : DecisionKey} {a : Answer} → Move w (returned k a) w idle
  begin_reload : {w : World} (rs : RuleSet) → Move w idle w (discovered rs)
  store_rs :
      {w : World} {rs : RuleSet}
      → Move w
          (discovered rs)
          (record w { engine = store_rules rs w.engine; stores = rs ∷ w.stores })
          stored
  bump :
      {w : World}
      → Move w stored
          (record w { engine = bump_generation w.engine; begun = length w.stores ∷ w.begun })
          bumped
  replace_cache : {w : World} → Move w bumped (record w { engine = drop_cache w.engine }) dropped
  reset_count : {w : World} → Move w dropped (record w { engine = reset_entries w.engine }) idle

unfoldable pub update : (ℕ → Pc) → ℕ → Pc → ℕ → Pc
update f i a j = if i == j then a else f j

abbrev pub first_world : RuleSet → World
first_world rs = record { engine = new_engine rs; stores = rs ∷ []; begun = 1 ∷ [] }

-- What an interleaving of the goroutines' operations leads to from `New`.
pub data Reach (rs : RuleSet) : World → (ℕ → Pc) → Type 0 where
  begin : Reach rs (first_world rs) (λ i. idle)
  later :
      {w w' : World} {f : ℕ → Pc} {q : Pc}
      → Reach rs w f
      → (i : ℕ) → Move w (f i) w' q
      → Reach rs w' (update f i q)
