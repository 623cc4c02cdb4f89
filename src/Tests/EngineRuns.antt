-- ===== src/Tests/EngineRuns.antt =====
-- Concrete runs of the engine's memo.
use janusfs.Base.{◌≡◌, refl, arith, false, [], ◌∷◌}
use janusfs.Base.Text.{codes}
use janusfs.Rules.{RuleSet}
use janusfs.Engine.{
  DecisionKey, answer_of, find_cell, count_entry, store_answer, resolve_alone, reload_alone,
  new_engine,
}
use janusfs.Engine.Step.{
  load_gen, load_cache, look_up, compute, count, store, update, begin, later, after_load,
  after_count,
}
use janusfs.Engine.Invariant.{Fresh, begun_at}
use janusfs.Engine.Fresh.{resolve-Fresh}
use janusfs.Engine.Memo.{resolve_alone-rules, resolve_alone-reload_alone}

abbrev no_rules : RuleSet
no_rules = record {
  root = codes "/p";
  global_dir = [];
  ignore_levels = [];
  mask_levels = [];
  policy_dirs = [];
  fold_case = false;
}

abbrev key : DecisionKey
key = record { rel_path = codes "a"; is_dir = false; gen = 1 }

resolve-Fresh_example : Fresh (no_rules ∷ []) (1 ∷ []) key (answer_of no_rules key)
unfolding update after_load find_cell after_count count_entry store_answer new_engine
resolve-Fresh_example =
    resolve-Fresh
      (later
        (later
          (later (later (later (later begin 0 (load_gen (codes "a") false)) 0 load_cache) 0 look_up)
            0 compute)
          0 count)
        0 store)
      (omega arith) 0 key (answer_of no_rules key) refl

resolve_alone-rules_example :
    (resolve_alone (new_engine no_rules) (codes "a") false).1 ≡ answer_of no_rules key
unfolding new_engine begun_at
resolve_alone-rules_example =
    resolve_alone-rules {rs = no_rules} begin (omega arith) refl (codes "a") false

resolve_alone-reload_alone_example :
    (resolve_alone (reload_alone no_rules (new_engine no_rules)) (codes "a") false).1
    ≡ answer_of no_rules (record key { gen = 2 })
unfolding new_engine
resolve_alone-reload_alone_example =
    resolve_alone-reload_alone {rs = no_rules} begin (omega arith) no_rules (codes "a") false
