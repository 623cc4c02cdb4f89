-- ===== src/Engine/Memo.antt =====
-- The memo of internal/engine/engine.go against internal/rules: what it returns is what the rule
-- set gives.
use janusfs.Base.{ℕ, suc, ◌+◌, ◌≤◌, ◌<◌, ◌^◌, ◌%◌, ◌≡◌, refl, ◌∙◌, Bool, Option, none, some}
use janusfs.Base.{List, ◌∷◌, length, arith, ap}
use janusfs.Base.Text.{Bytes}
use janusfs.Rules.{RuleSet}
use janusfs.Engine.{
  Engine, Answer, answer_alone, DecisionKey, answer_of, find_cell, drop_cache, reset_entries,
  store_rules, bump_generation, resolve_alone, reload_alone,
}
use janusfs.Engine.Step.{Pc, idle, World, Reach, after_load}
use janusfs.Engine.Invariant.{
  StoredSince, newest, earlier, begun_at, Local, Inv, find_cell-Holds, Inv-keep,
}
use janusfs.Engine.Fresh.{bump-Inv, store_rs-Inv, Reach-Inv}

abbrev pub key_now : Engine → Bytes → Bool → DecisionKey
key_now e p d = record { rel_path = p; is_dir = d; gen = e.gen }

StoredSince-le : {n : ℕ} {r : RuleSet} {ss : List RuleSet} → StoredSince n r ss → n ≤ length ss
StoredSince-le (newest h) = h
StoredSince-le (earlier since) = omega (arith, StoredSince-le since)

StoredSince-last :
    {n : ℕ} {r s : RuleSet} {ss rest : List RuleSet}
    → StoredSince n r ss
    → n ≡ length ss
    → ss ≡ s ∷ rest
    → r ≡ s
StoredSince-last (newest h) e same = cc
StoredSince-last (earlier since) e same = absurd (omega (arith, e, StoredSince-le since))

answer_alone-Holds :
    (e : Engine) (ss rest : List RuleSet) (bs : List ℕ) (k : DecisionKey) (o : Option Answer)
    → ss ≡ e.rs ∷ rest
    → begun_at k.gen bs ≡ length ss
    → Local ss bs (after_load k e.cache o)
    → (answer_alone e k o).1 ≡ answer_of e.rs k
unfolding answer_alone after_load
answer_alone-Holds e ss rest bs k none now all h = refl
answer_alone-Holds e ss rest bs k (some a) now all (known, (r, since, same)) =
    same ∙ ap (λ s. answer_of s k) (StoredSince-last since all now)

resolve_alone-Inv :
    {w : World} {f : ℕ → Pc}
    → Inv w f
    → begun_at w.engine.gen w.begun ≡ length w.stores
    → (p : Bytes) (d : Bool)
    → (resolve_alone w.engine p d).1 ≡ answer_of w.engine.rs (key_now w.engine p d)
unfolding resolve_alone
resolve_alone-Inv {w} inv all p d =
    let k = key_now w.engine p d in
    answer_alone-Holds w.engine w.stores inv.current.0 w.begun k
      (find_cell w.engine.cells w.engine.cache k) inv.current.1 all
      (find_cell-Holds w.stores w.begun w.engine.cells w.engine.cache k inv.cells
        (omega (arith, inv.generation)))

begun_at-length : (g n : ℕ) (ns : List ℕ) → g ≡ suc (length ns) → begun_at g (n ∷ ns) ≡ n
unfolding begun_at
begun_at-length g n ns h = ground arith

-- In every state that interleaved calls lead to, while fewer than 2 ^ 64 generations have begun and
-- if no rule set has been stored since the current generation began: a Resolve that then runs alone
-- returns exactly what the current rule set gives, whether the answer is cached or not.
pub resolve_alone-rules :
    {rs : RuleSet} {w : World} {f : ℕ → Pc}
    → Reach rs w f
    → length w.begun < 2 ^ 64
    → begun_at w.engine.gen w.begun ≡ length w.stores
    → (p : Bytes) (d : Bool)
    → (resolve_alone w.engine p d).1 ≡ answer_of w.engine.rs (key_now w.engine p d)
resolve_alone-rules r few all p d = resolve_alone-Inv (Reach-Inv r few) all p d

-- In every state that interleaved calls lead to, while fewer than 2 ^ 64 generations have begun
-- with the new one: after a Reload, a Resolve returns what the new rule set gives, under the next
-- generation, whatever the cache held and other goroutines were doing before.
pub resolve_alone-reload_alone :
    {rs : RuleSet} {w : World} {f : ℕ → Pc}
    → Reach rs w f
    → suc (length w.begun) < 2 ^ 64
    → (new : RuleSet) (p : Bytes) (d : Bool)
    → (resolve_alone (reload_alone new w.engine) p d).1
      ≡ answer_of new (record { rel_path = p; is_dir = d; gen = w.engine.gen + 1 })
unfolding reload_alone store_rules bump_generation drop_cache reset_entries begun_at
resolve_alone-reload_alone {w} r few new p d =
    let inv = Reach-Inv r (omega (arith, few)) in
    let swapped = bump-Inv 0 few (store_rs-Inv 0 new inv) in
    let done = Inv-keep (reload_alone new w.engine) 0 idle refl refl refl swapped tt in
    let next : (w.engine.gen + 1) % 2 ^ 64 ≡ w.engine.gen + 1 =
      omega (arith, few, inv.generation) in
    let began = begun_at-length _ (length (new ∷ w.stores)) w.begun swapped.generation in
    resolve_alone-Inv done began p d
    ∙ ap (λ g. answer_of new (record { rel_path = p; is_dir = d; gen = g })) next
