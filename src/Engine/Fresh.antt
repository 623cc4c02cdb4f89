-- ===== src/Engine/Fresh.antt =====
-- Which rule set an answer of the engine in internal/engine/engine.go was computed from.
use janusfs.Base.{ℕ, suc, ◌≤◌, ◌<◌, ◌^◌, ◌≡◌, refl, Bool-cases}
use janusfs.Base.{[], ◌∷◌, ◌==◌, length, arith, inl, inr}
use mathlib.Core.Path.{subst}
use janusfs.Rules.{RuleSet}
use janusfs.Engine.{
  Engine, Answer, DecisionKey, new_engine, store_answer, count_entry, drop_cache, swap_cache,
  reset_entries, store_rules, bump_generation,
}
use janusfs.Engine.Step.{
  Pc, idle, returned, stored, bumped, World, Move, load_gen, load_cache, look_up, compute, count,
  swap, reset, store, leave, begin_reload, store_rs, bump, replace_cache, reset_count, update,
  first_world, Reach, begin, later,
}
use janusfs.Engine.Invariant.{
  Fresh, Holds, Local, CellOk, Inv, find_cell-Holds, Local-more, Holds-store, Holds-bump, All-imp,
  Holds-now, Local-update, after_count-Holds, after_swap-Holds, Inv-keep,
}

swap_cache-keeps :
    (m : ℕ) (e : Engine)
    → ((swap_cache m e).0.rs ≡ e.rs)
      × ((swap_cache m e).0.gen ≡ e.gen)
      × ((swap_cache m e).0.cells ≡ e.cells)
unfolding swap_cache drop_cache
swap_cache-keeps m e = elim (Bool-cases (e.cache == m)) [
  | inl s ↦ rw s (refl, refl, refl)
  | inr s ↦ rw s (refl, refl, refl)
]

pub bump-Inv :
    {w : World} {f : ℕ → Pc} (i : ℕ)
    → suc (length w.begun) < 2 ^ 64
    → Inv w f
    → Inv
        (record w { engine = bump_generation w.engine; begun = length w.stores ∷ w.begun })
        (update f i bumped)
unfolding bump_generation
bump-Inv {w} {f} i few inv = record {
  generation = omega (arith, few, inv.generation);
  current = inv.current;
  bounded = (omega arith, inv.bounded);
  cells =
      All-imp (CellOk w.stores w.begun) (CellOk w.stores (length w.stores ∷ w.begun))
        (λ c. Holds-bump (length w.stores) w.stores w.begun c.key c.answer) w.engine.cells
        inv.cells;
  locals =
      Local-update w.stores (length w.stores ∷ w.begun) f i bumped
        (λ j.
          Local-more w.stores w.stores w.begun (length w.stores ∷ w.begun)
            (λ k known. omega (arith, known)) (Holds-bump (length w.stores) w.stores w.begun) (f j)
            (inv.locals j))
        tt;
}

pub store_rs-Inv :
    {w : World} {f : ℕ → Pc} (i : ℕ) (rs : RuleSet)
    → Inv w f
    → Inv
        (record w { engine = store_rules rs w.engine; stores = rs ∷ w.stores })
        (update f i stored)
unfolding store_rules
store_rs-Inv {w} {f} i rs inv = record {
  generation = inv.generation;
  current = (w.stores, refl);
  bounded =
      All-imp (λ b. b ≤ length w.stores) (λ b. b ≤ suc (length w.stores)) (λ b h. omega (arith, h))
        w.begun inv.bounded;
  cells =
      All-imp (CellOk w.stores w.begun) (CellOk (rs ∷ w.stores) w.begun)
        (λ c. Holds-store rs w.stores w.begun c.key c.answer) w.engine.cells inv.cells;
  locals =
      Local-update (rs ∷ w.stores) w.begun f i stored
        (λ j.
          Local-more w.stores (rs ∷ w.stores) w.begun w.begun (λ k known. known)
            (Holds-store rs w.stores w.begun) (f j) (inv.locals j))
        tt;
}

store-Inv :
    {w : World} {f : ℕ → Pc} (i m : ℕ) (k : DecisionKey) (a : Answer)
    → Holds w.stores w.begun k a
    → Inv w f
    → Inv (record w { engine = store_answer m k a w.engine }) (update f i (returned k a))
unfolding store_answer
store-Inv {w} {f} i m k a h inv = record {
  generation = inv.generation;
  current = inv.current;
  bounded = inv.bounded;
  cells = (h, inv.cells);
  locals = Local-update w.stores w.begun f i (returned k a) inv.locals h;
}

-- Every operation keeps the invariant, while the generation stays below `2 ^ 64`.
Move-Inv :
    {w w' : World} {p q : Pc} (f : ℕ → Pc) (i : ℕ)
    → Move w p w' q
    → Local w.stores w.begun p
    → length w'.begun < 2 ^ 64
    → Inv w f
    → Inv w' (update f i q)
unfolding count_entry reset_entries drop_cache
Move-Inv {w} f i (load_gen p d) h few inv =
    Inv-keep w.engine i _ refl refl refl inv (omega (arith, inv.generation))
Move-Inv {w} f i load_cache h few inv = Inv-keep w.engine i _ refl refl refl inv h
Move-Inv {w} f i (look_up {k} {m}) h few inv =
    Inv-keep w.engine i _ refl refl refl inv
      (find_cell-Holds w.stores w.begun w.engine.cells m k inv.cells h)
Move-Inv {w} f i (compute {k}) h few inv =
    Inv-keep w.engine i _ refl refl refl inv
      (Holds-now w.engine.rs w.stores w.begun k inv.current.1 inv.bounded h)
Move-Inv {w} f i (count {k} {m} {a}) h few inv =
    Inv-keep (count_entry w.engine).0 i _ refl refl refl inv
      (after_count-Holds w.stores w.begun k m a (count_entry w.engine).1 h)
Move-Inv {w} f i (swap {k} {m} {a}) h few inv =
    let (rs, gen, cells) = swap_cache-keeps m w.engine in
    Inv-keep (swap_cache m w.engine).0 i _ rs gen cells inv
      (after_swap-Holds w.stores w.begun k a (swap_cache m w.engine).1 h)
Move-Inv {w} f i reset h few inv = Inv-keep (reset_entries w.engine) i _ refl refl refl inv h
Move-Inv {w} f i (store {k} {m} {a}) h few inv = store-Inv i m k a h inv
Move-Inv {w} f i leave h few inv = Inv-keep w.engine i _ refl refl refl inv tt
Move-Inv {w} f i (begin_reload rs) h few inv = Inv-keep w.engine i _ refl refl refl inv tt
Move-Inv {w} f i (store_rs {rs}) h few inv = store_rs-Inv i rs inv
Move-Inv {w} f i bump h few inv = bump-Inv i few inv
Move-Inv {w} f i replace_cache h few inv = Inv-keep (drop_cache w.engine) i _ refl refl refl inv tt
Move-Inv {w} f i reset_count h few inv = Inv-keep (reset_entries w.engine) i _ refl refl refl inv tt

Move-begun : {w w' : World} {p q : Pc} → Move w p w' q → length w.begun ≤ length w'.begun
Move-begun (load_gen p d) = omega arith
Move-begun load_cache = omega arith
Move-begun look_up = omega arith
Move-begun compute = omega arith
Move-begun count = omega arith
Move-begun swap = omega arith
Move-begun reset = omega arith
Move-begun store = omega arith
Move-begun leave = omega arith
Move-begun (begin_reload rs) = omega arith
Move-begun store_rs = omega arith
Move-begun bump = omega arith
Move-begun replace_cache = omega arith
Move-begun reset_count = omega arith

begin-Inv : (rs : RuleSet) → Inv (first_world rs) (λ i. idle)
unfolding new_engine
begin-Inv rs = record {
  generation = refl;
  current = ([], refl);
  bounded = (omega arith, tt);
  cells = tt;
  locals = λ i. tt;
}

pub Reach-Inv :
    {rs : RuleSet} {w : World} {f : ℕ → Pc} → Reach rs w f → length w.begun < 2 ^ 64 → Inv w f
Reach-Inv {rs} begin few = begin-Inv rs
Reach-Inv (later {w} {f} r i move) few =
    let inv = Reach-Inv r (omega (arith, few, Move-begun move)) in
    Move-Inv f i move (inv.locals i) few inv

-- However Resolve and Reload interleave, while fewer than 2 ^ 64 generations have begun: what
-- Resolve returns, from the cache or computed, is what one of the stored rule sets gives for the
-- path, and that rule set was the current one when the generation that Resolve loaded began, or was
-- stored later. So no answer is from a rule set that a Reload had already replaced by the time it
-- published that generation.
pub resolve-Fresh :
    {rs : RuleSet} {w : World} {f : ℕ → Pc}
    → Reach rs w f
    → length w.begun < 2 ^ 64
    → (i : ℕ) (k : DecisionKey) (a : Answer) → f i ≡ returned k a
    → Fresh w.stores w.begun k a
resolve-Fresh {w} r few i k a e = (subst (Local w.stores w.begun) e ((Reach-Inv r few).locals i)).1
