-- ===== src/Engine/Trusted.antt =====
-- The engine in the hands of one caller at a time: a memo that holds only true answers keeps doing so.
use janusfs.Base.{
  ℕ, suc, ◌<◌, true, arith, ◌≡◌, refl, ◌∙◌, ap, Bool, ◌&&◌, Option, none, some, Bool-cases, inl,
  inr, All,
}
use janusfs.Base.{List, [], ◌∷◌, ◌==◌, ltb}
use janusfs.Base.Text.{Bytes}
use janusfs.Rules.{RuleSet}
use janusfs.Engine.{
  Engine, Answer, DecisionKey, Cell, key_eq, decision_cache_max, answer_of, find_cell, store_answer,
  count_entry, swap_cache, drop_cache, reset_entries, keep_answer, answer_alone, resolve_alone,
  reload_alone, store_rules, bump_generation, new_engine,
}
use janusfs.Engine.Invariant.{key_eq→≡, and_parts}
use janusfs.Engine.Memo.{key_now}

-- Of the maps made so far, a cell of the current one and of the current generation has the answer
-- of the current rule set.
abbrev IsTrue : RuleSet → ℕ → ℕ → ℕ → Cell → Type 0
IsTrue rs g m made c =
    (c.cache < made) × (c.cache ≡ m → c.key.gen ≡ g → c.answer ≡ answer_of rs c.key)

abbrev pub Trusted : Engine → Type 0
Trusted e = (e.cache < e.made) × All (IsTrue e.rs e.gen e.cache e.made) e.cells

abbrev Found : RuleSet → DecisionKey → Option Answer → Type 0
Found rs k none = Unit
Found rs k (some a) = a ≡ answer_of rs k

find_cell-Found :
    (rs : RuleSet) (g m made : ℕ) (k : DecisionKey) (cells : List Cell)
    → k.gen ≡ g
    → All (IsTrue rs g m made) cells
    → Found rs k (find_cell cells m k)
unfolding find_cell
find_cell-Found rs g m made k [] same h = tt
find_cell-Found rs g m made k (c ∷ cells) same h =
    elim (Bool-cases (c.cache == m && key_eq c.key k)) [
      | inr e ↦ rw e (find_cell-Found rs g m made k cells same h.1)
      | inl e ↦
          let (here, there) = and_parts (c.cache == m) (key_eq c.key k) e in
          let key = key_eq→≡ c.key k there in
          rw e (h.0.1 (ground (arith, here)) (ap (λ x. x.gen) key ∙ same) ∙ ap (answer_of rs) key)
    ]

answer_alone-Found :
    (e : Engine) (k : DecisionKey) (o : Option Answer)
    → Found e.rs k o
    → (answer_alone e k o).1 ≡ answer_of e.rs k
unfolding answer_alone
answer_alone-Found e k none h = refl
answer_alone-Found e k (some a) h = h

-- What an engine keeps of another: its rule set, its generation and only true cells.
pub record Keeps (e e' : Engine) : Type 0 where
  pub rules : e'.rs ≡ e.rs
  pub generation : e'.gen ≡ e.gen
  pub trusted : Trusted e'

-- A map that is new has no cells.
in_new_map :
    (rs rs' : RuleSet) (g g' m made : ℕ) (cells : List Cell)
    → All (IsTrue rs g m made) cells
    → All (IsTrue rs' g' made (suc made)) cells
in_new_map rs rs' g g' m made [] h = tt
in_new_map rs rs' g g' m made (c ∷ cells) h = (
  (omega (arith, h.0.0), λ here. absurd (omega (arith, here, h.0.0))),
  in_new_map rs rs' g g' m made cells h.1,
)

in_old_map :
    (rs : RuleSet) (g m made : ℕ) (cells : List Cell)
    → All (IsTrue rs g m made) cells
    → All (IsTrue rs g m (suc made)) cells
in_old_map rs g m made [] h = tt
in_old_map rs g m made (c ∷ cells) h =
    ((omega (arith, h.0.0), h.0.1), in_old_map rs g m made cells h.1)

keep_answer-Keeps :
    (e : Engine) (k : DecisionKey)
    → Trusted e
    → Keeps e (keep_answer e.cache k (answer_of e.rs k) (count_entry e))
unfolding keep_answer count_entry swap_cache drop_cache reset_entries store_answer
keep_answer-Keeps e k h = elim (Bool-cases (ltb decision_cache_max (suc e.cache_entries))) [
  | inr within ↦
      rw within
        (record { rules = refl; generation = refl; trusted = (h.0, ((h.0, λ _ _. refl), h.1)) })
  | inl over ↦
      let same : (e.cache == e.cache) ≡ true = ground arith in
      rw (over, same)
        (record {
          rules = refl;
          generation = refl;
          trusted = (omega arith, in_new_map e.rs e.rs e.gen e.gen e.cache e.made e.cells h.1);
        })
]

answer_alone-Keeps :
    (e : Engine) (k : DecisionKey) (o : Option Answer) → Trusted e → Keeps e (answer_alone e k o).0
unfolding answer_alone
answer_alone-Keeps e k none h = keep_answer-Keeps e k h
answer_alone-Keeps e k (some a) h = record { rules = refl; generation = refl; trusted = h }

pub resolve_alone-Trusted :
    (e : Engine) (p : Bytes) (d : Bool)
    → Trusted e
    → ((resolve_alone e p d).1 ≡ answer_of e.rs (key_now e p d)) × Keeps e (resolve_alone e p d).0
unfolding resolve_alone
resolve_alone-Trusted e p d h =
    let k = key_now e p d in
    (
      answer_alone-Found e k (find_cell e.cells e.cache k)
          (find_cell-Found e.rs e.gen e.cache e.made k e.cells refl h.1),
      answer_alone-Keeps e k (find_cell e.cells e.cache k) h,
    )

pub reload_alone-Trusted : (rs : RuleSet) (e : Engine) → Trusted e → Trusted (reload_alone rs e)
unfolding reload_alone store_rules bump_generation drop_cache reset_entries
reload_alone-Trusted rs e h = (omega arith, in_new_map e.rs rs e.gen _ e.cache e.made e.cells h.1)

pub new_engine-Trusted : (rs : RuleSet) → Trusted (new_engine rs)
unfolding new_engine
new_engine-Trusted rs = (omega arith, tt)
