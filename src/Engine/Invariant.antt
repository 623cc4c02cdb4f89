-- ===== src/Engine/Invariant.antt =====
-- What holds of the engine in internal/engine/engine.go and of its goroutines at every moment.
use janusfs.Base.{ℕ, suc, ◌≤◌, ◌≡◌, refl, Bool, true, false, Bool-cases, ==_iff, sym, ◌∙◌, ◌&&◌}
use janusfs.Base.{List, [], ◌∷◌, ltb, ◌==◌, if◌then◌else◌, length, arith, All, inl, inr, ap}
use janusfs.Base.Text.{eq, eq→≡}
use mathlib.Core.Path.{subst}
use janusfs.Rules.{RuleSet}
use janusfs.Engine.{
  Engine, Answer, DecisionKey, Cell, same_flag, key_eq, decision_cache_max, answer_of, find_cell,
}
use janusfs.Engine.Step.{
  Pc, idle, keyed, looking, missed, computed, over, within, swapped, returned, discovered, stored,
  bumped, dropped, World, after_load, after_count, after_swap, update,
}

-- Among the stored rule sets, one that was the `n`th or a later one.
pub data StoredSince (n : ℕ) (r : RuleSet) : List RuleSet → Type 0 where
  newest : {rs : List RuleSet} → n ≤ suc (length rs) → StoredSince n r (r ∷ rs)
  earlier : {s : RuleSet} {rs : List RuleSet} → StoredSince n r rs → StoredSince n r (s ∷ rs)

-- How many rule sets had been stored when generation `g` began.
unfoldable pub begun_at : ℕ → List ℕ → ℕ
begun_at g [] = 0
begun_at g (n ∷ ns) = let before = begun_at g ns in if g == suc (length ns) then n else before

-- An answer for a key is the one that a rule set gives that was current when the key's generation
-- began or has been stored since.
abbrev pub Fresh : List RuleSet → List ℕ → DecisionKey → Answer → Type 0
Fresh ss bs k a = (r : RuleSet) × StoredSince (begun_at k.gen bs) r ss × (a ≡ answer_of r k)

abbrev pub Known : List ℕ → DecisionKey → Type 0
Known bs k = k.gen ≤ length bs

abbrev pub Holds : List RuleSet → List ℕ → DecisionKey → Answer → Type 0
Holds ss bs k a = Known bs k × Fresh ss bs k a

-- What a goroutine has in its local variables.
abbrev pub Local : List RuleSet → List ℕ → Pc → Type 0
Local ss bs idle = Unit
Local ss bs (keyed k) = Known bs k
Local ss bs (looking k m) = Known bs k
Local ss bs (missed k m) = Known bs k
Local ss bs (computed k m a) = Holds ss bs k a
Local ss bs (over k m a) = Holds ss bs k a
Local ss bs (within k m a) = Holds ss bs k a
Local ss bs (swapped k a) = Holds ss bs k a
Local ss bs (returned k a) = Holds ss bs k a
Local ss bs (discovered rs) = Unit
Local ss bs stored = Unit
Local ss bs bumped = Unit
Local ss bs dropped = Unit

abbrev pub CellOk : List RuleSet → List ℕ → Cell → Type 0
CellOk ss bs c = Holds ss bs c.key c.answer

pub record Inv (w : World) (f : ℕ → Pc) : Type 0 where
  pub generation : w.engine.gen ≡ length w.begun
  pub current : (rest : List RuleSet) × (w.stores ≡ w.engine.rs ∷ rest)
  pub bounded : All (λ b. b ≤ length w.stores) w.begun
  pub cells : All (CellOk w.stores w.begun) w.engine.cells
  pub locals : (i : ℕ) → Local w.stores w.begun (f i)

pub begun_at-le : (n g : ℕ) (ns : List ℕ) → All (λ b. b ≤ n) ns → begun_at g ns ≤ n
unfolding begun_at
begun_at-le n g [] h = omega arith
begun_at-le n g (b ∷ ns) h = ground (arith, begun_at-le n g ns h.1)

begun_at-bump : (g n : ℕ) (ns : List ℕ) → g ≤ length ns → begun_at g (n ∷ ns) ≡ begun_at g ns
unfolding begun_at
begun_at-bump g n ns h = ground arith

same_flag→≡ : (a b : Bool) → same_flag a b ≡ true → a ≡ b
same_flag→≡ true true h = refl
same_flag→≡ true false h = cc
same_flag→≡ false true h = cc
same_flag→≡ false false h = refl

pub and_parts : (a b : Bool) → (a && b) ≡ true → (a ≡ true) × (b ≡ true)
and_parts true b h = (refl, h)
and_parts false b h = cc

pub key_eq→≡ : (j k : DecisionKey) → key_eq j k ≡ true → j ≡ k
unfolding key_eq
key_eq→≡ j k h =
    let (most, g) = and_parts (eq j.rel_path k.rel_path && same_flag j.is_dir k.is_dir) _ h in
    let (p, d) = and_parts (eq j.rel_path k.rel_path) _ most in
    let path = eq→≡ j.rel_path k.rel_path p in
    let flag = same_flag→≡ j.is_dir k.is_dir d in
    let gens = (==_iff j.gen k.gen).0 g in
    λ i. record { rel_path = path i; is_dir = flag i; gen = gens i }

-- What is found is what was stored under the key.
pub find_cell-Holds :
    (ss : List RuleSet) (bs : List ℕ) (cs : List Cell) (m : ℕ) (k : DecisionKey)
    → All (CellOk ss bs) cs
    → Known bs k
    → Local ss bs (after_load k m (find_cell cs m k))
unfolding find_cell after_load
find_cell-Holds ss bs [] m k h kn = kn
find_cell-Holds ss bs (c ∷ cs) m k h kn = elim (Bool-cases (c.cache == m && key_eq c.key k)) [
  | inr e ↦ rw e (find_cell-Holds ss bs cs m k h.1 kn)
  | inl e ↦
      let same = key_eq→≡ c.key k (and_parts (c.cache == m) _ e).1 in
      rw e (subst (λ x. Holds ss bs x c.answer) same h.0)
]

pub Local-more :
    (ss ss' : List RuleSet) (bs bs' : List ℕ)
    → ((k : DecisionKey) → Known bs k → Known bs' k)
    → ((k : DecisionKey) (a : Answer) → Holds ss bs k a → Holds ss' bs' k a)
    → (q : Pc) → Local ss bs q
    → Local ss' bs' q
Local-more ss ss' bs bs' known holds idle h = tt
Local-more ss ss' bs bs' known holds (keyed k) h = known k h
Local-more ss ss' bs bs' known holds (looking k m) h = known k h
Local-more ss ss' bs bs' known holds (missed k m) h = known k h
Local-more ss ss' bs bs' known holds (computed k m a) h = holds k a h
Local-more ss ss' bs bs' known holds (over k m a) h = holds k a h
Local-more ss ss' bs bs' known holds (within k m a) h = holds k a h
Local-more ss ss' bs bs' known holds (swapped k a) h = holds k a h
Local-more ss ss' bs bs' known holds (returned k a) h = holds k a h
Local-more ss ss' bs bs' known holds (discovered rs) h = tt
Local-more ss ss' bs bs' known holds stored h = tt
Local-more ss ss' bs bs' known holds bumped h = tt
Local-more ss ss' bs bs' known holds dropped h = tt

pub Holds-store :
    (s : RuleSet) (ss : List RuleSet) (bs : List ℕ) (k : DecisionKey) (a : Answer)
    → Holds ss bs k a
    → Holds (s ∷ ss) bs k a
Holds-store s ss bs k a (kn, (r, since, e)) = (kn, (r, earlier since, e))

pub Holds-bump :
    (n : ℕ) (ss : List RuleSet) (bs : List ℕ) (k : DecisionKey) (a : Answer)
    → Holds ss bs k a
    → Holds ss (n ∷ bs) k a
Holds-bump n ss bs k a (kn, (r, since, e)) =
    (omega (arith, kn), (r, rw (begun_at-bump k.gen n bs kn) since, e))

pub All-imp {ℓ κ} :
    {A : Type ℓ} (P Q : A → Type κ) → ((a : A) → P a → Q a) → (xs : List A) → All P xs → All Q xs
All-imp P Q imp [] h = tt
All-imp P Q imp (x ∷ xs) h = (imp x h.0, All-imp P Q imp xs h.1)

pub Holds-now :
    {rest : List RuleSet} (r : RuleSet) (ss : List RuleSet) (bs : List ℕ) (k : DecisionKey)
    → ss ≡ r ∷ rest
    → All (λ b. b ≤ length ss) bs
    → Known bs k
    → Holds ss bs k (answer_of r k)
Holds-now {rest} r ss bs k e below kn = (
  kn,
  (
    r,
    subst (StoredSince (begun_at k.gen bs) r) (sym e)
        (newest (omega (arith, begun_at-le (length ss) k.gen bs below, ap length e))),
    refl,
  ),
)

pub Local-update :
    (ss : List RuleSet) (bs : List ℕ) (f : ℕ → Pc) (i : ℕ) (q : Pc)
    → ((j : ℕ) → Local ss bs (f j))
    → Local ss bs q
    → (j : ℕ) → Local ss bs (update f i q j)
unfolding update
Local-update ss bs f i q fs h j = elim (Bool-cases (i == j)) [
  | inl e ↦ rw e h
  | inr e ↦ rw e (fs j)
]

pub after_count-Holds :
    (ss : List RuleSet) (bs : List ℕ) (k : DecisionKey) (m : ℕ) (a : Answer) (n : ℕ)
    → Holds ss bs k a
    → Local ss bs (after_count k m a n)
unfolding after_count
after_count-Holds ss bs k m a n h = elim (Bool-cases (ltb decision_cache_max n)) [
  | inl e ↦ rw e h
  | inr e ↦ rw e h
]

pub after_swap-Holds :
    (ss : List RuleSet) (bs : List ℕ) (k : DecisionKey) (a : Answer) (done : Bool)
    → Holds ss bs k a
    → Local ss bs (after_swap k a done)
unfolding after_swap
after_swap-Holds ss bs k a true h = h
after_swap-Holds ss bs k a false h = h

-- An operation that leaves the rule set, the generation and the cells alone.
pub Inv-keep :
    {w : World} {f : ℕ → Pc} (e : Engine) (i : ℕ) (q : Pc)
    → e.rs ≡ w.engine.rs
    → e.gen ≡ w.engine.gen
    → e.cells ≡ w.engine.cells
    → Inv w f
    → Local w.stores w.begun q
    → Inv (record w { engine = e }) (update f i q)
Inv-keep {w} {f} e i q rs gen cells inv h = record {
  generation = gen ∙ inv.generation;
  current = (inv.current.0, inv.current.1 ∙ ap (λ r. r ∷ inv.current.0) (sym rs));
  bounded = inv.bounded;
  cells = subst (All (CellOk w.stores w.begun)) (sym cells) inv.cells;
  locals = Local-update w.stores w.begun f i q inv.locals h;
}
