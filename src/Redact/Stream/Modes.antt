-- ===== src/Redact/Stream/Modes.antt =====
-- `classify`: the mode of a pattern set, whatever the order of its patterns.
use janusfs.Base.{
  ℕ, ◌≤◌, ◌<◌, leb, ◌≡◌, refl, sym, ◌∙◌, Bool, true, false, not, ◌&&◌, ◌||◌, none, some,
}
use janusfs.Base.{List, [], ◌∷◌, arith, ltb, if◌then◌else◌, any, all, inl, inr, ◌⊎◌}
use mathlib.Core.Path.{subst}
use janusfs.Base.Text.{codes, eq, has_prefix}
use janusfs.Patterns.{Pattern, whole_file, regex}
use janusfs.Redact.Stream.{
  Mode, chunked, line, whole, buffer_all, by_line, carry, demand, to_line, classify_loop, classify,
  builtin_carry_len,
}

-- A pattern whose matches have no bound: the whole-file sentinel, the builtin private-key, or a
-- custom regex that is not line-anchored.
abbrev pub unbounded : Pattern → Bool
unbounded p = elim p.matcher [
  | whole_file ↦ true
  | regex re ↦
      if p.builtin
      then eq p.name (codes "private-key")
      else not (has_prefix re.source (codes "(?m)"))
]

-- A custom regex that starts with the multi-line flag.
abbrev pub line_anchored : Pattern → Bool
line_anchored p = elim p.matcher [
  | whole_file ↦ false
  | regex re ↦ not p.builtin && has_prefix re.source (codes "(?m)")
]

-- The length that the table of builtins gives to a pattern, 0 if it has none.
abbrev pub needed_len : Pattern → ℕ
needed_len p = elim (builtin_carry_len p.name) [ none ↦ 0 | some l ↦ l ]

abbrev mode_of : List Pattern → Mode → Mode
mode_of ps m = if any unbounded ps then whole else if any line_anchored ps then to_line m else m

demand-cases :
    (p : Pattern)
    → (demand p ≡ buffer_all) × (unbounded p ≡ true)
      ⊎ (demand p ≡ by_line) × (unbounded p ≡ false) × (line_anchored p ≡ true)
      ⊎ (demand p ≡ carry (needed_len p)) × (unbounded p ≡ false) × (line_anchored p ≡ false)
unfolding demand
demand-cases p = ground arith

to_line-to_line : (m : Mode) → to_line (to_line m) ≡ to_line m
unfolding to_line
to_line-to_line chunked = refl
to_line-to_line line = refl
to_line-to_line whole = refl

classify_loop-mode :
    (ps : List Pattern) (m : Mode) (len : ℕ) → (classify_loop ps m len).0 ≡ mode_of ps m
unfolding classify_loop
classify_loop-mode [] m len = refl
classify_loop-mode (p ∷ ps) m len = elim (demand-cases p) [
  | inl (d, u) ↦ rw (d, classify_loop, u)
  | inr (inl (d, u, a)) ↦
      rw (d, classify_loop, u, a)
        (classify_loop-mode ps (to_line m) len ∙ rw to_line-to_line (ground arith))
  | inr (inr (d, u, a)) ↦
      rw (d, classify_loop, u, a)
        (classify_loop-mode ps m (if ltb len (needed_len p) then needed_len p else len))
]

-- The set buffers the whole file if any of its patterns is unbounded, wherever it stands; else it
-- goes by lines if any custom regex is line-anchored, and by chunks if none is.
pub classify_mode :
    (ps : List Pattern)
    → (classify ps).0
      ≡ (if any unbounded ps then whole else if any line_anchored ps then line else chunked)
unfolding classify to_line
classify_mode ps = classify_loop-mode ps chunked 0

-- The tail of `n` bytes is long enough for the pattern, or the pattern goes by lines.
abbrev pub carried_by : ℕ → Pattern → Bool
carried_by n p = line_anchored p || leb (needed_len p) n

abbrev larger : ℕ → ℕ → ℕ
larger len need = if ltb len need then need else len

larger-le : (len need n : ℕ) → larger len need ≤ n → (len ≤ n) × (leb need n ≡ true)
larger-le len need n h = ground arith

loop-by_line :
    (p : Pattern) (ps : List Pattern) (m : Mode) (len : ℕ)
    → demand p ≡ by_line
    → classify_loop (p ∷ ps) m len ≡ classify_loop ps (to_line m) len
unfolding classify_loop
loop-by_line p ps m len d = rw (d, classify_loop)

loop-carry :
    (p : Pattern) (ps : List Pattern) (m : Mode) (len : ℕ)
    → demand p ≡ carry (needed_len p)
    → classify_loop (p ∷ ps) m len ≡ classify_loop ps m (larger len (needed_len p))
unfolding classify_loop
loop-carry p ps m len d = rw (d, classify_loop)

any-head : (p : Pattern) (ps : List Pattern) → any unbounded (p ∷ ps) ≡ false → unbounded p ≡ false
any-head p ps h = left (unbounded p) (any unbounded ps) h
  where
    left : (a b : Bool) → (a || b) ≡ false → a ≡ false
    left a b h = ground arith

any-tail :
    (p : Pattern) (ps : List Pattern) → any unbounded (p ∷ ps) ≡ false → any unbounded ps ≡ false
any-tail p ps h = or_false_right (unbounded p) (any unbounded ps) h
  where
    or_false_right : (a b : Bool) → (a || b) ≡ false → b ≡ false
    or_false_right a b h = ground arith

-- What the loop's result `n` keeps to, from the length `len` on.
abbrev Carries : List Pattern → ℕ → ℕ → Type 0
Carries ps len n = (len ≤ n) × (all (carried_by n) ps ≡ true) × (0 < n)

Carries-step :
    (ps : List Pattern) (len : ℕ) (r s : Mode × ℕ) → r ≡ s → Carries ps len s.1 → Carries ps len r.1
Carries-step ps len r s e h = subst (λ (t : Mode × ℕ). Carries ps len t.1) (sym e) h

classify_loop-carry :
    (ps : List Pattern) (m : Mode) (len : ℕ)
    → any unbounded ps ≡ false
    → Carries ps len (classify_loop ps m len).1
classify_loop-carry [] m len h = unfold classify_loop in (ground arith, refl, ground arith)
classify_loop-carry (p ∷ ps) m len h = elim (demand-cases p) [
  | inl (d, u) ↦ cc (any-head p ps h)
  | inr (inl (d, u, a)) ↦
      let (low, most, pos) = classify_loop-carry ps (to_line m) len (any-tail p ps h) in
      Carries-step (p ∷ ps) len _ _ (loop-by_line p ps m len d) (low, rw (a, most), pos)
  | inr (inr (d, u, a)) ↦
      let (low, most, pos) =
        classify_loop-carry ps m (larger len (needed_len p)) (any-tail p ps h) in
      let (low', fits) = larger-le len (needed_len p) _ low in
      Carries-step (p ∷ ps) len _ _ (loop-carry p ps m len d) (low', rw (a, fits, most), pos)
]

-- In a set without unbounded patterns the carried tail is not empty, and is at least as long as
-- the table of builtins demands of each pattern that is not a line-anchored custom regex.
pub classify_carry :
    (ps : List Pattern)
    → any unbounded ps ≡ false
    → (all (carried_by (classify ps).1) ps ≡ true) × (0 < (classify ps).1)
unfolding classify
classify_carry ps h = let (low, most, pos) = classify_loop-carry ps chunked 0 h in (most, pos)
