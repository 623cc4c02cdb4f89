-- ===== src/Tests/Samples.antt =====
-- A package regexp for the tests: an expression is a word, and it matches where the word stands.
use janusfs.Base.{ℕ, ◌+◌, ◌≤◌, ◌≡◌, true, none, some, List, [], ◌∷◌}
use janusfs.Base.{arith, if◌then◌else◌, Bool-cases, inl, inr, length, All}
use janusfs.Base.Text.{Bytes, has_prefix, contains}
use janusfs.Patterns.{Match, Regexp, RegexpPackage, Pattern, regex, IsWithin}

abbrev match_at : ℕ → Bytes → Match
match_at i w = record { start = i; stop = i + length w; groups = [] }

-- The places of the word in the bytes, the first of which stands at `i`.
abbrev find_word : Bytes → ℕ → Bytes → List Match
find_word w i [] = []
find_word w i (c ∷ s) =
    let rest = find_word w (i + 1) s in if has_prefix (c ∷ s) w then match_at i w ∷ rest else rest

abbrev pub word_regexp : Bytes → Regexp
word_regexp w = record {
  source = w;
  num_subexp = 0;
  match_string = λ s. contains s w;
  find_all = find_word w 0;
}

-- An expression that starts with `*` does not compile.
abbrev pub words : RegexpPackage
words = record {
  compile = λ e. if has_prefix e (b'*' ∷ []) then none else some (word_regexp e);
  must_compile = word_regexp;
}

abbrev pub word_pattern : Bytes → Bytes → Pattern
word_pattern n w = record {
  name = n;
  builtin = true;
  matcher = regex (word_regexp w);
  group_index = 0;
  pre_filter = none;
}

has_prefix-length : (s w : Bytes) → has_prefix s w ≡ true → length w ≤ length s
has_prefix-length s [] h = omega arith
has_prefix-length [] (c ∷ w) h = cc
has_prefix-length (d ∷ s) (c ∷ w) h = ground (arith, has_prefix-length s w)

find_word-IsWithin :
    (w : Bytes) (i n : ℕ) (s : Bytes) → i + length s ≤ n → All (IsWithin n) (find_word w i s)
find_word-IsWithin w i n [] h = tt
find_word-IsWithin w i n (c ∷ s) h = elim (Bool-cases (has_prefix (c ∷ s) w)) [
  | inr e ↦ rw e (find_word-IsWithin w (i + 1) n s (omega arith))
  | inl e ↦ rw e (
    record {
      ordered = omega arith;
      bounded = omega (arith, has_prefix-length (c ∷ s) w e);
      groups_within = tt;
    },
    find_word-IsWithin w (i + 1) n s (omega arith),
  )
]

pub word_regexp-lawful :
    (w buf : Bytes) → All (IsWithin (length buf)) ((word_regexp w).find_all buf)
word_regexp-lawful w buf = find_word-IsWithin w 0 (length buf) buf (omega arith)
