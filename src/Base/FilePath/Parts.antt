-- ===== src/Base/FilePath/Parts.antt =====
-- The parts of a path: splitting and joining at the slashes, and what Clean does to them.
use janusfs.Base.Tests.{◌==◌, ==_iff, Bool-cases}
use janusfs.Base.Lists.{is_empty, All}
use janusfs.Base.Text.{Bytes, eq, contains_byte}
use janusfs.Base.FilePath.{slash, dot, dot_dot, cons_first, split_slash, join_slash}
use Prim.Native.Nat.{ℕ}
use mathlib.Core.Path.{◌≡◌, refl, sym, ◌∙◌, ap}
use mathlib.Core.Logic.{inl, inr}
use mathlib.Core.Bool.{false}
use mathlib.Core.List.{List, [], ◌∷◌, ◌++◌}
use native.Mathlib.Omega.{arith}

abbrev pub SlashFree : Bytes → Type 0
SlashFree s = contains_byte s slash ≡ false

-- A name: not empty, without a slash, and neither `.` nor `..`.
pub record IsName (s : Bytes) : Type 0 where
  pub full : is_empty s ≡ false
  pub no_slash : SlashFree s
  pub not_dot : eq s dot ≡ false
  pub not_dots : eq s dot_dot ≡ false

cons_first-Free :
    (c : ℕ) (parts : List Bytes)
    → (c == slash) ≡ false
    → All SlashFree parts
    → All SlashFree (cons_first c parts)
cons_first-Free c [] e h = (ground (arith, e), tt)
cons_first-Free c (s ∷ ss) e h = (ground (arith, e, h.0), h.1)

pub split_slash-Free : (s : Bytes) → All SlashFree (split_slash s)
split_slash-Free [] = (refl, tt)
split_slash-Free (c ∷ s) = elim (Bool-cases (c == slash)) [
  | inl e ↦ rw e (refl, split_slash-Free s)
  | inr e ↦ rw e (cons_first-Free c (split_slash s) e (split_slash-Free s))
]

join_slash-cons_first :
    (c : ℕ) (parts : List Bytes) → join_slash (cons_first c parts) ≡ c ∷ join_slash parts
join_slash-cons_first c [] = refl
join_slash-cons_first c (s ∷ []) = refl
join_slash-cons_first c (s ∷ t ∷ ss) = refl

join_slash-empty :
    (parts : List Bytes)
    → is_empty parts ≡ false
    → join_slash ([] ∷ parts) ≡ slash ∷ join_slash parts
join_slash-empty [] h = cc
join_slash-empty (s ∷ ss) h = refl

cons_first-full : (c : ℕ) (parts : List Bytes) → is_empty (cons_first c parts) ≡ false
cons_first-full c [] = refl
cons_first-full c (s ∷ ss) = refl

pub split_slash-full : (s : Bytes) → is_empty (split_slash s) ≡ false
split_slash-full [] = refl
split_slash-full (c ∷ s) = elim (Bool-cases (c == slash)) [
  | inl e ↦ rw e refl
  | inr e ↦ rw e (cons_first-full c (split_slash s))
]

-- Joining what was split gives the text back.
pub join_slash-split_slash : (s : Bytes) → join_slash (split_slash s) ≡ s
join_slash-split_slash [] = refl
join_slash-split_slash (c ∷ s) = elim (Bool-cases (c == slash)) [
  | inl e ↦ rw e (
      join_slash-empty (split_slash s) (split_slash-full s)
      ∙ ap (λ t. slash ∷ t) (join_slash-split_slash s)
      ∙ ap (λ b. b ∷ s) (sym ((==_iff c slash).0 e)))
  | inr e ↦
      rw e (join_slash-cons_first c (split_slash s) ∙ ap (λ t. c ∷ t) (join_slash-split_slash s))
]

split_slash-free : (s : Bytes) → SlashFree s → split_slash s ≡ s ∷ []
split_slash-free [] h = refl
split_slash-free (c ∷ s) h =
    let e : (c == slash) ≡ false = ground (arith, h) in
    rw (e, split_slash-free s (ground (arith, h))) refl

split_slash-part : (s t : Bytes) → SlashFree s → split_slash (s ++ (slash ∷ t)) ≡ s ∷ split_slash t
split_slash-part [] t h = refl
split_slash-part (c ∷ s) t h =
    let e : (c == slash) ≡ false = ground (arith, h) in
    rw (e, split_slash-part s t (ground (arith, h))) refl

-- Splitting what was joined gives the parts back.
pub split_slash-join_slash :
    (parts : List Bytes)
    → is_empty parts ≡ false
    → All SlashFree parts
    → split_slash (join_slash parts) ≡ parts
split_slash-join_slash [] h free = cc
split_slash-join_slash (s ∷ []) h free = split_slash-free s free.0
split_slash-join_slash (s ∷ t ∷ ss) h free =
    split_slash-part s (join_slash (t ∷ ss)) free.0
    ∙ ap (λ r. s ∷ r) (split_slash-join_slash (t ∷ ss) refl free.1)

pub cons_first-append :
    (c : ℕ) (xs ys : List Bytes)
    → is_empty xs ≡ false
    → cons_first c (xs ++ ys) ≡ cons_first c xs ++ ys
cons_first-append c [] ys h = cc
cons_first-append c (x ∷ xs) ys h = refl
