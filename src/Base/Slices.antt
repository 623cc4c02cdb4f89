-- ===== src/Base/Slices.antt =====
-- The first and the later bytes of a list of bytes.
use janusfs.Base.Tests.{Bool-cases, leb}
use janusfs.Base.Lists.{length, take, drop, is_empty}
use janusfs.Base.Text.{Bytes}
use Prim.Native.Nat.{ℕ, zero, suc, ◌+◌, ◌-◌, ◌≤◌, ◌<◌, min}
use mathlib.Core.Path.{◌≡◌, refl, sym, ◌∙◌, ap}
use mathlib.Core.Logic.{inl, inr}
use mathlib.Core.Bool.{false}
use mathlib.Core.List.{[], ◌∷◌, ◌++◌}
use native.Mathlib.Omega.{arith}

pub take-past : (n : ℕ) (xs : Bytes) → length xs ≤ n → take n xs ≡ xs
take-past zero [] h = refl
take-past zero (x ∷ xs) h = absurd (omega (arith, h))
take-past (suc n) [] h = refl
take-past (suc n) (x ∷ xs) h = ap (λ t. x ∷ t) (take-past n xs (omega (arith, h)))

pub take-nil : (n : ℕ) → ◌≡◌ {A = Bytes} (take n []) []
take-nil zero = refl
take-nil (suc n) = refl

pub drop-nil : (n : ℕ) → ◌≡◌ {A = Bytes} (drop n []) []
drop-nil zero = refl
drop-nil (suc n) = refl

-- The next bytes behind the first ones.
pub take-take : (g k : ℕ) (xs : Bytes) → take g xs ++ take k (drop g xs) ≡ take (g + k) xs
take-take zero k xs = ap (λ n. take n xs) (omega arith)
take-take (suc g) k [] = take-nil k ∙ sym (take-nil (suc g + k))
take-take (suc g) k (x ∷ xs) =
    ap (λ t. x ∷ t) (take-take g k xs)
    ∙ ap (λ n. take n (x ∷ xs)) {x = suc (g + k)} {y = suc g + k} (omega arith)

pub take-min : (n : ℕ) (xs : Bytes) → take n xs ≡ take (min n (length xs)) xs
take-min n xs = elim (Bool-cases (leb n (length xs))) [
  | inl le ↦ ap (λ k. take k xs) (ground (arith, le))
  | inr gt ↦
      take-past n xs (ground (arith, gt))
      ∙ sym (take-past (min n (length xs)) xs (ground (arith, gt)))
]

pub drop-drop : (a b : ℕ) (xs : Bytes) → drop (a + b) xs ≡ drop b (drop a xs)
drop-drop zero b xs = ap (λ n. drop n xs) (omega arith)
drop-drop (suc a) b [] = drop-nil (suc a + b) ∙ sym (drop-nil b)
drop-drop (suc a) b (x ∷ xs) =
    ap (λ n. drop n (x ∷ xs)) {x = suc a + b} {y = suc (a + b)} (omega arith) ∙ drop-drop a b xs

pub take-full : (k : ℕ) (xs : Bytes) → 0 < k → 0 < length xs → is_empty (take k xs) ≡ false
take-full zero xs h l = absurd (omega (arith, h))
take-full (suc k) [] h l = absurd (omega (arith, l))
take-full (suc k) (x ∷ xs) h l = refl

pub length-drop : (a : ℕ) (xs : Bytes) → length (drop a xs) ≡ length xs - a
length-drop zero xs = omega arith
length-drop (suc a) [] = omega arith
length-drop (suc a) (x ∷ xs) = omega (arith, length-drop a xs)

pub length-take : (n : ℕ) (xs : Bytes) → length (take n xs) ≡ min n (length xs)
length-take zero xs = omega arith
length-take (suc n) [] = omega arith
length-take (suc n) (x ∷ xs) = omega (arith, length-take n xs)

pub full-length : (s : Bytes) → is_empty s ≡ false → 0 < length s
full-length [] h = cc
full-length (c ∷ s) h = omega arith
