-- ===== src/Base/Text.antt =====
-- Go strings and byte slices as lists of bytes, with the functions of the packages strings and
-- bytes that the code calls.
use Prim.Native.Char.{code}
use Prim.Native.String.{String}
use Prim.Native.Nat.{ℕ, suc}
use mathlib.Core.Path.{◌≡◌, refl}
use mathlib.Core.Logic.{◌↔◌}
use mathlib.Core.Bool.{Bool, true, false, ◌&&◌, ◌||◌}
use mathlib.Core.List.{List, [], ◌∷◌}
use mathlib.Core.Option.{Option, none, some}
use native.Mathlib.Omega.{arith}
use janusfs.Base.Tests.{leb, ◌==◌, if◌then◌else◌}

abbrev pub Bytes : Type 0
Bytes = List ℕ

-- The code points of a text, its bytes where the text is ASCII.
abbrev pub codes : String → Bytes
codes String.[] = []
codes (String.◌∷◌ c s) = code c ∷ codes s

-- `a == b` on strings.
abbrev pub eq : Bytes → Bytes → Bool
eq [] [] = true
eq [] (b ∷ bs) = false
eq (a ∷ as') [] = false
eq (a ∷ as') (b ∷ bs) = a == b && eq as' bs

-- `strings.HasPrefix(s, prefix)`.
abbrev pub has_prefix : Bytes → Bytes → Bool
has_prefix s [] = true
has_prefix [] (p ∷ ps) = false
has_prefix (c ∷ s) (p ∷ ps) = c == p && has_prefix s ps

-- `strings.HasSuffix(s, suffix)` for one byte.
abbrev pub ends_with : Bytes → ℕ → Bool
ends_with [] b = false
ends_with (c ∷ []) b = c == b
ends_with (c ∷ d ∷ s) b = ends_with (d ∷ s) b

-- `s[:len(s)-1]`.
abbrev pub drop_last : Bytes → Bytes
drop_last [] = []
drop_last (c ∷ []) = []
drop_last (c ∷ d ∷ s) = c ∷ drop_last (d ∷ s)

-- `bytes.Contains(buf, sub)`.
abbrev pub contains : Bytes → Bytes → Bool
contains [] sub = has_prefix [] sub
contains (c ∷ s) sub = has_prefix (c ∷ s) sub || contains s sub

-- `strings.Contains(s, "b")` for one byte.
abbrev pub contains_byte : Bytes → ℕ → Bool
contains_byte [] b = false
contains_byte (c ∷ s) b = c == b || contains_byte s b

-- `strings.IndexByte(s, b)`; `none` stands for -1.
abbrev pub index_byte : Bytes → ℕ → Option ℕ
index_byte [] b = none
index_byte (c ∷ s) b =
    if c == b then some 0 else elim (index_byte s b) [ none ↦ none | some i ↦ some (suc i) ]

-- The spaces of `strings.TrimSpace` among the ASCII bytes.
abbrev pub is_space : ℕ → Bool
is_space c = c == 32 || (leb 9 c && leb c 13)

abbrev pub trim_left : Bytes → Bytes
trim_left [] = []
trim_left (c ∷ s) = let rest = trim_left s in if is_space c then rest else c ∷ s

abbrev pub trim_right : Bytes → Bytes
trim_right [] = []
trim_right (c ∷ s) = elim (trim_right s) [
  | [] ↦ if is_space c then [] else c ∷ []
  | d ∷ r ↦ c ∷ d ∷ r
]

abbrev pub trim_space : Bytes → Bytes
trim_space s = trim_right (trim_left s)

pub eq_refl : (a : Bytes) → eq a a ≡ true
eq_refl [] = refl
eq_refl (a ∷ as') = ground (arith, eq_refl as')

pub eq→≡ : (a b : Bytes) → eq a b ≡ true → a ≡ b
eq→≡ [] [] h = refl
eq→≡ [] (b ∷ bs) h = cc
eq→≡ (a ∷ as') [] h = cc
eq→≡ (a ∷ as') (b ∷ bs) h = ground (arith, eq→≡ as' bs)

pub eq_iff : (a b : Bytes) → (eq a b ≡ true) ↔ (a ≡ b)
eq_iff a b = (eq→≡ a b, λ e. rw e (eq_refl b))

pub eq_comm : (a b : Bytes) → eq a b ≡ eq b a
eq_comm [] [] = refl
eq_comm [] (b ∷ bs) = refl
eq_comm (a ∷ as') [] = refl
eq_comm (a ∷ as') (b ∷ bs) = ground (arith, eq_comm as' bs)
