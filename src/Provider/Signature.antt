-- ===== src/Provider/Signature.antt =====
-- internal/provider/provider.go: the signature of a pattern set (sortStrings, patternSignature), and
-- its test without a new string (matchesPatternSig).
pub mod Laws
pub mod Sorted
pub mod Stable
use janusfs.Base.{ℕ, zero, suc, ◌+◌, Bool, true, false, ◌&&◌, not, Option, none, some}
use janusfs.Base.{List, [], ◌∷◌, ◌++◌, ◌==◌, if◌then◌else◌, length, drop, get_elem?, is_empty, map}
use janusfs.Base.Text.{Bytes, eq, has_prefix}
use janusfs.Base.Sorting.{bytes_le, sort_by}
use janusfs.Patterns.{Pattern}

-- `if a > b { a, b = b, a }`.
unfoldable pub order : Bytes × Bytes → Bytes × Bytes
order (a, b) = if bytes_le a b then (a, b) else (b, a)

-- The case of three names: the third is put into the ordered first two.
unfoldable pub sort_three : Bytes × Bytes → Bytes → List Bytes
unfolding order
sort_three (a, b) c =
    if bytes_le b c then a ∷ b ∷ c ∷ [] else (order (a, c)).0 ∷ (order (a, c)).1 ∷ b ∷ []

-- The end of the case of four names, behind the first two comparisons: those of the lower ends, of
-- the upper ends, and of what stands between.
unfoldable pub sort_middle : Bytes × Bytes → Bytes × Bytes → List Bytes
unfolding order
sort_middle (a, c) (b, d) = a ∷ (order (b, c)).0 ∷ (order (b, c)).1 ∷ d ∷ []

unfoldable pub sort_four : Bytes × Bytes → Bytes × Bytes → List Bytes
unfolding order sort_middle
sort_four (a, b) (c, d) = sort_middle (order (a, c)) (order (b, d))

-- `sortStrings`.
unfoldable pub sort_strings : List Bytes → List Bytes
unfolding order sort_three sort_four sort_by
sort_strings [] = []
sort_strings (a ∷ []) = a ∷ []
sort_strings (a ∷ b ∷ []) = (order (a, b)).0 ∷ (order (a, b)).1 ∷ []
sort_strings (a ∷ b ∷ c ∷ []) = sort_three (order (a, b)) c
sort_strings (a ∷ b ∷ c ∷ d ∷ []) = sort_four (order (a, b)) (order (c, d))
sort_strings (a ∷ b ∷ c ∷ d ∷ e ∷ rest) = sort_by bytes_le (a ∷ b ∷ c ∷ d ∷ e ∷ rest)

-- Each name, and a zero byte behind it.
unfoldable pub write_names : List Bytes → Bytes
write_names [] = []
write_names (n ∷ ns) = n ++ 0 ∷ write_names ns

abbrev pub all_names : List Pattern → List Bytes
all_names = map (λ p. p.name)

unfoldable pub pattern_signature : List Pattern → Bytes
unfolding write_names sort_strings
pattern_signature [] = []
pattern_signature (p ∷ []) = p.name ++ 0 ∷ []
pattern_signature (p ∷ q ∷ ps) = write_names (sort_strings (all_names (p ∷ q ∷ ps)))

-- `totalLen`.
unfoldable pub total_len : List Bytes → ℕ
total_len [] = 0
total_len (n ∷ ns) = suc (length n) + total_len ns

-- `sig[i] == 0`, for an index in range.
unfoldable pub zero_at : ℕ → Bytes → Bool
zero_at i [] = false
zero_at zero (b ∷ s) = b == 0
zero_at (suc i) (b ∷ s) = zero_at i s

-- The loop over the names, with `sig[pos:]`: its indices are in range as the lengths agree.
unfoldable pub match_names : List Bytes → Bytes → Bool
unfolding zero_at
match_names [] sig = is_empty sig
match_names (n ∷ ns) sig =
    has_prefix sig n && (zero_at (length n) sig && match_names ns (drop (suc (length n)) sig))

unfoldable pub matches_pattern_sig : Bytes → List Pattern → Bool
unfolding zero_at match_names total_len sort_strings
matches_pattern_sig sig [] = is_empty sig
matches_pattern_sig sig (p ∷ []) =
    length sig == suc (length p.name) && (zero_at (length p.name) sig && has_prefix sig p.name)
matches_pattern_sig sig (p ∷ q ∷ ps) =
    let names = all_names (p ∷ q ∷ ps) in
    if not (length sig == total_len names) then false else match_names (sort_strings names) sig
