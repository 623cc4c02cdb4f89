-- ===== src/Base/FilePath/Below.antt =====
-- Whether a rooted path lies at or below another: the tests on text against the parts.
use janusfs.Base.{◌≡◌, refl, sym, ◌∙◌, arith, All}
use janusfs.Base.Text.{Bytes, eq, has_prefix}
use janusfs.Base.FilePath.{slash, is_rooted, join_slash, clean, dir_of, join, up_to_slash}
use janusfs.Base.FilePath.Parts.{IsName}
use janusfs.Base.FilePath.Clean.{clean-rooted, begins_with, has_prefix-begins_with}
use mathlib.Core.Bool.{true, false, ◌||◌}
use mathlib.Core.List.{List, [], ◌∷◌, ◌++◌}

has_prefix-slash :
    (a r : Bytes)
    → has_prefix (a ++ (slash ∷ [])) (r ++ (slash ∷ []))
      ≡ (eq a r || has_prefix a (r ++ (slash ∷ [])))
has_prefix-slash [] [] = refl
has_prefix-slash (x ∷ a) [] = ground arith
has_prefix-slash [] (y ∷ []) = ground arith
has_prefix-slash [] (y ∷ z ∷ r) = ground arith
has_prefix-slash (x ∷ a) (y ∷ r) = ground (arith, has_prefix-slash a r)

-- The text of a rooted clean path.
abbrev pub rooted : List Bytes → Bytes
rooted ps = slash ∷ join_slash ps

below-root :
    (qs : List Bytes) (q : Bytes)
    → All IsName (q ∷ qs)
    → (eq (rooted []) (rooted (q ∷ qs)) || has_prefix (rooted []) (rooted (q ∷ qs) ++ (slash ∷ [])))
      ≡ false
below-root [] [] h = cc
below-root [] (c ∷ q) h = refl
below-root (s ∷ ss) [] h = cc
below-root (s ∷ ss) (c ∷ q) h = refl

pub below-begins_with :
    (ps : List Bytes) (q : Bytes) (qs : List Bytes)
    → All IsName ps
    → All IsName (q ∷ qs)
    → (eq (rooted ps) (rooted (q ∷ qs)) || has_prefix (rooted ps) (rooted (q ∷ qs) ++ (slash ∷ [])))
      ≡ begins_with ps (q ∷ qs)
below-begins_with [] q qs h k = below-root qs q k
below-begins_with (p ∷ ps) q qs h k =
    sym (has_prefix-slash (rooted (p ∷ ps)) (rooted (q ∷ qs)))
    ∙ has_prefix-begins_with p q ps qs h k

up_to_slash-rooted : (p : Bytes) → is_rooted p ≡ true → is_rooted (up_to_slash p) ≡ true
up_to_slash-rooted [] h = cc
up_to_slash-rooted (c ∷ p) h = ground (arith, h)

pub clean-is_rooted : (p : Bytes) → is_rooted p ≡ true → is_rooted (clean p) ≡ true
clean-is_rooted p h = rw (clean-rooted p h) refl

pub dir_of-is_rooted : (p : Bytes) → is_rooted p ≡ true → is_rooted (dir_of p) ≡ true
unfolding dir_of
dir_of-is_rooted p h = clean-is_rooted (up_to_slash p) (up_to_slash-rooted p h)

pub join-is_rooted : (a b : Bytes) → is_rooted a ≡ true → is_rooted (join a b) ≡ true
unfolding join
join-is_rooted [] b h = cc
join-is_rooted (c ∷ a) [] h = clean-is_rooted (c ∷ a) h
join-is_rooted (c ∷ a) (d ∷ b) h = clean-is_rooted (c ∷ a ++ (slash ∷ d ∷ b)) (ground (arith, h))
