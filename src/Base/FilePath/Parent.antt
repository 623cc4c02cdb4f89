-- ===== src/Base/FilePath/Parent.antt =====
-- Dir on rooted clean paths: it takes the last part away.
use janusfs.Base.{ℕ, ◌≡◌, refl, sym, ◌∙◌, ap, true, false, arith, All}
use janusfs.Base.{List, [], ◌∷◌, ◌++◌, is_empty}
use janusfs.Base.Text.{Bytes}
use janusfs.Base.FilePath.{
  slash, split_slash, join_slash, clean, clean_parts, clean_loop, up_to_slash, dir_of,
}
use janusfs.Base.FilePath.Parts.{SlashFree, IsName, split_slash-join_slash}
use janusfs.Base.FilePath.Clean.{
  clean_parts-join_slash, clean-rooted, clean_loop-names, clean_loop-append, split_slash-slash,
  ended, names-Free,
}
use janusfs.Base.FilePath.Below.{rooted}
use mathlib.Core.List.{reverse-reverse}

up_to_slash-Free : (s : Bytes) → SlashFree s → up_to_slash s ≡ []
up_to_slash-Free [] h = refl
up_to_slash-Free (c ∷ s) h = ground (arith, h, up_to_slash-Free s (ground (arith, h)))

full-append : (s : Bytes) (c : ℕ) (r : Bytes) → is_empty (s ++ (c ∷ r)) ≡ false
full-append [] c r = refl
full-append (x ∷ s) c r = refl

up_to_slash-slash : (s r : Bytes) → up_to_slash (s ++ (slash ∷ r)) ≡ s ++ (slash ∷ up_to_slash r)
up_to_slash-slash [] r = ground arith
up_to_slash-slash (c ∷ s) r = rw (up_to_slash-slash s r, full-append s slash (up_to_slash r)) refl

-- Up to the last slash: all parts but the last, each with a slash behind it.
up_to_slash-join_slash :
    (ps : List Bytes) (p : Bytes)
    → All SlashFree ps
    → SlashFree p
    → up_to_slash (join_slash (ps ++ (p ∷ []))) ≡ ended ps
up_to_slash-join_slash [] p h k = up_to_slash-Free p k
up_to_slash-join_slash (s ∷ []) p h k =
    up_to_slash-slash s p ∙ ap (λ t. s ++ (slash ∷ t)) (up_to_slash-Free p k)
up_to_slash-join_slash (s ∷ t ∷ ps) p h k =
    up_to_slash-slash s (join_slash (t ∷ ps ++ (p ∷ [])))
    ∙ ap (λ r. s ++ (slash ∷ r)) (up_to_slash-join_slash (t ∷ ps) p h.1 k)

split_slash-ended : (ps : List Bytes) → All SlashFree ps → split_slash (ended ps) ≡ ps ++ ([] ∷ [])
split_slash-ended [] h = refl
split_slash-ended (s ∷ ps) h =
    split_slash-slash s (ended ps)
    ∙ ap (λ t. t ++ split_slash (ended ps)) (split_slash-join_slash (s ∷ []) refl (h.0, tt))
    ∙ ap (λ t. s ∷ t) (split_slash-ended ps h.1)

clean_parts-ended : (ps : List Bytes) → All IsName ps → clean_parts (slash ∷ ended ps) ≡ ps
clean_parts-ended ps h =
    ap (λ t. clean_loop true t []) (split_slash-ended ps (names-Free ps h))
    ∙ clean_loop-append true ps ([] ∷ []) []
    ∙ reverse-reverse (clean_loop true ps [])
    ∙ clean_loop-names true ps [] h

up_to_slash-rooted : (b : Bytes) → up_to_slash (slash ∷ b) ≡ slash ∷ up_to_slash b
up_to_slash-rooted b = ground arith

pub dir_of-rooted :
    (ps : List Bytes) (p : Bytes)
    → All IsName ps
    → IsName p
    → dir_of (rooted (ps ++ (p ∷ []))) ≡ rooted ps
unfolding dir_of
dir_of-rooted ps p h k =
    ap clean (
      up_to_slash-rooted (join_slash (ps ++ (p ∷ [])))
      ∙ ap (λ t. slash ∷ t) (up_to_slash-join_slash ps p (names-Free ps h) k.no_slash))
    ∙ clean-rooted (slash ∷ ended ps) refl
    ∙ ap rooted (clean_parts-ended ps h)

-- The parts tell rooted paths apart.
pub rooted-injective :
    (ps qs : List Bytes) → All IsName ps → All IsName qs → rooted ps ≡ rooted qs → ps ≡ qs
rooted-injective ps qs h k e =
    sym (clean_parts-join_slash ps h) ∙ ap clean_parts e ∙ clean_parts-join_slash qs k
