-- ===== src/Config/Preconditions/Disjoint.antt =====
-- Validate of internal/config/config.go lets a mount through exactly if its two directories are fit
-- for it and apart.
use janusfs.Base.{
  ◌≡◌, refl, sym, ◌∙◌, ap, arith, Bool, true, false, ◌||◌, ◌&&◌, not, Bool-cases, inl, inr, Option,
  none, some, All,
}
use janusfs.Base.{List, [], ◌∷◌, ◌++◌, is_empty}
use janusfs.Base.Text.{Bytes, eq, eq→≡, eq_refl, has_prefix}
use janusfs.Base.FilePath.{slash, clean, clean_parts, is_rooted}
use janusfs.Base.FilePath.Parts.{IsName}
use janusfs.Base.FilePath.Clean.{
  begins_with, has_prefix-begins_with, clean-rooted, clean_parts-IsName,
}
use janusfs.Base.FilePath.Parent.{rooted-injective}
use janusfs.Base.FilePath.Below.{rooted}
use janusfs.Config.{Config}
use janusfs.Config.Preconditions.{
  Paths, Stat, missing, stat_failed, found, FirstEntry, open_failed, end_of_directory, read_failed,
  entry, abs_clean, paths_overlap, is_empty_dir, check_overlap, check_empty, check_mountpoint,
  check_source, check_paths, validate,
}

begins_with-same : (ps : List Bytes) → begins_with ps ps ≡ true
begins_with-same [] = refl
begins_with-same (p ∷ ps) = ground (arith, eq_refl p, begins_with-same ps)

-- The one lies on or under the other, by their parts.
abbrev pub nested : List Bytes → List Bytes → Bool
nested ps qs = begins_with qs ps || begins_with ps qs

-- A cleaned absolute path that is not the root.
pub record IsBelowRoot (p : Bytes) : Type 0 where
  pub is_absolute : is_rooted p ≡ true
  pub is_clean : clean p ≡ p
  pub not_root : is_empty (clean_parts p) ≡ false

overlap-parts :
    (p : Bytes) (ps : List Bytes) (q : Bytes) (qs : List Bytes)
    → All IsName (p ∷ ps)
    → All IsName (q ∷ qs)
    → paths_overlap (rooted (p ∷ ps)) (rooted (q ∷ qs)) ≡ nested (p ∷ ps) (q ∷ qs)
unfolding paths_overlap
overlap-parts p ps q qs h k = elim (Bool-cases (eq (rooted (p ∷ ps)) (rooted (q ∷ qs)))) [
  | inr e ↦ rw e (
      ap (λ b. b || has_prefix (rooted (p ∷ ps) ++ (slash ∷ [])) (rooted (q ∷ qs) ++ (slash ∷ [])))
        (has_prefix-begins_with q p qs ps k h)
      ∙ ap (λ b. begins_with (q ∷ qs) (p ∷ ps) || b) (has_prefix-begins_with p q ps qs h k))
  | inl e ↦
      let same = rooted-injective (p ∷ ps) (q ∷ qs) h k (eq→≡ _ _ e) in
      rw e (sym (ap (λ t. nested t (q ∷ qs)) same ∙ ap (λ b. b || b) (begins_with-same (q ∷ qs))))
]

overlap-split :
    (a b : Bytes) (ps qs : List Bytes)
    → is_empty ps ≡ false
    → is_empty qs ≡ false
    → a ≡ rooted ps
    → b ≡ rooted qs
    → All IsName ps
    → All IsName qs
    → paths_overlap a b ≡ nested ps qs
overlap-split a b [] qs h k e e' all all' = cc
overlap-split a b (p ∷ ps) [] h k e e' all all' = cc
overlap-split a b (p ∷ ps) (q ∷ qs) h k e e' all all' =
    ap (λ t. paths_overlap t b) e
    ∙ ap (paths_overlap (rooted (p ∷ ps))) e'
    ∙ overlap-parts p ps q qs all all'

-- For cleaned absolute paths other than `/`: pathsOverlap holds exactly if the parts of the one begin
-- with those of the other.
pub paths_overlap-nested :
    (a b : Bytes)
    → IsBelowRoot a
    → IsBelowRoot b
    → paths_overlap a b ≡ nested (clean_parts a) (clean_parts b)
paths_overlap-nested a b h k =
    overlap-split a b (clean_parts a) (clean_parts b) h.not_root k.not_root
      (sym h.is_clean ∙ clean-rooted a h.is_absolute)
      (sym k.is_clean ∙ clean-rooted b k.is_absolute) (clean_parts-IsName a h.is_absolute)
      (clean_parts-IsName b k.is_absolute)

abbrev pub finds_nothing {ℓ} : {A : Type ℓ} → Option A → Bool
finds_nothing none = true
finds_nothing (some x) = false

abbrev pub is_directory_there : Stat → Bool
is_directory_there missing = false
is_directory_there stat_failed = false
is_directory_there (found b) = b

abbrev pub is_vacant : FirstEntry → Bool
is_vacant open_failed = false
is_vacant end_of_directory = true
is_vacant read_failed = false
is_vacant entry = false

check_overlap-none : (a b : Bytes) → finds_nothing (check_overlap a b) ≡ not (paths_overlap a b)
unfolding check_overlap
check_overlap-none a b = elim (Bool-cases (paths_overlap a b)) [
  | inl e ↦ rw e refl
  | inr e ↦ rw e refl
]

check_mountpoint-none :
    (st : Stat) (first : FirstEntry) (a b : Bytes)
    → finds_nothing (check_mountpoint st first a b)
      ≡ (is_directory_there st && (is_vacant first && not (paths_overlap a b)))
unfolding check_mountpoint check_empty is_empty_dir
check_mountpoint-none missing first a b = refl
check_mountpoint-none stat_failed first a b = refl
check_mountpoint-none (found false) first a b = refl
check_mountpoint-none (found true) open_failed a b = refl
check_mountpoint-none (found true) end_of_directory a b = check_overlap-none a b
check_mountpoint-none (found true) read_failed a b = refl
check_mountpoint-none (found true) entry a b = refl

check_source-none :
    (st st' : Stat) (first : FirstEntry) (a b : Bytes)
    → finds_nothing (check_source st st' first a b) ≡ (
        is_directory_there st
        && (is_directory_there st' && (is_vacant first && not (paths_overlap a b))))
unfolding check_source
check_source-none missing st' first a b = refl
check_source-none stat_failed st' first a b = refl
check_source-none (found false) st' first a b = refl
check_source-none (found true) st' first a b = check_mountpoint-none st' first a b

-- Where absClean yields paths other than `/` for the source and the mountpoint: Validate finds
-- nothing exactly if both were given, both are directories, the mountpoint has no entry, and
-- neither lies on or under the other, told by their parts.
pub validate-disjoint :
    (fs : Paths) (cfg : Config) (a b : Bytes)
    → abs_clean fs cfg.src ≡ some a
    → abs_clean fs cfg.mountpoint ≡ some b
    → IsBelowRoot a
    → IsBelowRoot b
    → finds_nothing (validate fs cfg) ≡ (
        not (is_empty cfg.src)
        && (not (is_empty cfg.mountpoint)
            && (is_directory_there (fs.stat a)
                && (is_directory_there (fs.stat b)
                    && (is_vacant (fs.first_entry b)
                        && not (nested (clean_parts a) (clean_parts b)))))))
unfolding validate check_paths
validate-disjoint fs cfg a b e e' h k = elim (Bool-cases (is_empty cfg.src)) [
  | inl none_given ↦ rw none_given refl
  | inr src ↦ elim (Bool-cases (is_empty cfg.mountpoint)) [
    | inl none_given ↦ rw (src, none_given) refl
    | inr mount ↦
        rw (src, mount, e, e')
          (check_source-none (fs.stat a) (fs.stat b) (fs.first_entry b) a b
            ∙ ap
                (λ o.
                  is_directory_there (fs.stat a)
                  && (is_directory_there (fs.stat b) && (is_vacant (fs.first_entry b) && not o)))
                (paths_overlap-nested a b h k))
  ]
]
