-- ===== src/Config/Preconditions/Derived.antt =====
-- The mountpoint that ResolveMountpoint of internal/config/config.go derives.
use janusfs.Base.{◌≡◌, refl, sym, ◌∙◌, ap, arith, true, false, none, some, All, All-append}
use janusfs.Base.{List, [], ◌∷◌, ◌++◌, is_empty}
use janusfs.Base.Text.{Bytes}
use janusfs.Base.FilePath.{
  slash, clean, clean_parts, clean_loop, split_slash, join, join_slash, is_rooted,
}
use janusfs.Base.FilePath.Parts.{IsName, split_slash-join_slash}
use janusfs.Base.FilePath.Clean.{
  clean-rooted, clean_parts-IsName, clean_loop-append, clean_loop-names, split_slash-slash,
  names-Free,
}
use janusfs.Base.FilePath.Below.{rooted}
use janusfs.Base.FilePath.Parent.{rooted-injective}
use janusfs.Config.{Config}
use janusfs.Config.Preconditions.{Paths, abs_clean, derive, resolve_mountpoint}
use mathlib.Core.List.{reverse, reverse-reverse, append-nil}

-- The loop over a rooted path's names, behind whatever is on the stack.
clean_loop-path :
    (ps stack : List Bytes)
    → All IsName ps
    → clean_loop true (split_slash (join_slash ps)) stack ≡ reverse stack ++ ps
clean_loop-path [] stack h = sym (append-nil (reverse stack))
clean_loop-path (p ∷ ps) stack h =
    ap (λ t. clean_loop true t stack) (split_slash-join_slash (p ∷ ps) refl (names-Free (p ∷ ps) h))
    ∙ clean_loop-names true (p ∷ ps) stack h

rooted-append : (root p : Bytes) → is_rooted root ≡ true → is_rooted (root ++ p) ≡ true
rooted-append [] p h = cc
rooted-append (c ∷ root) p h = ground (arith, h)

-- The parts of the source behind the parts of the mount root.
pub join-parts :
    (root : Bytes) (ps : List Bytes)
    → is_rooted root ≡ true
    → All IsName ps
    → clean_parts (root ++ (slash ∷ rooted ps)) ≡ clean_parts root ++ ps
join-parts root ps h all =
    rw (rooted-append root (slash ∷ rooted ps) h, h, split_slash-slash root (rooted ps))
      (clean_loop-append true (split_slash root) (split_slash (rooted ps)) []
        ∙ clean_loop-path ps (reverse (clean_loop true (split_slash root) [])) all
        ∙ ap (λ t. t ++ ps) (reverse-reverse (clean_loop true (split_slash root) [])))

join-rooted :
    (root : Bytes) (ps : List Bytes)
    → is_rooted root ≡ true
    → All IsName ps
    → join root (rooted ps) ≡ rooted (clean_parts root ++ ps)
unfolding join
join-rooted [] ps h all = cc
join-rooted (c ∷ root) ps h all =
    clean-rooted ((c ∷ root) ++ (slash ∷ rooted ps))
      (rooted-append (c ∷ root) (slash ∷ rooted ps) h)
    ∙ ap rooted (join-parts (c ∷ root) ps h all)

abbrev tail : List Bytes → List Bytes
tail [] = []
tail (p ∷ ps) = ps

append-cancel : (base ps qs : List Bytes) → base ++ ps ≡ base ++ qs → ps ≡ qs
append-cancel [] ps qs e = e
append-cancel (b ∷ base) ps qs e = append-cancel base ps qs (ap tail e)

-- A configuration whose mountpoint is to be derived below an absolute mount root, for a source that
-- absClean yields as the cleaned absolute path `a`.
pub record Derives (fs : Paths) (cfg : Config) (a : Bytes) : Type 0 where
  pub no_mountpoint : is_empty cfg.mountpoint ≡ true
  pub has_root : is_rooted cfg.mount_root ≡ true
  pub has_source : is_empty cfg.src ≡ false
  pub source : abs_clean fs cfg.src ≡ some a
  pub is_absolute : is_rooted a ≡ true
  pub is_clean : clean a ≡ a
  pub makes : fs.make_dir (join cfg.mount_root a) ≡ true

rooted-full : (r : Bytes) → is_rooted r ≡ true → is_empty r ≡ false
rooted-full [] h = cc
rooted-full (c ∷ r) h = refl

resolve_mountpoint-derived :
    (fs : Paths) (cfg : Config) (a : Bytes)
    → Derives fs cfg a
    → resolve_mountpoint fs cfg
      ≡ (record cfg { mountpoint = rooted (clean_parts cfg.mount_root ++ clean_parts a) }, none)
unfolding resolve_mountpoint derive
resolve_mountpoint-derived fs cfg a h =
    let same : a ≡ rooted (clean_parts a) = sym h.is_clean ∙ clean-rooted a h.is_absolute in
    let place : join cfg.mount_root a ≡ rooted (clean_parts cfg.mount_root ++ clean_parts a) =
      ap (join cfg.mount_root) same
      ∙ join-rooted cfg.mount_root (clean_parts a) h.has_root
          (clean_parts-IsName a h.is_absolute) in
    rw (h.no_mountpoint, rooted-full cfg.mount_root h.has_root, h.has_source, h.source, h.makes)
      (ap (λ m. (record cfg { mountpoint = m }, none)) place)

-- Two sources never get the same mountpoint: where ResolveMountpoint derives the mountpoints of both
-- below one absolute mount root, it reports no error, and if the mountpoints are the same then so
-- are the absolute paths of the sources.
pub resolve_mountpoint_unique :
    (fs : Paths) (cfg cfg' : Config) (a a' : Bytes)
    → Derives fs cfg a
    → Derives fs cfg' a'
    → cfg.mount_root ≡ cfg'.mount_root
    → (resolve_mountpoint fs cfg).0.mountpoint ≡ (resolve_mountpoint fs cfg').0.mountpoint
    → ((resolve_mountpoint fs cfg).1 ≡ none) × ((resolve_mountpoint fs cfg').1 ≡ none) × (a ≡ a')
resolve_mountpoint_unique fs cfg cfg' a a' h k one e =
    let d = resolve_mountpoint-derived fs cfg a h in
    let d' = resolve_mountpoint-derived fs cfg' a' k in
    let base = clean_parts cfg.mount_root in
    let base' = clean_parts cfg'.mount_root in
    let names = clean_parts-IsName a h.is_absolute in
    let names' = clean_parts-IsName a' k.is_absolute in
    let root_names = clean_parts-IsName cfg.mount_root h.has_root in
    let root_names' = clean_parts-IsName cfg'.mount_root k.has_root in
    let paths : rooted (base ++ clean_parts a) ≡ rooted (base' ++ clean_parts a') =
      sym (ap (λ r. r.0.mountpoint) d) ∙ e ∙ ap (λ r. r.0.mountpoint) d' in
    let parts : base ++ clean_parts a ≡ base' ++ clean_parts a' =
      rooted-injective (base ++ clean_parts a) (base' ++ clean_parts a')
        (All-append IsName base (clean_parts a) root_names names)
        (All-append IsName base' (clean_parts a') root_names' names') paths in
    let same : clean_parts a ≡ clean_parts a' =
      append-cancel base (clean_parts a) (clean_parts a')
        (parts ∙ ap (λ t. clean_parts t ++ clean_parts a') (sym one)) in
    (
      ap (λ r. r.1) d,
      ap (λ r. r.1) d',
      sym h.is_clean
          ∙ clean-rooted a h.is_absolute
          ∙ ap rooted same
          ∙ sym (clean-rooted a' k.is_absolute)
          ∙ k.is_clean,
    )
