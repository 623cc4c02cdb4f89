-- ===== src/Mount/Links.antt =====
-- Readlink of internal/mount/janus_node.go: what it tells, and where that leads.
use janusfs.Base.{
  ◌≡◌, refl, sym, ◌∙◌, ap, Bool, true, false, ◌&&◌, ◌||◌, Bool-cases, inl, inr, not, List, [], ◌∷◌,
  ◌++◌,
}
use janusfs.Base.{if◌then◌else◌}
use janusfs.Base.Text.{Bytes, eq, has_prefix}
use janusfs.Base.FilePath.{slash, join, dir_of, is_rooted, clean, clean_parts}
use janusfs.Base.FilePath.Clean.{begins_with, clean-rooted, clean_parts-IsName}
use janusfs.Base.FilePath.Below.{rooted, below-begins_with, dir_of-is_rooted, join-is_rooted}
use janusfs.Base.FilePath.Parts.{IsName}
use janusfs.Rules.{Decision, allowed, masked, hidden}
use janusfs.Engine.Trusted.{Trusted}
use janusfs.Mount.{
  eacces, enoent, deny_hidden, gate, readlink, Yield, failed, finished, opened, text, names,
  Outside, Mount, JanusNode, observe, resolve_node,
}
use janusfs.Mount.Reply.{Response, refused, yielded, forward, escapes_root, checked_link}
use janusfs.Mount.Ops.{readlink_gated, readlink_node}
use janusfs.Mount.Requests.{is_visible, of_node}
use janusfs.Mount.Gate.{seen, ask-Asked}
use janusfs.Base.{All}
use mathlib.Core.Path.{subst}

-- Where the text of a symlink leads, from the directory that the link stands in.
abbrev pub leads_to : Bytes → Bytes → Bytes
leads_to link_path t = if is_rooted t then t else join (dir_of link_path) t

leads_to-is_rooted :
    (link_path t : Bytes) → is_rooted link_path ≡ true → is_rooted (leads_to link_path t) ≡ true
leads_to-is_rooted link_path t h = elim (Bool-cases (is_rooted t)) [
  | inl e ↦ rw (e, e) refl
  | inr e ↦ rw e (join-is_rooted (dir_of link_path) t (dir_of-is_rooted link_path h))
]

de_morgan : (a b : Bool) → (not a && not b) ≡ not (a || b)
de_morgan true b = refl
de_morgan false b = refl

-- The test on the text of two paths, against their parts.
outside-begins_with :
    (p r : Bytes) (ps : List Bytes) (q : Bytes) (qs : List Bytes)
    → p ≡ rooted ps
    → r ≡ rooted (q ∷ qs)
    → All IsName ps
    → All IsName (q ∷ qs)
    → (not (eq p r) && not (has_prefix p (r ++ (slash ∷ [])))) ≡ not (begins_with ps (q ∷ qs))
outside-begins_with p r ps q qs e e' h k =
    rw (e, e')
      (de_morgan (eq (rooted ps) (rooted (q ∷ qs))) _ ∙ ap not (below-begins_with ps q qs h k))

-- The test of escapesRoot is exact for every root but `/`: a symlink leads out if the parts of the
-- place it leads to do not begin with the parts of the root.
escapes_root-begins_with :
    (root link_path t q : Bytes) (qs : List Bytes)
    → is_rooted root ≡ true
    → is_rooted link_path ≡ true
    → clean_parts root ≡ q ∷ qs
    → escapes_root root link_path t
      ≡ not (begins_with (clean_parts (leads_to link_path t)) (clean_parts root))
unfolding escapes_root
escapes_root-begins_with root link_path t q qs rooted_root rooted_link parts =
    let rooted_to = leads_to-is_rooted link_path t rooted_link in
    outside-begins_with (clean (leads_to link_path t)) (clean root) _ q qs
      (clean-rooted (leads_to link_path t) rooted_to)
      (clean-rooted root rooted_root ∙ ap rooted parts)
      (clean_parts-IsName (leads_to link_path t) rooted_to)
      (subst (All IsName) parts (clean_parts-IsName root rooted_root))
    ∙ ap (λ ps. not (begins_with (clean_parts (leads_to link_path t)) ps)) (sym parts)

-- What a caller is told of a symlink below the root `ps`.
abbrev pub told : List Bytes → Bytes → Yield → Response
told ps link_path (text t) =
    if begins_with (clean_parts (leads_to link_path t)) ps then yielded (text t) else refused enoent
told ps link_path (failed e) = yielded (failed e)
told ps link_path finished = yielded finished
told ps link_path (opened b) = yielded (opened b)
told ps link_path (names ns) = yielded (names ns)

if-not {ℓ} : {A : Type ℓ} (b : Bool) (x y : A) → (if not b then x else y) ≡ (if b then y else x)
if-not true x y = refl
if-not false x y = refl

checked_link-told :
    (root link_path q : Bytes) (qs : List Bytes) (y : Yield)
    → is_rooted root ≡ true
    → is_rooted link_path ≡ true
    → clean_parts root ≡ q ∷ qs
    → checked_link root link_path y ≡ told (clean_parts root) link_path y
unfolding checked_link
checked_link-told root link_path q qs (text t) h k parts =
    rw (escapes_root-begins_with root link_path t q qs h k parts)
      (if-not (begins_with (clean_parts (leads_to link_path t)) (clean_parts root)) _ _)
checked_link-told root link_path q qs (failed e) h k parts = refl
checked_link-told root link_path q qs finished h k parts = refl
checked_link-told root link_path q qs (opened b) h k parts = refl
checked_link-told root link_path q qs (names ns) h k parts = refl

module _ {W : Type 0} (out : Outside W) where
  -- What Readlink yields by the verdict on the link.
  abbrev pub link_read : Bool → JanusNode → W → W × Response
  link_read false n w = (w, refused eacces)
  link_read true n w = (
    (out.loopback (readlink n.rel_path) w).0,
    told (clean_parts out.root_path) (join out.root_path n.rel_path)
        (out.loopback (readlink n.rel_path) w).1,
  )

  readlink_gated-read :
      (d : Decision) (n : JanusNode) (q : Bytes) (qs : List Bytes) (m : Mount W)
      → is_rooted out.root_path ≡ true
      → clean_parts out.root_path ≡ q ∷ qs
      → seen out (readlink_gated out (gate deny_hidden d) n d m)
        ≡ link_read (is_visible d) n m.world
  unfolding readlink_gated gate observe forward
  readlink_gated-read hidden n q qs m h parts = refl
  readlink_gated-read masked n q qs m h parts =
      ap (λ r. ((out.loopback (readlink n.rel_path) m.world).0, r))
        (checked_link-told out.root_path (join out.root_path n.rel_path) q qs _ h
          (join-is_rooted out.root_path n.rel_path h) parts)
  readlink_gated-read allowed n q qs m h parts =
      ap (λ r. ((out.loopback (readlink n.rel_path) m.world).0, r))
        (checked_link-told out.root_path (join out.root_path n.rel_path) q qs _ h
          (join-is_rooted out.root_path n.rel_path h) parts)

  -- Where the root is an absolute path other than `/` and the cache of the engine agrees with the
  -- rules: Readlink of a hidden link is refused with EACCES and asks the file system nothing. Of
  -- any other it yields the link's text if the parts of the place it leads to begin with the parts
  -- of the root, and ENOENT if they do not.
  pub readlink_node-told :
      (n : JanusNode) (q : Bytes) (qs : List Bytes) (m : Mount W)
      → is_rooted out.root_path ≡ true
      → clean_parts out.root_path ≡ q ∷ qs
      → Trusted m.engine
      → seen out (readlink_node out n m)
        ≡ link_read (is_visible (of_node out m.engine.rs n)) n m.world
  unfolding readlink_node resolve_node
  readlink_node-told n q qs m h parts trusted =
      let a = ask-Asked out n.rel_path n.is_dir m trusted in
      readlink_gated-read _ n q qs _ h parts
      ∙ ap (λ d. link_read (is_visible d) n m.world) a.verdict
