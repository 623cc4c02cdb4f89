-- ===== src/Provider/Safe.antt =====
-- What a read of internal/provider/provider.go has decided when it lets the lock go, and that it
-- still holds later.
use janusfs.Base.{
  ℕ, ◌≡◌, refl, sym, ap, ◌∙◌, true, ◌&&◌, Option, none, some, Bool-cases, inl, inr, arith,
}
use janusfs.Base.{List, []}
use janusfs.Base.Text.{Bytes, eq, eq→≡}
use janusfs.Patterns.{Pattern}
use janusfs.Provider.Signature.{pattern_signature, matches_pattern_sig}
use janusfs.Provider.Signature.Laws.{matches_pattern_sig-signature}
use janusfs.Provider.{
  ContentKey, Entry, RamCache, new_entry, Pending, hit, wait, begun, find_path, present, detach,
  stale_prev, start_rebuild, read_found, read_locked, key_eq,
}
use janusfs.Provider.Run.{Op}
use janusfs.Provider.Later.{HasPath, Inside, Later, Later-trans, find_path-Inside}
use janusfs.Provider.Changes.{
  new_entry-there, touch_locked-Later, detach-Later, start_rebuild-Later,
}

-- The entry was made, for that path and from patterns of that signature.
pub record HasSig (c : RamCache) (path sig : Bytes) (i : ℕ) : Type 0 where
  pub there : HasPath c path i
  pub same : (c.heap i).pattern_sig ≡ sig

abbrev pub StaleOk : RamCache → Bytes → Bytes → Option ℕ → Type 0
StaleOk c path sig none = Unit
StaleOk c path sig (some i) = HasSig c path sig i

-- What a read has decided: the entries are for its path, and their signature is that of its patterns
-- or will be compared with it.
abbrev pub PendingOk : RamCache → Bytes → Bytes → Pending → Type 0
PendingOk c path sig (hit i) = HasSig c path sig i
PendingOk c path sig (wait i s) = HasPath c path i × (s ≡ sig)
PendingOk c path sig (begun i stale s) = HasSig c path sig i × StaleOk c path sig stale × (s ≡ sig)

HasPath-Later :
    {log : List Op} {c c' : RamCache} {path : Bytes} (i : ℕ)
    → Later log c c'
    → HasPath c path i
    → HasPath c' path i
HasPath-Later i l (made, named) = (omega (arith, made, l.grows), l.paths i made ∙ named)

pub HasSig-Later :
    {log : List Op} {c c' : RamCache} {path sig : Bytes} (i : ℕ)
    → Later log c c'
    → HasSig c path sig i
    → HasSig c' path sig i
HasSig-Later i l h = record {
  there = HasPath-Later i l h.there;
  same = l.sigs i h.there.0 ∙ h.same;
}

StaleOk-Later :
    {log : List Op} {c c' : RamCache} (path sig : Bytes) (o : Option ℕ)
    → Later log c c'
    → StaleOk c path sig o
    → StaleOk c' path sig o
StaleOk-Later path sig none l h = tt
StaleOk-Later path sig (some i) l h = HasSig-Later i l h

pub PendingOk-Later :
    {log : List Op} {c c' : RamCache} (path sig : Bytes) (p : Pending)
    → Later log c c'
    → PendingOk c path sig p
    → PendingOk c' path sig p
PendingOk-Later path sig (hit i) l h = HasSig-Later i l h
PendingOk-Later path sig (wait i s) l (there, same) = (HasPath-Later i l there, same)
PendingOk-Later path sig (begun i stale s) l (new, old, same) =
    (HasSig-Later i l new, StaleOk-Later path sig stale l old, same)

start_rebuild-Pending :
    (key : ContentKey) (sig : Bytes) (stale : Option ℕ) (c : RamCache)
    → StaleOk c key.path sig stale
    → PendingOk (start_rebuild key sig stale c).0 key.path sig (start_rebuild key sig stale c).1
unfolding start_rebuild
start_rebuild-Pending key sig stale c h =
    let there = new_entry-there c.heap c.made (new_entry key sig) in
    (
      record {
        there = (omega arith, ap (λ (e : Entry). e.key.path) there);
        same = ap (λ (e : Entry). e.pattern_sig) there;
      },
      StaleOk-Later {log = []} key.path sig stale (start_rebuild-Later key sig stale c) h,
      refl,
    )

stale_prev-Ok :
    (i : ℕ) (path sig : Bytes) (c : RamCache)
    → HasPath c path i
    → StaleOk c path sig (stale_prev i sig c)
unfolding stale_prev
stale_prev-Ok i path sig c there =
    elim (Bool-cases ((c.heap i).built && eq (c.heap i).pattern_sig sig)) [
      | inr no_use ↦ rw no_use tt
      | inl use_it ↦ rw use_it (record {
        there = there;
        same = eq→≡ (c.heap i).pattern_sig sig (ground (arith, use_it));
      })
    ]

present-Ok :
    {log : List Op} (i : ℕ) (path : Bytes) (pats : List Pattern) (c : RamCache)
    → HasPath c path i
    → Later log c (present i pats c).0
      × PendingOk (present i pats c).0 path (pattern_signature pats) (present i pats c).1
unfolding present
present-Ok i path pats c there =
    elim (Bool-cases ((c.heap i).built && matches_pattern_sig (c.heap i).pattern_sig pats)) [
      | inr waits ↦ rw waits (
        touch_locked-Later i c,
        (HasPath-Later {log = []} i (touch_locked-Later i c) there, refl),
      )
      | inl hits ↦
          let matched : matches_pattern_sig (c.heap i).pattern_sig pats ≡ true =
            ground (arith, hits) in
          rw hits (
            touch_locked-Later i c,
            HasSig-Later {log = []} i (touch_locked-Later i c) (record {
              there = there;
              same =
                  eq→≡ _ _
                    (sym (matches_pattern_sig-signature (c.heap i).pattern_sig pats) ∙ matched);
            }),
          )
    ]

read_found-Ok :
    {log : List Op} (key : ContentKey) (pats : List Pattern) (c : RamCache) (o : Option ℕ)
    → Inside c c.entries
    → find_path key.path c.entries ≡ o
    → Later log c (read_found key pats c o).0
      × PendingOk
          (read_found key pats c o).0
          key.path
          (pattern_signature pats)
          (read_found key pats c o).1
unfolding read_found
read_found-Ok key pats c none ins e = (
  start_rebuild-Later key (pattern_signature pats) none c,
  start_rebuild-Pending key (pattern_signature pats) none c tt,
)
read_found-Ok key pats c (some i) ins e =
    let there = find_path-Inside c i key.path c.entries ins e in
    let sig = pattern_signature pats in
    elim (Bool-cases (key_eq (c.heap i).key key)) [
      | inl same ↦ rw same (present-Ok i key.path pats c there)
      | inr stale ↦ rw stale (
        Later-trans (detach-Later i c)
            (start_rebuild-Later key sig (stale_prev i sig c) (detach i c)),
        start_rebuild-Pending key sig (stale_prev i sig c) (detach i c) (
            StaleOk-Later {log = []} key.path sig (stale_prev i sig c) (detach-Later i c)
              (stale_prev-Ok i key.path sig c there)),
      )
    ]

-- `ReadAt` under the lock.
pub read_locked-Ok :
    {log : List Op} (key : ContentKey) (pats : List Pattern) (c : RamCache)
    → Inside c c.entries
    → Later log c (read_locked key pats c).0
      × PendingOk
          (read_locked key pats c).0
          key.path
          (pattern_signature pats)
          (read_locked key pats c).1
unfolding read_locked
read_locked-Ok key pats c ins = read_found-Ok key pats c (find_path key.path c.entries) ins refl
