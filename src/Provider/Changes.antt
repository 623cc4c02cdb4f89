-- ===== src/Provider/Changes.antt =====
-- What each operation of internal/provider/provider.go leaves as it is.
use janusfs.Base.{
  ℕ, ◌+◌, ◌<◌, ◌≡◌, refl, ◌∙◌, ap, Option, none, some, Bool-cases, ==_iff, inl, inr, arith,
}
use janusfs.Base.{List, [], ◌∷◌, ltb, ◌==◌}
use janusfs.Base.{Result, ok, fail}
use janusfs.Base.Text.{Bytes}
use janusfs.Provider.Run.{Op}
use janusfs.Provider.{
  ContentKey, Entry, RamCache, find_path, remove_path, remove_elem, set_entry, touch_locked, detach,
  new_entry, start_rebuild, zero_bytes, release, evict_loop, evict_locked, publish, rebuild_locked,
  invalidate_found, invalidate_locked, invalidate_paths, invalidate_all, backwards,
}
use janusfs.Provider.Later.{
  Masked, EntryOk, Later, Later-trans, Later-same, Later-if, remove_path-Inside, Inside-moved,
}

-- Overwriting an entry by one of the same signature.
set_entry-sigs :
    (heap : ℕ → Entry) (i j : ℕ) (e : Entry)
    → e.pattern_sig ≡ (heap i).pattern_sig
    → (set_entry heap i e j).pattern_sig ≡ (heap j).pattern_sig
unfolding set_entry
set_entry-sigs heap i j e same = elim (Bool-cases (i == j)) [
  | inl s ↦ rw s (same ∙ ap (λ k. (heap k).pattern_sig) ((==_iff i j).0 s))
  | inr s ↦ rw s refl
]

set_entry-paths :
    (heap : ℕ → Entry) (i j : ℕ) (e : Entry)
    → e.key.path ≡ (heap i).key.path
    → (set_entry heap i e j).key.path ≡ (heap j).key.path
unfolding set_entry
set_entry-paths heap i j e same = elim (Bool-cases (i == j)) [
  | inl s ↦ rw s (same ∙ ap (λ k. (heap k).key.path) ((==_iff i j).0 s))
  | inr s ↦ rw s refl
]

set_entry-safe :
    {log : List Op} (heap : ℕ → Entry) (i : ℕ) (e : Entry)
    → EntryOk log e
    → ((j : ℕ) → EntryOk log (heap j))
    → (j : ℕ) → EntryOk log (set_entry heap i e j)
unfolding set_entry
set_entry-safe heap i e h all j = elim (Bool-cases (i == j)) [
  | inl s ↦ rw s h
  | inr s ↦ rw s (all j)
]

pub touch_locked-Later : {log : List Op} (i : ℕ) (c : RamCache) → Later log c (touch_locked i c)
unfolding touch_locked
touch_locked-Later i c = record {
  grows = omega arith;
  sigs = λ j h. refl;
  paths = λ j h. refl;
  safe = λ h. h;
  inside = λ h. h;
}

pub detach-Later : {log : List Op} (i : ℕ) (c : RamCache) → Later log c (detach i c)
unfolding detach
detach-Later i c = record {
  grows = omega arith;
  sigs = λ j h. refl;
  paths = λ j h. refl;
  safe = λ h. h;
  inside = λ h. h;
}

zero_bytes-twice : (b : Bytes) → zero_bytes b ≡ zero_bytes (zero_bytes b)
unfolding zero_bytes
zero_bytes-twice [] = refl
zero_bytes-twice (x ∷ b) = ap (λ t. 0 ∷ t) (zero_bytes-twice b)

release-Later : {log : List Op} (i : ℕ) (c : RamCache) → Later log c (release i c)
unfolding release
release-Later i c = record {
  grows = omega arith;
  sigs = λ j h. set_entry-sigs c.heap i j _ refl;
  paths = λ j h. set_entry-paths c.heap i j _ refl;
  safe = set_entry-safe c.heap i _ (inl (zero_bytes-twice (c.heap i).bytes));
  inside =
      Inside-moved c (release i c) c.entries (omega arith)
        (λ j h. set_entry-paths c.heap i j _ refl);
}

-- A new entry leaves those that were there.
new_entry-same :
    (c : RamCache) (j : ℕ) (e : Entry) → j < c.made → set_entry c.heap c.made e j ≡ c.heap j
unfolding set_entry
new_entry-same c j e h = elim (Bool-cases (c.made == j)) [
  | inl s ↦ absurd (omega (arith, (==_iff c.made j).0 s, h))
  | inr s ↦ rw s refl
]

pub new_entry-there : (heap : ℕ → Entry) (i : ℕ) (e : Entry) → set_entry heap i e i ≡ e
unfolding set_entry
new_entry-there heap i e = rw ((==_iff i i).1 refl) refl

pub start_rebuild-Later :
    {log : List Op} (key : ContentKey) (sig : Bytes) (stale : Option ℕ) (c : RamCache)
    → Later log c (start_rebuild key sig stale c).0
unfolding start_rebuild zero_bytes
start_rebuild-Later key sig stale c =
    let paths : (j : ℕ)
        → j < c.made
        → (set_entry c.heap c.made (new_entry key sig) j).key.path ≡ (c.heap j).key.path =
      λ j h. ap (λ (e : Entry). e.key.path) (new_entry-same c j (new_entry key sig) h) in
    record {
      grows = omega arith;
      sigs = λ j h. ap (λ (e : Entry). e.pattern_sig) (new_entry-same c j (new_entry key sig) h);
      paths = paths;
      safe = set_entry-safe c.heap c.made (new_entry key sig) (inl refl);
      inside = λ h. (
        (
          omega arith,
          ap (λ (e : Entry). e.key.path) (new_entry-there c.heap c.made (new_entry key sig)),
        ),
        Inside-moved c (start_rebuild key sig stale c).0 (remove_path key.path c.entries)
            (omega arith) paths (remove_path-Inside c key.path c.entries h),
      );
    }

-- An entry that leaves the map and the list.
drop-Later :
    {log : List Op} (p : Bytes) (lru : List ℕ) (c : RamCache)
    → Later log c (record c { entries = remove_path p c.entries; lru = lru })
drop-Later p lru c = record {
  grows = omega arith;
  sigs = λ j h. refl;
  paths = λ j h. refl;
  safe = λ h. h;
  inside = remove_path-Inside c p c.entries;
}

evict_loop-Later : {log : List Op} (is : List ℕ) (c : RamCache) → Later log c (evict_loop is c)
unfolding evict_loop
evict_loop-Later [] c = Later-same c
evict_loop-Later (i ∷ is) c =
    Later-if (ltb (c.max_bytes + c.bytes_out) c.bytes_in)
      (Later-if (c.heap i).built
        (Later-trans
          (Later-trans (drop-Later (c.heap i).key.path (remove_elem i c.lru) c) (release-Later i _))
          (evict_loop-Later is _))
        (evict_loop-Later is c))
      (Later-same c)

publish-Later :
    {log : List Op} (i : ℕ) (out : Result Bytes) (c : RamCache)
    → ((b : Bytes) → out ≡ ok b → Masked log (c.heap i).key.path (c.heap i).pattern_sig b)
    → Later log c (publish i out c)
unfolding publish
publish-Later i (ok b) c h = record {
  grows = omega arith;
  sigs = λ j lt. set_entry-sigs c.heap i j _ refl;
  paths = λ j lt. set_entry-paths c.heap i j _ refl;
  safe = set_entry-safe c.heap i _ (h b refl);
  inside =
      Inside-moved c (publish i (ok b) c) c.entries (omega arith)
        (λ j h. set_entry-paths c.heap i j _ refl);
}
publish-Later i (fail why) c h = record {
  grows = omega arith;
  sigs = λ j lt. set_entry-sigs c.heap i j _ refl;
  paths = λ j lt. set_entry-paths c.heap i j _ refl;
  safe = λ all. set_entry-safe c.heap i _ (all i) all;
  inside =
      Inside-moved c (publish i (fail why) c) c.entries (omega arith)
        (λ j h. set_entry-paths c.heap i j _ refl);
}

pub rebuild_locked-Later :
    {log : List Op} (i : ℕ) (out : Result Bytes) (c : RamCache)
    → ((b : Bytes) → out ≡ ok b → Masked log (c.heap i).key.path (c.heap i).pattern_sig b)
    → Later log c (rebuild_locked i out c)
unfolding rebuild_locked evict_locked
rebuild_locked-Later i out c h =
    Later-trans (publish-Later i out c h) (evict_loop-Later (backwards (publish i out c).lru) _)

invalidate_found-Later :
    {log : List Op} (p : Bytes) (o : Option ℕ) (c : RamCache) → Later log c (invalidate_found p o c)
unfolding invalidate_found
invalidate_found-Later p none c = Later-same c
invalidate_found-Later p (some i) c =
    let left = drop-Later p (remove_elem i c.lru) c in
    Later-if (c.heap i).built (Later-trans left (release-Later i _)) left

pub invalidate_locked-Later :
    {log : List Op} (p : Bytes) (c : RamCache) → Later log c (invalidate_locked p c)
unfolding invalidate_locked
invalidate_locked-Later p c = invalidate_found-Later p (find_path p c.entries) c

invalidate_paths-Later :
    {log : List Op} (es : List (Bytes × ℕ)) (c : RamCache) → Later log c (invalidate_paths es c)
unfolding invalidate_paths
invalidate_paths-Later [] c = Later-same c
invalidate_paths-Later ((p, i) ∷ es) c =
    Later-trans (invalidate_locked-Later p c) (invalidate_paths-Later es _)

pub invalidate_all-Later : {log : List Op} (c : RamCache) → Later log c (invalidate_all c)
unfolding invalidate_all
invalidate_all-Later c = invalidate_paths-Later c.entries c
