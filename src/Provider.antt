-- ===== src/Provider.antt =====
-- internal/provider/provider.go: the cache of redacted bytes. An entry is a number into the heap,
-- as goroutines go on with an entry that the cache has let go. Each function is what runs under one
-- lock; `Provider.Run` puts them together.
pub mod Signature
pub mod Serve
pub mod Run
pub mod Later
pub mod Changes
pub mod Safe
pub mod Steps
pub mod Reads
pub mod Oversize
pub mod Alone
use janusfs.Base.{ℕ, suc, ◌+◌, Bool, true, false, ◌&&◌, not, Option, none, some}
use janusfs.Base.{List, [], ◌∷◌, ◌++◌, ltb, leb, ◌==◌, if◌then◌else◌, length, take, drop, map}
use janusfs.Base.{Result, ok, fail, Failure}
use janusfs.Base.Text.{Bytes, eq}
use janusfs.Patterns.{Pattern}
use janusfs.Provider.Signature.{pattern_signature, matches_pattern_sig}

pub record ContentKey : Type 0 where
  pub path : Bytes
  pub mtime_ns : ℕ
  pub size : ℕ
  pub inode : ℕ
  pub gen : ℕ

-- `==` on keys.
unfoldable pub key_eq : ContentKey → ContentKey → Bool
key_eq j k =
    eq j.path k.path
    && j.mtime_ns == k.mtime_ns
    && j.size == k.size
    && j.inode == k.inode
    && j.gen == k.gen

-- `entry`; its place in the list is kept in `lru`, and `ready` is closed when it is `built`.
pub record Entry : Type 0 where
  pub key : ContentKey
  pub pattern_sig : Bytes
  pub built : Bool
  pub bytes : Bytes
  pub rebuild_err : Option Failure

-- `RamCache`: curBytes is `bytes_in` less `bytes_out`, an int64 of any sign. The entries below
-- `made` are those made so far.
pub record RamCache : Type 0 where
  pub heap : ℕ → Entry
  pub made : ℕ
  pub entries : List (Bytes × ℕ)
  pub lru : List ℕ
  pub bytes_in : ℕ
  pub bytes_out : ℕ
  pub max_bytes : ℕ
  pub max_file : ℕ
  pub redact_buffer_max : ℕ
  pub hits : ℕ
  pub misses : ℕ
  pub rebuilds : ℕ

unfoldable pub find_path : Bytes → List (Bytes × ℕ) → Option ℕ
find_path p [] = none
find_path p ((q, i) ∷ es) = let rest = find_path p es in if eq p q then some i else rest

-- `delete(c.entries, path)`.
unfoldable pub remove_path : Bytes → List (Bytes × ℕ) → List (Bytes × ℕ)
remove_path p [] = []
remove_path p ((q, i) ∷ es) = let rest = remove_path p es in if eq p q then rest else (q, i) ∷ rest

-- `c.lru.Remove(elem)`, which does nothing for an element that is gone.
unfoldable pub remove_elem : ℕ → List ℕ → List ℕ
remove_elem i [] = []
remove_elem i (j ∷ js) = let rest = remove_elem i js in if i == j then rest else j ∷ rest

unfoldable pub is_listed : ℕ → List ℕ → Bool
is_listed i [] = false
is_listed i (j ∷ js) = let rest = is_listed i js in if i == j then true else rest

unfoldable pub set_entry : (ℕ → Entry) → ℕ → Entry → ℕ → Entry
set_entry heap i e j = if i == j then e else heap j

unfoldable pub touch_locked : ℕ → RamCache → RamCache
unfolding remove_elem is_listed
touch_locked i c = record c {
  hits = suc c.hits;
  lru = if is_listed i c.lru then i ∷ remove_elem i c.lru else c.lru;
}

-- What `ReadAt` has decided when it lets the lock go.
pub data Pending : Type 0 where
  hit : ℕ → Pending
  wait : ℕ → Bytes → Pending
  begun : ℕ → Option ℕ → Bytes → Pending

-- `key.size > c.maxFile`: the read goes past the cache.
unfoldable pub bypasses : ContentKey → RamCache → Bool
bypasses key c = ltb c.max_file key.size

-- An entry with the key is there.
unfoldable pub present : ℕ → List Pattern → RamCache → RamCache × Pending
unfolding touch_locked matches_pattern_sig pattern_signature
present i pats c =
    let e = c.heap i in
    if e.built && matches_pattern_sig e.pattern_sig pats
    then (touch_locked i c, hit i)
    else (touch_locked i c, wait i (pattern_signature pats))

-- A stale entry leaves the list, and its bytes the sum.
unfoldable pub detach : ℕ → RamCache → RamCache
unfolding remove_elem
detach i c = record c {
  lru = remove_elem i c.lru;
  bytes_out = if (c.heap i).built then c.bytes_out + length (c.heap i).bytes else c.bytes_out;
}

-- The stale entry whose bytes may be served once more.
unfoldable pub stale_prev : ℕ → Bytes → RamCache → Option ℕ
stale_prev i sig c = if (c.heap i).built && eq (c.heap i).pattern_sig sig then some i else none

abbrev pub new_entry : ContentKey → Bytes → Entry
new_entry key sig = record {
  key = key;
  pattern_sig = sig;
  built = false;
  bytes = [];
  rebuild_err = none;
}

unfoldable pub start_rebuild : ContentKey → Bytes → Option ℕ → RamCache → RamCache × Pending
unfolding set_entry remove_path
start_rebuild key sig stale c = (
  record c {
    heap = set_entry c.heap c.made (new_entry key sig);
    made = suc c.made;
    entries = (key.path, c.made) ∷ remove_path key.path c.entries;
    lru = c.made ∷ c.lru;
    misses = suc c.misses;
    rebuilds = suc c.rebuilds;
  },
  begun c.made stale sig,
)

unfoldable pub read_found : ContentKey → List Pattern → RamCache → Option ℕ → RamCache × Pending
unfolding key_eq present detach stale_prev start_rebuild pattern_signature
read_found key pats c none = start_rebuild key (pattern_signature pats) none c
read_found key pats c (some i) =
    if key_eq (c.heap i).key key
    then present i pats c
    else start_rebuild key (pattern_signature pats) (stale_prev i (pattern_signature pats) c)
        (detach i c)

-- `ReadAt` under the lock.
unfoldable pub read_locked : ContentKey → List Pattern → RamCache → RamCache × Pending
unfolding find_path read_found
read_locked key pats c = read_found key pats c (find_path key.path c.entries)

-- `zero`.
unfoldable pub zero_bytes : Bytes → Bytes
zero_bytes = map (λ b. 0)

-- The bytes of an entry that is let go: out of the sum, and overwritten.
unfoldable pub release : ℕ → RamCache → RamCache
unfolding set_entry zero_bytes
release i c = record c {
  heap = set_entry c.heap i (record (c.heap i) { bytes = zero_bytes (c.heap i).bytes });
  bytes_out = c.bytes_out + length (c.heap i).bytes;
}

-- The loop of `evictLocked`, with the elements from the back on.
unfoldable pub evict_loop : List ℕ → RamCache → RamCache
unfolding remove_path remove_elem release
evict_loop [] c = c
evict_loop (i ∷ is) c =
    let gone = evict_loop is (
      release i (record c {
        entries = remove_path (c.heap i).key.path c.entries;
        lru = remove_elem i c.lru;
      })) in
    let kept = evict_loop is c in
    if ltb (c.max_bytes + c.bytes_out) c.bytes_in
    then (if (c.heap i).built then gone else kept)
    else c

abbrev pub backwards : List ℕ → List ℕ
backwards [] = []
backwards (i ∷ is) = backwards is ++ (i ∷ [])

unfoldable pub evict_locked : RamCache → RamCache
unfolding evict_loop
evict_locked c = evict_loop (backwards c.lru) c

-- `rebuild` behind redactFile.
unfoldable pub publish : ℕ → Result Bytes → RamCache → RamCache
unfolding set_entry
publish i (ok out) c = record c {
  heap = set_entry c.heap i (record (c.heap i) { bytes = out; built = true; rebuild_err = none });
  bytes_in = c.bytes_in + length out;
}
publish i (fail why) c = record c {
  heap = set_entry c.heap i (record (c.heap i) { built = true; rebuild_err = some why });
}

unfoldable pub rebuild_locked : ℕ → Result Bytes → RamCache → RamCache
unfolding publish evict_locked
rebuild_locked i out c = evict_locked (publish i out c)

unfoldable pub invalidate_found : Bytes → Option ℕ → RamCache → RamCache
unfolding release remove_path remove_elem
invalidate_found path none c = c
invalidate_found path (some i) c =
    let left = record c { entries = remove_path path c.entries; lru = remove_elem i c.lru } in
    if (c.heap i).built then release i left else left

unfoldable pub invalidate_locked : Bytes → RamCache → RamCache
unfolding find_path invalidate_found
invalidate_locked path c = invalidate_found path (find_path path c.entries) c

-- The loop of `InvalidateAll`, which meets every path that was there, in some order.
unfoldable pub invalidate_paths : List (Bytes × ℕ) → RamCache → RamCache
unfolding invalidate_locked
invalidate_paths [] c = c
invalidate_paths ((p, i) ∷ es) c = invalidate_paths es (invalidate_locked p c)

unfoldable pub invalidate_all : RamCache → RamCache
unfolding invalidate_paths
invalidate_all c = invalidate_paths c.entries c
