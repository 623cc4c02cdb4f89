-- ===== src/Provider/Run.antt =====
-- Reads, rebuilds and invalidations of internal/provider/provider.go, one after the other as the
-- lock lets them in. A rebuild stands for the goroutine that a read has started; it may end at any
-- later time, with any content of its file.
use janusfs.Base.{Bool, true, false, ℕ, zero, suc, Option, List, [], ◌∷◌}
use janusfs.Base.Text.{Bytes}
use janusfs.Patterns.{Pattern}
use janusfs.Provider.{
  ContentKey, RamCache, Pending, hit, wait, begun, new_entry, bypasses, read_locked, rebuild_locked,
  invalidate_locked, invalidate_all,
}
use janusfs.Provider.Serve.{redact_file}

-- A goroutine that rebuilds an entry, from the file and with the patterns of the read that has
-- started it.
pub record Rebuild : Type 0 where
  pub entry : ℕ
  pub path : Bytes
  pub pats : List Pattern

pub record World : Type 0 where
  pub cache : RamCache
  pub running : List Rebuild

pub data Op : Type 0 where
  read : ContentKey → List Pattern → Op
  -- The goroutine at that place among those running ends, with what the file at each path holds.
  rebuilt : ℕ → (Bytes → Option Bytes) → Op
  invalidate : Bytes → Op
  invalidate_every : Op

-- `go c.rebuild(ne, pats, open)`.
unfoldable pub spawn : Bytes → List Pattern → Pending → List Rebuild → List Rebuild
spawn path pats (hit i) rs = rs
spawn path pats (wait i sig) rs = rs
spawn path pats (begun i stale sig) rs = record { entry = i; path = path; pats = pats } ∷ rs

unfoldable pub finish : List Rebuild → ℕ → (Bytes → Option Bytes) → RamCache → RamCache
unfolding rebuild_locked redact_file
finish [] n files c = c
finish (r ∷ rs) zero files c = rebuild_locked r.entry (redact_file (files r.path) r.pats) c
finish (r ∷ rs) (suc n) files c = finish rs n files c

abbrev pub without : ℕ → List Rebuild → List Rebuild
without n [] = []
without zero (r ∷ rs) = rs
without (suc n) (r ∷ rs) = r ∷ without n rs

-- A read, if it does not go past the cache.
unfoldable pub read_step : Bool → ContentKey → List Pattern → World → World
unfolding read_locked spawn
read_step true key pats w = w
read_step false key pats w =
    let (c, p) = read_locked key pats w.cache in
    record { cache = c; running = spawn key.path pats p w.running }

unfoldable pub step : World → Op → World
unfolding bypasses read_step finish invalidate_locked invalidate_all
step w (read key pats) = read_step (bypasses key w.cache) key pats w
step w (rebuilt n files) = record {
  cache = finish w.running n files w.cache;
  running = without n w.running;
}
step w (invalidate path) = record w { cache = invalidate_locked path w.cache }
step w invalidate_every = record w { cache = invalidate_all w.cache }

unfoldable pub run : World → List Op → World
unfolding step
run w [] = w
run w (op ∷ ops) = run (step w op) ops

-- `NewRamCache`.
unfoldable pub new_ram_cache : ℕ → ℕ → ℕ → RamCache
new_ram_cache max_bytes max_file redact_buffer_max = record {
  heap = λ i. new_entry (record { path = []; mtime_ns = 0; size = 0; inode = 0; gen = 0 }) [];
  made = 0;
  entries = [];
  lru = [];
  bytes_in = 0;
  bytes_out = 0;
  max_bytes = max_bytes;
  max_file = max_file;
  redact_buffer_max = redact_buffer_max;
  hits = 0;
  misses = 0;
  rebuilds = 0;
}
