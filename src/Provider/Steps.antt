-- ===== src/Provider/Steps.antt =====
-- What holds of the cache of internal/provider/provider.go and of its rebuilds at every moment.
use janusfs.Base.{
  Bool, true, false, ℕ, zero, suc, ◌≡◌, sym, Option, none, some, inl, inr, All, refl,
}
use janusfs.Base.{List, [], ◌∷◌, ok}
use mathlib.Core.Path.{subst}
use mathlib.Core.List.{Memᴰ}
use janusfs.Base.Text.{Bytes}
use janusfs.Patterns.{Pattern}
use janusfs.Provider.Signature.{pattern_signature}
use janusfs.Provider.{ContentKey, RamCache, Pending, hit, wait, begun, read_locked, bypasses}
use janusfs.Provider.Serve.{redact_file}
use janusfs.Provider.Run.{
  Rebuild, World, Op, read, rebuilt, invalidate, invalidate_every, spawn, finish, without,
  read_step, step, run,
}
use janusfs.Provider.Later.{Asked, Masked, EntryOk, Inside, Later, Later-trans, Later-same}
use janusfs.Provider.Changes.{rebuild_locked-Later, invalidate_locked-Later, invalidate_all-Later}
use janusfs.Provider.Safe.{HasSig, HasSig-Later, PendingOk, read_locked-Ok}

-- A read of the log has started the rebuild, of an entry for its path, with the signature of its
-- patterns.
abbrev pub RebuildOk : List Op → RamCache → Rebuild → Type 0
RebuildOk log c r = HasSig c r.path (pattern_signature r.pats) r.entry × Asked log r.path r.pats

pub record WorldOk (log : List Op) (w : World) : Type 0 where
  pub safe : (i : ℕ) → EntryOk log (w.cache.heap i)
  pub inside : Inside w.cache w.cache.entries
  pub tasks : All (RebuildOk log w.cache) w.running

tasks-Later :
    {log : List Op} {c c' : RamCache} (rs : List Rebuild)
    → Later log c c'
    → All (RebuildOk log c) rs
    → All (RebuildOk log c') rs
tasks-Later [] l h = tt
tasks-Later (r ∷ rs) l h = ((HasSig-Later r.entry l h.0.0, h.0.1), tasks-Later rs l h.1)

spawn-tasks :
    {log : List Op} (c : RamCache) (path : Bytes) (pats : List Pattern) (p : Pending)
    (rs : List Rebuild)
    → Asked log path pats
    → PendingOk c path (pattern_signature pats) p
    → All (RebuildOk log c) rs
    → All (RebuildOk log c) (spawn path pats p rs)
unfolding spawn
spawn-tasks c path pats (hit i) rs a h k = k
spawn-tasks c path pats (wait i s) rs a h k = k
spawn-tasks c path pats (begun i stale s) rs a h k = ((h.0, a), k)

without-tasks :
    (log : List Op) (c : RamCache) (n : ℕ) (rs : List Rebuild)
    → All (RebuildOk log c) rs
    → All (RebuildOk log c) (without n rs)
without-tasks log c n [] h = tt
without-tasks log c zero (r ∷ rs) h = h.1
without-tasks log c (suc n) (r ∷ rs) h = (h.0, without-tasks log c n rs h.1)

redact_file-Masked :
    {log : List Op} (n : ℕ) (files : Bytes → Option Bytes) (content : Option Bytes)
    (pats : List Pattern) (path sig b : Bytes)
    → Memᴰ (rebuilt n files) log
    → files path ≡ content
    → Asked log path pats
    → pattern_signature pats ≡ sig
    → redact_file content pats ≡ ok b
    → Masked log path sig b
unfolding redact_file
redact_file-Masked n files none pats path sig b seen holds asked same e = cc
redact_file-Masked n files (some buf) pats path sig b seen holds asked same e =
    inr (buf, pats, (n, files, seen, holds), asked, same, e)

-- The rebuild at that place ends; `k` is the place that the log gives it.
finish-Later :
    {log : List Op} (k : ℕ) (rs : List Rebuild) (n : ℕ) (files : Bytes → Option Bytes)
    (c : RamCache)
    → Memᴰ (rebuilt k files) log
    → All (RebuildOk log c) rs
    → Later log c (finish rs n files c)
unfolding finish
finish-Later k [] n files c seen h = Later-same c
finish-Later {log} k (r ∷ rs) zero files c seen h =
    let (has, asked) = h.0 in
    rebuild_locked-Later r.entry (redact_file (files r.path) r.pats) c (λ b e.
      subst (λ p. Masked log p (c.heap r.entry).pattern_sig b) (sym has.there.1)
        (redact_file-Masked k files (files r.path) r.pats r.path (c.heap r.entry).pattern_sig b seen
          refl asked (sym has.same) e))
finish-Later k (r ∷ rs) (suc n) files c seen h = finish-Later k rs n files c seen h.1

WorldOk-Later :
    {log : List Op} {w : World} {c : RamCache} (rs : List Rebuild)
    → Later log w.cache c
    → WorldOk log w
    → All (RebuildOk log c) rs
    → WorldOk log (record { cache = c; running = rs })
WorldOk-Later rs l h tasks = record {
  safe = l.safe h.safe;
  inside = l.inside h.inside;
  tasks = tasks;
}

read_step-Later :
    {log : List Op} (past : Bool) (key : ContentKey) (pats : List Pattern) (w : World)
    → WorldOk log w
    → Later log w.cache (read_step past key pats w).cache
unfolding read_step
read_step-Later true key pats w h = Later-same w.cache
read_step-Later false key pats w h = (read_locked-Ok key pats w.cache h.inside).0

read_step-Ok :
    {log : List Op} (past : Bool) (key : ContentKey) (pats : List Pattern) (w : World)
    → Memᴰ (read key pats) log
    → WorldOk log w
    → WorldOk log (read_step past key pats w)
unfolding read_step
read_step-Ok true key pats w m h = h
read_step-Ok false key pats w m h =
    let (l, p) = read_locked-Ok key pats w.cache h.inside in
    WorldOk-Later _ l h
      (spawn-tasks _ key.path pats _ w.running (key, m, refl) p (tasks-Later w.running l h.tasks))

-- What the read has decided holds when it lets the lock go.
pub read_step-Pending :
    {log : List Op} (past : Bool) (key : ContentKey) (pats : List Pattern) (w : World)
    → past ≡ false
    → WorldOk log w
    → PendingOk
        (read_step past key pats w).cache
        key.path
        (pattern_signature pats)
        (read_locked key pats w.cache).1
unfolding read_step
read_step-Pending true key pats w e h = cc
read_step-Pending {log} false key pats w e h =
    (read_locked-Ok {log = log} key pats w.cache h.inside).1

pub step-Later :
    {log : List Op} (w : World) (op : Op)
    → Memᴰ op log
    → WorldOk log w
    → Later log w.cache (step w op).cache
unfolding step
step-Later w (read key pats) m h = read_step-Later (bypasses key w.cache) key pats w h
step-Later w (rebuilt n files) m h = finish-Later n w.running n files w.cache m h.tasks
step-Later w (invalidate path) m h = invalidate_locked-Later path w.cache
step-Later w invalidate_every m h = invalidate_all-Later w.cache

pub step-Ok :
    {log : List Op} (w : World) (op : Op) → Memᴰ op log → WorldOk log w → WorldOk log (step w op)
unfolding step
step-Ok w (read key pats) m h = read_step-Ok (bypasses key w.cache) key pats w m h
step-Ok w (rebuilt n files) m h =
    let l = finish-Later n w.running n files w.cache m h.tasks in
    WorldOk-Later _ l h (without-tasks _ _ n w.running (tasks-Later w.running l h.tasks))
step-Ok w (invalidate path) m h =
    let l = invalidate_locked-Later path w.cache in
    WorldOk-Later _ l h (tasks-Later w.running l h.tasks)
step-Ok w invalidate_every m h =
    let l = invalidate_all-Later w.cache in WorldOk-Later _ l h (tasks-Later w.running l h.tasks)

-- Every step of the run is in the log.
abbrev pub Logged : List Op → List Op → Type 0
Logged log ops = (op : Op) → Memᴰ op ops → Memᴰ op log

pub run-Ok :
    {log : List Op} (w : World) (ops : List Op)
    → Logged log ops
    → WorldOk log w
    → Later log w.cache (run w ops).cache × WorldOk log (run w ops)
unfolding run
run-Ok w [] m h = (Later-same w.cache, h)
run-Ok w (op ∷ ops) m h =
    let here = m op (Memᴰ.head refl) in
    let (l, ok') = run-Ok (step w op) ops (λ o k. m o (Memᴰ.tail k)) (step-Ok w op here h) in
    (Later-trans (step-Later w op here h) l, ok')

-- A longer log.
Asked-longer :
    {log longer : List Op} {path : Bytes} (pats : List Pattern)
    → Logged longer log
    → Asked log path pats
    → Asked longer path pats
Asked-longer pats m (key, at, same) = (key, m (read key pats) at, same)

Masked-longer :
    {log longer : List Op} {path sig b : Bytes}
    → Logged longer log
    → Masked log path sig b
    → Masked longer path sig b
Masked-longer m (inl zeros) = inl zeros
Masked-longer m (inr (content, pats, (n, files, at, holds), asked, same, e)) =
    inr
      (content, pats, (n, files, m (rebuilt n files) at, holds), Asked-longer pats m asked, same, e)

tasks-longer :
    {log longer : List Op} (c : RamCache) (rs : List Rebuild)
    → Logged longer log
    → All (RebuildOk log c) rs
    → All (RebuildOk longer c) rs
tasks-longer c [] m h = tt
tasks-longer c (r ∷ rs) m h = ((h.0.0, Asked-longer r.pats m h.0.1), tasks-longer c rs m h.1)

pub WorldOk-longer :
    {log longer : List Op} {w : World} → Logged longer log → WorldOk log w → WorldOk longer w
WorldOk-longer {log} {longer} {w} m h = record {
  safe = λ i. Masked-longer m (h.safe i);
  inside = h.inside;
  tasks = tasks-longer w.cache w.running m h.tasks;
}
