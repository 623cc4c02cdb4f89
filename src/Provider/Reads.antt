-- ===== src/Provider/Reads.antt =====
-- What a read through the cache of internal/provider/provider.go can return.
use janusfs.Base.{ℕ, ◌≡◌, refl, Bool, true, false, Option, none, some, inl}
use janusfs.Base.{List, [], ◌∷◌, ◌++◌, if◌then◌else◌, Failure}
use mathlib.Core.Path.{subst}
use mathlib.Core.List.{Memᴰ}
use mathlib.Core.List.Memᴰ
use janusfs.Base.Text.{Bytes, eq, eq→≡}
use janusfs.Patterns.{Pattern}
use janusfs.Provider.Signature.{pattern_signature}
use janusfs.Provider.{ContentKey, Pending, hit, wait, begun, read_locked, bypasses, zero_bytes}
use janusfs.Provider.Serve.{
  Served, copied, copy_at, Wake, ready, timed_out, context_done, copy_or_fail, wait_and_serve,
  serve,
}
use janusfs.Provider.Run.{World, Op, read, step, run, new_ram_cache}
use janusfs.Provider.Later.{HasPath, Masked}
use janusfs.Provider.Safe.{PendingOk, PendingOk-Later}
use janusfs.Provider.Steps.{WorldOk, read_step-Pending, step-Ok, run-Ok}

-- The bytes are a part of what an entry for that path, of that signature, can hold, if the log is
-- what was done.
abbrev pub PartOf : List Op → Bytes → Bytes → ℕ → ℕ → Bytes → Type 0
PartOf log path sig n off b =
    (whole : Bytes) × Masked log path sig whole × (b ≡ copy_at whole n off)

PartOf-entry :
    {log : List Op} {path sig b : Bytes} (w : World) (i n off : ℕ)
    → WorldOk log w
    → HasPath w.cache path i
    → (w.cache.heap i).pattern_sig ≡ sig
    → copied (copy_at (w.cache.heap i).bytes n off) ≡ copied b
    → PartOf log path sig n off b
PartOf-entry {log = log} {sig = sig} w i n off h there same e = (
  (w.cache.heap i).bytes,
  subst (λ p. Masked log p sig (w.cache.heap i).bytes) there.1
      (subst (λ s. Masked log (w.cache.heap i).key.path s (w.cache.heap i).bytes) same (h.safe i)),
  cc,
)

copy_or_fail-part :
    {log : List Op} {path sig b : Bytes} (w : World) (i n off : ℕ) (o : Option Failure)
    → WorldOk log w
    → HasPath w.cache path i
    → (w.cache.heap i).pattern_sig ≡ sig
    → copy_or_fail o (w.cache.heap i).bytes n off ≡ copied b
    → PartOf log path sig n off b
unfolding copy_or_fail
copy_or_fail-part w i n off none h there same e = PartOf-entry w i n off h there same e
copy_or_fail-part w i n off (some why) h there same e = cc

wait_and_serve-part :
    {log : List Op} {path sig b : Bytes} (wake : Wake) (w : World) (i n off : ℕ)
    → WorldOk log w
    → HasPath w.cache path i
    → wait_and_serve wake (w.cache.heap i) sig n off ≡ copied b
    → PartOf log path sig n off b
unfolding wait_and_serve
wait_and_serve-part {log = log} {path = path} {sig = sig} {b = b} ready w i n off h there e =
    go (w.cache.heap i).rebuild_err e
  where
    pick :
        (same : Bool)
        → eq (w.cache.heap i).pattern_sig sig ≡ same
        → (if same
            then copied (copy_at (w.cache.heap i).bytes n off)
            else Served.pattern_set_changed)
          ≡ copied b
        → PartOf log path sig n off b
    pick true s k = PartOf-entry w i n off h there (eq→≡ (w.cache.heap i).pattern_sig sig s) k
    pick false s k = cc

    go :
        (o : Option Failure)
        → elim o [
          | some why ↦ Served.rebuild_failed why
          | none ↦
              if eq (w.cache.heap i).pattern_sig sig
              then copied (copy_at (w.cache.heap i).bytes n off)
              else Served.pattern_set_changed
        ]
          ≡ copied b
        → PartOf log path sig n off b
    go none k = pick (eq (w.cache.heap i).pattern_sig sig) refl k
    go (some why) k = cc
wait_and_serve-part timed_out w i n off h there e = cc
wait_and_serve-part context_done w i n off h there e = cc

pub serve-part :
    {log : List Op} {path sig b : Bytes} (wake : Wake) (p : Pending) (w : World) (n off : ℕ)
    → WorldOk log w
    → PendingOk w.cache path sig p
    → serve wake p w.cache n off ≡ copied b
    → PartOf log path sig n off b
unfolding serve
serve-part wake (hit i) w n off h p e =
    copy_or_fail-part w i n off (w.cache.heap i).rebuild_err h p.there p.same e
serve-part {b = b} wake (wait i s) w n off h (there, same) e =
    wait_and_serve-part wake w i n off h there
      (subst (λ t. wait_and_serve wake (w.cache.heap i) t n off ≡ copied b) same e)
serve-part wake (begun i (some j) s) w n off h (new, old, same) e =
    PartOf-entry w j n off h old.there old.same e
serve-part {b = b} wake (begun i none s) w n off h (new, old, same) e =
    wait_and_serve-part wake w i n off h new.there
      (subst (λ t. wait_and_serve wake (w.cache.heap i) t n off ≡ copied b) same e)

abbrev pub empty_world : ℕ → ℕ → ℕ → World
empty_world max_bytes max_file buffer_max = record {
  cache = new_ram_cache max_bytes max_file buffer_max;
  running = [];
}

pub empty_world-Ok :
    {log : List Op} (max_bytes max_file buffer_max : ℕ)
    → WorldOk log (empty_world max_bytes max_file buffer_max)
unfolding new_ram_cache zero_bytes
empty_world-Ok max_bytes max_file buffer_max = record {
  safe = λ i. inl refl;
  inside = tt;
  tasks = tt;
}

-- For a file that does not go past the cache. Whatever reads, ends of rebuilds and invalidations, of
-- whatever files, come before a read gets the lock, and whatever others come between that and the
-- copy: the bytes that the read returns are a part of bytes that are all zero, or of the redaction of
-- a content that the file at the read's own path held at the end of one of these rebuilds, by the
-- patterns of one of these reads of that path, this one included, with the signature of the read's
-- own patterns.
pub serve-Masked :
    (max_bytes max_file buffer_max : ℕ) (before after : List Op) (key : ContentKey)
    (pats : List Pattern) (wake : Wake) (n off : ℕ) (b : Bytes)
    → bypasses key (run (empty_world max_bytes max_file buffer_max) before).cache ≡ false
    → serve wake
        (read_locked key pats (run (empty_world max_bytes max_file buffer_max) before).cache).1
        (run
          (step (run (empty_world max_bytes max_file buffer_max) before) (read key pats))
          after).cache
        n
        off
      ≡ copied b
    → PartOf (before ++ (read key pats ∷ after)) key.path (pattern_signature pats) n off b
unfolding step
serve-Masked max_bytes max_file buffer_max before after key pats wake n off b small e =
    let first = empty_world max_bytes max_file buffer_max in
    let w = run first before in
    let log = before ++ (read key pats ∷ after) in
    let good : WorldOk log w =
      (run-Ok {log = log} first before (λ op m. Memᴰ.append_left (read key pats ∷ after) m)
        (empty_world-Ok max_bytes max_file buffer_max)).1 in
    let now : Memᴰ (read key pats) log = Memᴰ.append_right before (Memᴰ.head refl) in
    let p = read_step-Pending {log = log} (bypasses key w.cache) key pats w small good in
    let (l, at_end) =
      run-Ok {log = log} (step w (read key pats)) after
        (λ op m. Memᴰ.append_right before (Memᴰ.tail m)) (step-Ok w (read key pats) now good) in
    serve-part wake (read_locked key pats w.cache).1 (run (step w (read key pats)) after) n off
      at_end (PendingOk-Later key.path (pattern_signature pats) _ l p) e
