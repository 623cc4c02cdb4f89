-- ===== src/Provider/Alone.antt =====
-- `ReadAt` of internal/provider/provider.go as one step: no other goroutine runs meanwhile, and the
-- rebuild that it starts has ended behind it.
use janusfs.Base.{
  ℕ, ◌≡◌, refl, sym, ◌∙◌, Bool, true, false, Option, none, some, List, [], ◌∷◌, ◌++◌,
}
use janusfs.Base.{if◌then◌else◌}
use mathlib.Core.List.{Memᴰ}
use janusfs.Base.Text.{Bytes}
use janusfs.Patterns.{Pattern}
use janusfs.Redact.Stream.{Reader, more, eof, broken}
use janusfs.Provider.{ContentKey, RamCache, Pending, hit, wait, begun, bypasses, read_locked}
use janusfs.Provider.Signature.{pattern_signature}
use janusfs.Provider.Serve.{Served, copied, Wake, ready, timed_out, serve, read_oversize}
use janusfs.Provider.Run.{World, Op, read, rebuilt, step}
use janusfs.Provider.Later.{Later}
use janusfs.Provider.Safe.{PendingOk, PendingOk-Later}
use janusfs.Provider.Steps.{WorldOk, WorldOk-longer, read_step-Pending, step-Ok, step-Later}
use janusfs.Provider.Reads.{PartOf, serve-part}

-- `io.ReadAll`; `none` is an error.
unfoldable pub all_bytes : Reader → Option Bytes
all_bytes (eof b) = some b
all_bytes (broken b) = none
all_bytes (more b r) = elim (all_bytes r) [ none ↦ none | some rest ↦ some (b ++ rest) ]

-- The content of a file that may not open.
unfoldable pub content_of : Option Reader → Option Bytes
unfolding all_bytes
content_of none = none
content_of (some r) = all_bytes r

abbrev pub alone : RamCache → World
alone c = record { cache = c; running = [] }

-- Bytes that are there already are served while the rebuild runs.
unfoldable pub served_from : Pending → RamCache → RamCache → RamCache
served_from (hit i) now later = now
served_from (wait i sig) now later = now
served_from (begun i (some stale) sig) now later = now
served_from (begun i none sig) now later = later

unfoldable pub entry_of : Pending → ℕ
entry_of (hit i) = i
entry_of (wait i sig) = i
entry_of (begun i stale sig) = i

-- An entry that is not built will not be, and the wait for it times out.
unfoldable pub wake_at : Pending → RamCache → Wake
unfolding entry_of
wake_at p c = if (c.heap (entry_of p)).built then ready else timed_out

unfoldable pub read_alone :
    ContentKey → List Pattern → Option Reader → ℕ → ℕ → RamCache → RamCache × Served
unfolding bypasses read_locked step serve served_from wake_at read_oversize content_of
read_alone key pats file n off c =
    if bypasses key c
    then (c, read_oversize file pats c.redact_buffer_max n off)
    else let now = step (alone c) (read key pats) in
      let later = step now (rebuilt 0 (λ p. content_of file)) in
      let p = (read_locked key pats c).1 in
      (
        later.cache,
        serve (wake_at p (served_from p now.cache later.cache)) p
            (served_from p now.cache later.cache) n off,
      )

unfoldable pub is_begun : Pending → Bool
is_begun (hit i) = false
is_begun (wait i sig) = false
is_begun (begun i stale sig) = true

-- Whether the read opens the file.
unfoldable pub opens_file : ContentKey → List Pattern → RamCache → Bool
unfolding bypasses read_locked is_begun
opens_file key pats c =
    let p = is_begun (read_locked key pats c).1 in if bypasses key c then true else p

served_from-part :
    {log : List Op} {path sig b : Bytes} (w : Wake) (p : Pending) (now later : World) (n off : ℕ)
    → WorldOk log now
    → WorldOk log later
    → Later log now.cache later.cache
    → PendingOk now.cache path sig p
    → serve w p (served_from p now.cache later.cache) n off ≡ copied b
    → PartOf log path sig n off b
unfolding served_from
served_from-part w (hit i) now later n off h k l p e = serve-part w (hit i) now n off h p e
served_from-part w (wait i s) now later n off h k l p e = serve-part w (wait i s) now n off h p e
served_from-part w (begun i (some j) s) now later n off h k l p e =
    serve-part w (begun i (some j) s) now n off h p e
served_from-part {path = path} {sig = sig} w (begun i none s) now later n off h k l p e =
    serve-part w (begun i none s) later n off k (PendingOk-Later path sig (begun i none s) l p) e

read_alone-small :
    (key : ContentKey) (pats : List Pattern) (r : Option Reader) (n off : ℕ) (c : RamCache)
    → bypasses key c ≡ false
    → (read_alone key pats r n off c).1
      ≡ serve
          (wake_at (read_locked key pats c).1 (
            served_from
              (read_locked key pats c).1
              (step (alone c) (read key pats)).cache
              (step (step (alone c) (read key pats)) (rebuilt 0 (λ p. content_of r))).cache))
          (read_locked key pats c).1
          (served_from
            (read_locked key pats c).1
            (step (alone c) (read key pats)).cache
            (step (step (alone c) (read key pats)) (rebuilt 0 (λ p. content_of r))).cache)
          n
          off
unfolding read_alone
read_alone-small key pats r n off c small = rw small refl

-- The read, and its rebuild with the file's content, in front of the log.
abbrev pub with_read : ContentKey → List Pattern → Option Reader → List Op → List Op
with_read key pats file log = read key pats ∷ rebuilt 0 (λ p. content_of file) ∷ log

-- What a read through the cache returns is a part of redacted bytes.
pub read_alone-part :
    {log : List Op} (key : ContentKey) (pats : List Pattern) (r : Option Reader) (n off : ℕ)
    (c : RamCache) (b : Bytes)
    → WorldOk log (alone c)
    → bypasses key c ≡ false
    → (read_alone key pats r n off c).1 ≡ copied b
    → PartOf (with_read key pats r log) key.path (pattern_signature pats) n off b
unfolding step
read_alone-part {log} key pats r n off c b h small e =
    let longer = with_read key pats r log in
    let good : WorldOk longer (alone c) = WorldOk-longer (λ op m. Memᴰ.tail (Memᴰ.tail m)) h in
    let here : Memᴰ (read key pats) longer = Memᴰ.head refl in
    let now = step (alone c) (read key pats) in
    let now_ok = step-Ok (alone c) (read key pats) here good in
    let ended = rebuilt 0 (λ p. content_of r) in
    let there : Memᴰ ended longer = Memᴰ.tail (Memᴰ.head refl) in
    served_from-part _ (read_locked key pats c).1 now (step now ended) n off now_ok
      (step-Ok now ended there now_ok) (step-Later now ended there now_ok)
      (read_step-Pending {log = longer} (bypasses key c) key pats (alone c) small good)
      (sym (read_alone-small key pats r n off c small) ∙ e)
