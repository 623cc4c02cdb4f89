-- ===== src/Provider/Serve.antt =====
-- internal/provider/provider.go: what a read returns once the lock is let go, and the read of a file
-- that is too large for the cache.
use janusfs.Base.{ℕ, zero, suc, ◌+◌, ◌-◌, Option, none, some, List, []}
use janusfs.Base.{leb, ltb, if◌then◌else◌, length, take, drop}
use janusfs.Base.{Result, ok, fail, Failure, read_failed}
use janusfs.Base.Text.{Bytes, eq}
use janusfs.Patterns.{Pattern}
use janusfs.Redact.{redact}
use janusfs.Redact.Stream.{Reader, more, eof, broken, stream}
use janusfs.Provider.{RamCache, Entry, Pending, hit, wait, begun}

-- What `ReadAt` returns: the bytes copied into its buffer, or an error.
pub data Served : Type 0 where
  copied : Bytes → Served
  rebuild_failed : Failure → Served
  pattern_set_changed rebuild_timeout cancelled redact_unsupported open_failed : Served

-- `copyAt` into a buffer of `n` bytes.
unfoldable pub copy_at : Bytes → ℕ → ℕ → Bytes
copy_at src n off = if leb (length src) off then [] else take n (drop off src)

-- Which case of the select in `waitAndServe` is taken: a closed `ready` needs a built entry.
pub data Wake : Type 0 where
  ready timed_out context_done : Wake

unfoldable pub copy_or_fail : Option Failure → Bytes → ℕ → ℕ → Served
unfolding copy_at
copy_or_fail none b n off = copied (copy_at b n off)
copy_or_fail (some why) b n off = rebuild_failed why

-- `waitAndServe`, where the select takes a case.
unfoldable pub wait_and_serve : Wake → Entry → Bytes → ℕ → ℕ → Served
unfolding copy_at
wait_and_serve ready e sig n off = elim e.rebuild_err [
  | some why ↦ rebuild_failed why
  | none ↦ if eq e.pattern_sig sig then copied (copy_at e.bytes n off) else pattern_set_changed
]
wait_and_serve timed_out e sig n off = rebuild_timeout
wait_and_serve context_done e sig n off = cancelled

-- The rest of `ReadAt` behind the lock: the bytes are those that the entry holds by then.
unfoldable pub serve : Wake → Pending → RamCache → ℕ → ℕ → Served
unfolding copy_or_fail wait_and_serve copy_at
serve wake (hit i) c n off = copy_or_fail (c.heap i).rebuild_err (c.heap i).bytes n off
serve wake (wait i sig) c n off = wait_and_serve wake (c.heap i) sig n off
serve wake (begun i (some stale) sig) c n off = copied (copy_at (c.heap stale).bytes n off)
serve wake (begun i none sig) c n off = wait_and_serve wake (c.heap i) sig n off

-- `redactFile`: `none` where the file cannot be opened or read.
unfoldable pub redact_file : Option Bytes → List Pattern → Result Bytes
unfolding redact
redact_file none pats = fail read_failed
redact_file (some buf) pats = redact buf pats

-- `io.LimitReader(f, n)`, which asks a read for no more than is left; an error that comes with the
-- last bytes is passed on.
unfoldable pub limit : ℕ → Reader → Reader
limit zero r = eof []
limit (suc n) (eof b) = eof (take (suc n) b)
limit (suc n) (broken b) =
    if leb (length b) (suc n) then broken b else more (take (suc n) b) (eof [])
limit (suc n) (more b r) =
    let rest = more b (limit (suc n - length b) r) in
    if ltb (length b) (suc n) then rest else more (take (suc n) b) (eof [])

unfoldable pub copy_streamed : Result Bytes → ℕ → ℕ → Served
unfolding copy_at
copy_streamed (ok out) n off = copied (copy_at out n off)
copy_streamed (fail why) n off = redact_unsupported

-- `readOversize`: `none` where the file cannot be opened.
unfoldable pub read_oversize : Option Reader → List Pattern → ℕ → ℕ → ℕ → Served
unfolding limit stream copy_streamed
read_oversize none pats buffer_max n off = open_failed
read_oversize (some r) pats buffer_max n off =
    copy_streamed (stream (limit (off + n) r) pats buffer_max) n off
