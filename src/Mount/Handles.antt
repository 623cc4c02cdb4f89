-- ===== src/Mount/Handles.antt =====
-- The handles of internal/mount: maskedHandle of janus_node.go and revocableHandle of revocable.go.
-- What a descriptor reads is a parameter: `pread`, and the whole file from its start.
use janusfs.Base.{ℕ, zero, suc, ◌+◌, ◌-◌, ◌*◌, Option, none, some, List, [], ◌++◌}
use janusfs.Base.{if◌then◌else◌, is_empty, ltb, length}
use janusfs.Base.Text.{Bytes, codes}
use janusfs.Base.FilePath.{join}
use janusfs.Rules.{Decision, allowed, masked, hidden}
use janusfs.Patterns.{Pattern}
use janusfs.Redact.Stream.{Reader}
use janusfs.Backing.{
  Outcome, reply, attributes, descriptor, SysReply, open_at, stat_at, invalid_rel_path,
}
use janusfs.Provider.{ContentKey}
use janusfs.Provider.Serve.{
  Served, copied, rebuild_failed, pattern_set_changed, rebuild_timeout, cancelled,
  redact_unsupported, open_failed,
}
use janusfs.Provider.Alone.{read_alone, opens_file}
use janusfs.Mount.{
  Errno, eacces, eio, AppError, to_errno, rebuild_timeout_error, redact_unsupported_error,
  unrelated, Call, read_file, write_file, of_decision, Outside, Mount, JanusNode, observe,
  resolve_node,
}
use janusfs.Mount.Reply.{refused, yielded, Reply, forward}

-- `unix.Pread(fd, buffer, off)` with a buffer of that many bytes: what it puts there, and an error.
abbrev pub Pread : Type 0 → Type 0
Pread W = ℕ → ℕ → ℕ → W → W × Bytes × Option ℕ

-- What else a handle does with a descriptor: `whole` reads the file from its start and closes it.
pub record Files (W : Type 0) : Type 0 where
  pub pread : Pread W
  pub close : ℕ → W → W
  pub whole : ℕ → W → W × Reader

pub data ReadResult : Type 0 where
  bytes_read : Bytes → ReadResult
  read_refused : Errno → ReadResult

-- `unix.O_RDONLY|unix.O_NOFOLLOW` on Linux for amd64.
abbrev pub nofollow : ℕ
nofollow = 131072

module _ {W : Type 0} (pread : Pread W) where
  -- The loop of `preadFull`, with what it has; `none` where the fuel does not suffice.
  unfoldable pub pread_loop : ℕ → ℕ → ℕ → ℕ → Bytes → W → Option (W × Bytes × Option ℕ)
  pread_loop zero fd n off got w = none
  pread_loop (suc fuel) fd n off got w =
      let r = pread fd (n - length got) (off + length got) w in
      let rest = pread_loop fuel fd n off (got ++ r.1) r.0 in
      if ltb (length got) n
      then elim r.2 [
        | some e ↦ some (r.0, got ++ r.1, some e)
        | none ↦ if is_empty r.1 then some (r.0, got ++ r.1, none) else rest
      ]
      else some (w, got, none)

  -- `preadFull` into a buffer of `n` bytes: each round but the last has a byte.
  unfoldable pub pread_full : ℕ → ℕ → ℕ → W → Option (W × Bytes × Option ℕ)
  unfolding pread_loop
  pread_full fd n off = pread_loop (suc n) fd n off []

-- `apperrors.ToErrno` of the error that `ReadAt` returns.
unfoldable pub error_of : Served → AppError
error_of (copied b) = unrelated
error_of (rebuild_failed why) = unrelated
error_of pattern_set_changed = rebuild_timeout_error
error_of rebuild_timeout = rebuild_timeout_error
error_of cancelled = unrelated
error_of redact_unsupported = redact_unsupported_error
error_of open_failed = unrelated

unfoldable pub result_of : Served → ReadResult
unfolding to_errno error_of
result_of (copied b) = bytes_read b
result_of (rebuild_failed why) = read_refused (to_errno (error_of (rebuild_failed why)))
result_of pattern_set_changed = read_refused (to_errno (error_of pattern_set_changed))
result_of rebuild_timeout = read_refused (to_errno (error_of rebuild_timeout))
result_of cancelled = read_refused (to_errno (error_of cancelled))
result_of redact_unsupported = read_refused (to_errno (error_of redact_unsupported))
result_of open_failed = read_refused (to_errno (error_of open_failed))

abbrev pub bytes_of : ReadResult → ℕ
bytes_of (bytes_read b) = length b
bytes_of (read_refused e) = 0

module _ {W : Type 0} (out : Outside W) (files : Files W) where
  -- `observeRead`, behind the work.
  unfoldable pub observe_read : JanusNode → Decision → Mount W × ReadResult → Mount W × ReadResult
  unfolding observe
  observe_read n d (m, r) = (observe (codes "read") n.rel_path (of_decision d) (bytes_of r) m, r)

  -- The descriptor of an open that went well.
  unfoldable pub opened_fd : Outcome → Option ℕ
  opened_fd invalid_rel_path = none
  opened_fd (reply (descriptor fd)) = some fd
  opened_fd (reply SysReply.done) = none
  opened_fd (reply (attributes st)) = none
  opened_fd (reply (SysReply.target s)) = none
  opened_fd (reply (SysReply.sys_error e)) = none

  -- The end of `readRaw`: an error of pread leaves no event.
  unfoldable pub raw_result :
      JanusNode → Mount W → ℕ → Option (W × Bytes × Option ℕ) → Option (Mount W × ReadResult)
  unfolding observe_read
  raw_result n m fd none = none
  raw_result n m fd (some (w, got, some e)) =
      some (record m { world = files.close fd w }, read_refused (to_errno unrelated))
  raw_result n m fd (some (w, got, none)) =
      some (observe_read n allowed (record m { world = files.close fd w }, bytes_read got))

  unfoldable pub read_raw_at :
      JanusNode → ℕ → ℕ → Mount W → Option ℕ → Option (Mount W × ReadResult)
  unfolding observe_read pread_full raw_result
  read_raw_at n len off m none =
      some (observe_read n allowed (m, read_refused (to_errno unrelated)))
  read_raw_at n len off m (some fd) = raw_result n m fd (pread_full files.pread fd len off m.world)

  -- `readRaw` into a buffer of `len` bytes.
  unfoldable pub read_raw : JanusNode → ℕ → ℕ → Mount W → Option (Mount W × ReadResult)
  unfolding open_at opened_fd read_raw_at
  read_raw n len off m =
      let (w, o) = open_at out.kernel n.rel_path nofollow 0 m.world in
      read_raw_at n len off (record m { world = w }) (opened_fd o)

  -- `contentKey`, behind the stat.
  unfoldable pub key_of : JanusNode → Mount W → Outcome → Option ContentKey
  unfolding join
  key_of n m (reply (attributes st)) = some (record {
    path = join out.root_path n.rel_path;
    mtime_ns = st.mtime_sec * 1000000000 + st.mtime_nsec;
    size = st.size;
    inode = st.ino;
    gen = m.engine.gen;
  })
  key_of n m invalid_rel_path = none
  key_of n m (reply (descriptor fd)) = none
  key_of n m (reply SysReply.done) = none
  key_of n m (reply (SysReply.target s)) = none
  key_of n m (reply (SysReply.sys_error e)) = none

  -- `backingOpener`, and the file that the provider reads through it.
  unfoldable pub opened_file : W → Option ℕ → W × Option Reader
  opened_file w none = (w, none)
  opened_file w (some fd) = let (w', r) = files.whole fd w in (w', some r)

  unfoldable pub backing_opener : JanusNode → W → W × Option Reader
  unfolding open_at opened_fd opened_file
  backing_opener n w =
      let (w', o) = open_at out.kernel n.rel_path nofollow 0 w in opened_file w' (opened_fd o)

  -- The provider's read, and the file where it opens it.
  unfoldable pub provider_read :
      JanusNode → ContentKey → List Pattern → ℕ → ℕ → Mount W → Mount W × Served
  unfolding opens_file backing_opener read_alone
  provider_read n key pats len off m =
      let (w, file) =
        if opens_file key pats m.cache then backing_opener n m.world else (m.world, none) in
      let (cache, served) = read_alone key pats file len off m.cache in
      (record m { world = w; cache = cache }, served)

  -- The masked arm of `Read`.
  unfoldable pub read_masked :
      JanusNode → List Pattern → ℕ → ℕ → Mount W → Option ContentKey → Mount W × ReadResult
  unfolding observe_read provider_read result_of
  read_masked n pats len off m none = observe_read n masked (m, read_refused eio)
  read_masked n pats len off m (some key) =
      let (m', served) = provider_read n key pats len off m in
      observe_read n masked (m', result_of served)

  unfoldable pub read_decided :
      JanusNode → Decision → List Pattern → ℕ → ℕ → Mount W → Option (Mount W × ReadResult)
  unfolding observe_read read_raw stat_at key_of read_masked
  read_decided n hidden pats len off m = some (observe_read n hidden (m, read_refused eacces))
  read_decided n allowed pats len off m = read_raw n len off m
  read_decided n masked pats len off m =
      let (w, st) = stat_at out.kernel n.rel_path m.world in
      some (read_masked n pats len off (record m { world = w }) (key_of n m st))

  -- `maskedHandle.Read` into a buffer of `len` bytes.
  unfoldable pub masked_handle_read : JanusNode → ℕ → ℕ → Mount W → Option (Mount W × ReadResult)
  unfolding resolve_node read_decided
  masked_handle_read n len off m =
      let (m', a) = resolve_node n m in read_decided n a.decision a.patterns len off m'

module _ {W : Type 0} (out : Outside W) where
  -- `stillAllowed`, and the call behind it.
  unfoldable pub if_still_allowed : Bytes → JanusNode → Decision → Call → Mount W → Reply W
  unfolding forward observe
  if_still_allowed op n allowed c m = let (m', y) = forward out c m in (m', yielded y)
  if_still_allowed op n masked c m =
      (observe op n.rel_path (of_decision masked) 0 m, refused eacces)
  if_still_allowed op n hidden c m =
      (observe op n.rel_path (of_decision hidden) 0 m, refused eacces)

  unfoldable pub revocable_read : JanusNode → ℕ → ℕ → Mount W → Reply W
  unfolding resolve_node if_still_allowed
  revocable_read n len off m =
      let (m', a) = resolve_node n m in
      if_still_allowed (codes "read") n a.decision (read_file n.rel_path len off) m'

  unfoldable pub revocable_write : JanusNode → ℕ → ℕ → Mount W → Reply W
  unfolding resolve_node if_still_allowed
  revocable_write n len off m =
      let (m', a) = resolve_node n m in
      if_still_allowed (codes "write") n a.decision (write_file n.rel_path len off) m'

-- `PassthroughFd`: the kernel is given no descriptor.
unfoldable pub passthrough_fd : Option ℕ
passthrough_fd = none
