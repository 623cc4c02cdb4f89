-- ===== src/Lib.antt =====
-- JanusFS: a filesystem that shows an agent a tree with secrets masked or hidden.
--
-- The program's parts and their models. A policy file (internal/rules) hides, allows and masks
-- paths by globs; a path's decision is Allowed, Masked or Hidden; the bytes of a masked file are
-- redacted (internal/redact) by the patterns (internal/patterns) that its rules name.
--
--   Base           the shared tests, lists and results; Base/Text the functions of Go's packages
--                  strings and bytes, Base/FilePath those of path/filepath, Base/Sorting the sort
--                  and the order of strings
--   Patterns       internal/patterns/patterns.go: Pattern, the interface to the package regexp;
--                  Patterns/Builtins the registry and LookupBuiltin, Patterns/Filter the
--                  prefilters, Patterns/Refs ParsePatternRef
--   Redact         internal/redact/redact.go: FindSpans, mergeSpans and Redact; Redact/Stream
--                  classify, Stream and the three modes; their other children hold proofs
--   Rules          internal/rules/rules.go: the types; Rules/Glob glob.go, Rules/MaskLine
--                  parseMaskLine, Rules/Compile the levels and Discover; Rules/Trace,
--                  Rules/Ignore, Rules/Mask and Rules/Resolve resolve.go; their children proofs
--   Engine         internal/engine/engine.go: the rule set of the current generation and the memo
--                  of its decisions; Engine/Step the goroutines that Resolve and Reload at once
--                  as a step relation, with a record of what has been stored; Engine/Stale the
--                  fingerprints of the policy files and StaleAncestors; its other children proofs
--   Provider       internal/provider/provider.go: the cache of redacted bytes, each function what
--                  runs under one lock; Provider/Serve what a read returns after the lock,
--                  Provider/Signature patternSignature and matchesPatternSig, Provider/Run the
--                  operations in sequence, Provider/Alone ReadAt as one step; the other children
--                  proofs
--   Backing        internal/backing/backing.go: validRel and the methods of Root
--   Mount          internal/mount and internal/apperrors/apperrors.go: Mount the state of a mount,
--                  the gates and the reload (cmd/janusfs/runtime.go), Mount/Reply and Mount/Ops the
--                  handlers of JanusNode, Mount/Requests the gated ones as one type of requests,
--                  Mount/Handles maskedHandle and revocableHandle; its other children proofs
--   Config         internal/config/config.go: the tunables and what overrides them, Config/Numbers
--                  what strconv parses, Config/Registry the registry of mounts,
--                  Config/Preconditions ResolveMountpoint and Validate; their children proofs
--   History        internal/history/store.go: the buffer of events, Record, batchedWriter, flush and
--                  Close as moves on one state; its children proofs
--   Tests          runs at concrete data
--
-- The engine asks the rules for a path's decision and keeps it by generation; the provider redacts
-- a masked file with the patterns of that decision and keeps the bytes by the file's version and
-- the generation. A generation is a number below 2^64 and its bump wraps. The entries of the cache
-- are numbers into a heap, since a goroutine may still rebuild or copy an entry that the cache has
-- let go; curBytes is two numbers, what was added and what was taken off. A mount asks the engine
-- for the decision on a path, and passes the operation to the file system below, serves redacted
-- bytes of the provider, or refuses; before an open it has the engine reload a stale policy.
--
-- How the code is read. A string or a byte slice is a list of bytes, an int a natural number: the
-- offsets and lengths are those of buffers in memory, far below 2^63. A slice out of range is the
-- failure `panic`. A reader is the list of what its calls of Read return, and ends with io.EOF or
-- an error. Trimming knows the ASCII spaces only. Rule references and trace entries are data where
-- the code formats text. A loop is a recursion over the list or the bytes that it walks, but for
-- two: StaleAncestors has as much fuel as its first directory has bytes, and one more, since each
-- parent is shorter, and preadFull as its buffer has bytes, and one more, since each round but the
-- last reads a byte.
--
-- What is a parameter. The package regexp: a compiled expression is what it answers to, and the
-- one law used is that the spans it returns lie in the buffer (Patterns.IsLawful). The disk and
-- the YAML parser: what a read of a directory's policy file yields, and the directories of the
-- walk. What a rebuild reads from the file, and when it ends. Of a mount the kernel's system
-- calls, go-fuse's loopback file system, what a descriptor reads, and what Discover
-- (Rules/Compile) makes of the disk, all on a state of the world outside. Of the configuration the
-- environment, the home directory and what the file system says of a path; a JSON file is what it
-- decodes to. How the write of the mounts registry ends, and what JSON makes of a string. Whether
-- a transaction of the history's database goes well.
--
-- Not modelled: the command line, the daemon but for how it comes by its configuration, sockets,
-- HTTP and metrics, which are input and output around the parts above. Of a mount the synthetic
-- directory, the recovery from panics, the times of events and the start are left out, and a
-- handler is one step. Of the history the schema, the pruning and the queries are left out.
pub mod Backing
pub mod Base
pub mod Config
pub mod Engine
pub mod History
pub mod Mount
pub mod Patterns
pub mod Provider
pub mod Redact
pub mod Rules
pub mod Tests
