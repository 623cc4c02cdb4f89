-- ===== src/History.antt =====
-- internal/history/store.go: the buffer of events, the goroutine that writes it out, and what has
-- been committed. The database is what its transactions have committed; whether one goes well, and
-- at what time it began, comes with the step. The reads of the database are left out.
pub mod Conserved
pub mod Closing
pub mod Drained
use janusfs.Base.{ℕ, zero, suc, ◌+◌, ◌%◌, ◌^◌, Bool, true, false, Option, none, some}
use janusfs.Base.{List, [], ◌∷◌, ◌++◌, if◌then◌else◌, is_empty, length, leb, map, any}
use janusfs.Base.Text.{Bytes, eq}

-- `obs.Event`, without what the store does not keep.
pub record OpEvent : Type 0 where
  pub path : Bytes
  pub op : Bytes
  pub decision : Bytes
  pub bytes : ℕ
  pub latency_us : ℕ

-- `opRow`.
pub record OpRow : Type 0 where
  pub ts : ℕ
  pub event : OpEvent

-- Where `batchedWriter` is: at its select, in a flush, in the flush behind Close, or gone.
pub data Writer : Type 0 where
  waiting ended : Writer
  writing ending : List OpEvent → Writer

-- `Store`: `flights` are the buffers that a call of Record flushes at this moment. `rows`, `coverage`
-- and `session_ops` are the tables; `dropped` are the events of transactions that failed.
pub record Store : Type 0 where
  pub buf : List OpEvent
  pub flights : List (List OpEvent)
  pub writer : Writer
  pub closed : Bool
  pub total_ops : ℕ
  pub rows : List OpRow
  pub coverage : List Bytes
  pub session_ops : Option ℕ
  pub dropped : List OpEvent

abbrev pub batch_max : ℕ
batch_max = 1000

-- `Open`, behind the migration and the pruning, on what the tables hold then.
unfoldable pub open_store : List OpRow → List Bytes → Store
open_store rows coverage = record {
  buf = [];
  flights = [];
  writer = waiting;
  closed = false;
  total_ops = 0;
  rows = rows;
  coverage = coverage;
  session_ops = none;
  dropped = [];
}

-- `INSERT OR IGNORE` of the paths.
unfoldable pub cover : List OpEvent → List Bytes → List Bytes
cover [] paths = paths
cover (e ∷ es) paths =
    cover es (if any (λ p. eq p e.path) paths then paths else paths ++ (e.path ∷ []))

-- The transaction of `flush` that began at `now`: all of it, or nothing where a step of it fails.
unfoldable pub flush : ℕ → Bool → List OpEvent → Store → Store
unfolding cover
flush now true es s = record s {
  rows = s.rows ++ map (λ e. record { ts = now; event = e }) es;
  coverage = cover es s.coverage;
  total_ops = (s.total_ops + length es) % 2 ^ 64;
}
flush now false es s = record s { dropped = s.dropped ++ es }

-- `Record`, up to its flush.
unfoldable pub record_event : OpEvent → Store → Store
record_event e s =
    if leb batch_max (length (s.buf ++ (e ∷ [])))
    then record s { buf = []; flights = s.flights ++ ((s.buf ++ (e ∷ [])) ∷ []) }
    else record s { buf = s.buf ++ (e ∷ []) }

-- The ticker's case of the select.
unfoldable pub on_tick : Store → Store
on_tick s = if is_empty s.buf then s else record s { buf = []; writer = writing s.buf }

unfoldable pub end_session : Store → Store
end_session s = record s { session_ops = some s.total_ops; writer = ended }

-- The case of `closeCh`.
unfoldable pub on_close : Store → Store
unfolding end_session
on_close s = if is_empty s.buf then end_session s else record s { buf = []; writer = ending s.buf }

-- One buffer of those in flight, and the others.
abbrev pub take_flight : ℕ → List (List OpEvent) → List OpEvent × List (List OpEvent)
take_flight n [] = ([], [])
take_flight zero (b ∷ bs) = (b, bs)
take_flight (suc n) (b ∷ bs) = let (found, rest) = take_flight n bs in (found, b ∷ rest)

pub data StoreMove : Type 0 where
  -- A call of Record, and the end of the flush of the one at that place.
  recorded : OpEvent → StoreMove
  flushed : ℕ → ℕ → Bool → StoreMove
  -- The writer's select takes the ticker, or closeCh; its flush ends.
  ticked seen_close : StoreMove
  written : ℕ → Bool → StoreMove
  -- Close.
  closing : StoreMove

unfoldable pub writer_ticked : Writer → Store → Store
unfolding on_tick
writer_ticked waiting s = on_tick s
writer_ticked ended s = s
writer_ticked (writing es) s = s
writer_ticked (ending es) s = s

unfoldable pub writer_closed : Writer → Bool → Store → Store
unfolding on_close
writer_closed waiting true s = on_close s
writer_closed waiting false s = s
writer_closed ended b s = s
writer_closed (writing es) b s = s
writer_closed (ending es) b s = s

unfoldable pub writer_written : Writer → ℕ → Bool → Store → Store
unfolding flush end_session
writer_written (writing es) now fine s = flush now fine es (record s { writer = waiting })
writer_written (ending es) now fine s = end_session (flush now fine es s)
writer_written waiting now fine s = s
writer_written ended now fine s = s

-- A move that nothing is ready for leaves the store as it is.
unfoldable pub move : StoreMove → Store → Store
unfolding record_event flush writer_ticked writer_closed writer_written
move (recorded e) s = record_event e s
move (flushed n now fine) s =
    flush now fine (take_flight n s.flights).0 (record s { flights = (take_flight n s.flights).1 })
move ticked s = writer_ticked s.writer s
move seen_close s = writer_closed s.writer s.closed s
move (written now fine) s = writer_written s.writer now fine s
move closing s = record s { closed = true }

unfoldable pub moves : List StoreMove → Store → Store
unfolding move
moves [] s = s
moves (m ∷ ms) s = moves ms (move m s)
