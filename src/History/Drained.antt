-- ===== src/History/Drained.antt =====
-- Close of internal/history/store.go gets the buffer out, and the writer ends.
use janusfs.Base.{ℕ, ◌+◌, ◌≤◌, ◌≡◌, Bool, some}
use janusfs.Base.{List, ◌∷◌, ◌++◌}
use janusfs.History.{OpEvent, ended, Store, StoreMove, written, seen_close}
use janusfs.History.Conserved.{tally, tally_rows, tally_flights, tally_moves, held}

-- The moves behind Close up to the writer's select taking closeCh, with the end of a flush in them,
-- and those behind that, with the end of the last flush in them.
abbrev pub until_close : List StoreMove → ℕ → Bool → List StoreMove → List StoreMove
until_close xs now fine ys = xs ++ (written now fine ∷ ys)

abbrev pub behind_close : List StoreMove → ℕ → Bool → List StoreMove → List StoreMove
behind_close zs now fine vs = seen_close ∷ (zs ++ (written now fine ∷ vs))

-- The events that are out of the buffer: in the table, in a transaction that failed, or on their
-- way in the flush of a Record.
abbrev pub let_out : (OpEvent → Bool) → Store → ℕ
let_out p s = tally_rows p s.rows + tally p s.dropped + tally_flights p s.flights

-- The writer has ended and the session with it, and what the store held at first or was recorded by
-- the first moves is out of the buffer.
pub record Drained (p : OpEvent → Bool) (first : List StoreMove) (s s' : Store) : Type 0 where
  pub writer_ended : s'.writer ≡ ended
  pub session : (n : ℕ) × (s'.session_ops ≡ some n)
  pub out : held p s + tally_moves p first ≤ let_out p s'
