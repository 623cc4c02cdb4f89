-- ===== src/History/Closing.antt =====
-- Where the writer of internal/history/store.go is while and after it takes closeCh.
use janusfs.Base.{
  ℕ, ◌+◌, ◌≤◌, ◌≡◌, refl, sym, ◌∙◌, ap, Bool, true, false, Bool-cases, inl, inr, Option, none, some,
  arith,
}
use janusfs.Base.{List, [], ◌∷◌, ◌++◌, is_empty, all, length, leb, if◌then◌else◌}
use mathlib.Core.Path.{subst}
use janusfs.History.{
  OpEvent, Writer, waiting, ended, writing, ending, Store, batch_max, flush, record_event, on_tick,
  end_session, on_close, StoreMove, recorded, flushed, ticked, written, seen_close, closing,
  writer_ticked, writer_closed, writer_written, move, moves,
}
use janusfs.History.Conserved.{tally, tally_moves, tally_moves-cons, tally-append}

-- At its select or in the flush of a tick.
abbrev pub is_at_work : Writer → Bool
is_at_work waiting = true
is_at_work ended = false
is_at_work (writing es) = true
is_at_work (ending es) = false

-- In the flush behind the close, or ended with the session's count stored.
abbrev pub leaves : Writer → Option ℕ → Bool
leaves waiting o = false
leaves (writing es) o = false
leaves (ending es) o = true
leaves ended none = false
leaves ended (some n) = true

-- The select has not taken closeCh.
abbrev pub is_before_close : StoreMove → Bool
is_before_close (recorded e) = true
is_before_close (flushed n now fine) = true
is_before_close ticked = true
is_before_close seen_close = false
is_before_close (written now fine) = true
is_before_close closing = true

-- Nor the ticker.
abbrev pub is_quiet : StoreMove → Bool
is_quiet (recorded e) = true
is_quiet (flushed n now fine) = true
is_quiet ticked = false
is_quiet seen_close = false
is_quiet (written now fine) = true
is_quiet closing = true

record_event-keeps :
    (e : OpEvent) (s : Store)
    → ((record_event e s).writer ≡ s.writer)
      × ((record_event e s).closed ≡ s.closed)
      × ((record_event e s).session_ops ≡ s.session_ops)
unfolding record_event
record_event-keeps e s = elim (Bool-cases (leb batch_max (length (s.buf ++ (e ∷ []))))) [
  | inl full ↦ rw full (refl, refl, refl)
  | inr room ↦ rw room (refl, refl, refl)
]

on_tick-keeps :
    (s : Store)
    → s.writer ≡ waiting
    → (is_at_work (on_tick s).writer ≡ true) × ((on_tick s).closed ≡ s.closed)
unfolding on_tick
on_tick-keeps s w = elim (Bool-cases (is_empty s.buf)) [
  | inl none_there ↦ rw none_there (ap is_at_work w, refl)
  | inr some_there ↦ rw some_there (refl, refl)
]

is_empty→nil : (es : List OpEvent) → is_empty es ≡ true → es ≡ []
is_empty→nil [] h = refl
is_empty→nil (e ∷ es) h = cc

pub on_close-leaves :
    (s : Store)
    → (leaves (on_close s).writer (on_close s).session_ops ≡ true)
      × ((on_close s).buf ≡ [])
      × ((on_close s).closed ≡ s.closed)
unfolding on_close end_session
on_close-leaves s = elim (Bool-cases (is_empty s.buf)) [
  | inl none_there ↦ rw none_there (refl, is_empty→nil s.buf none_there, refl)
  | inr some_there ↦ rw some_there (refl, refl, refl)
]

ticked-keeps :
    (w : Writer) (s : Store)
    → s.writer ≡ w
    → is_at_work w ≡ true
    → (is_at_work (writer_ticked w s).writer ≡ true) × ((writer_ticked w s).closed ≡ s.closed)
unfolding writer_ticked
ticked-keeps waiting s e h = on_tick-keeps s e
ticked-keeps ended s e h = cc
ticked-keeps (writing es) s e h = (ap is_at_work e, refl)
ticked-keeps (ending es) s e h = cc

-- The end of a flush brings a writer at work to its select.
pub written-waits :
    (w : Writer) (now : ℕ) (fine : Bool) (s : Store)
    → s.writer ≡ w
    → is_at_work w ≡ true
    → ((writer_written w now fine s).writer ≡ waiting)
      × ((writer_written w now fine s).closed ≡ s.closed)
unfolding writer_written flush
written-waits waiting now fine s e h = (e, refl)
written-waits ended now fine s e h = cc
written-waits (ending es) now fine s e h = cc
written-waits (writing es) now true s e h = (refl, refl)
written-waits (writing es) now false s e h = (refl, refl)

-- Closed, with the writer at work.
abbrev pub IsClosing : Store → Type 0
IsClosing s = (s.closed ≡ true) × (is_at_work s.writer ≡ true)

move-IsClosing :
    (m : StoreMove) (s : Store) → is_before_close m ≡ true → IsClosing s → IsClosing (move m s)
unfolding move flush
move-IsClosing (recorded e) s b (c, w) =
    let (same, kept, _) = record_event-keeps e s in (kept ∙ c, ap is_at_work same ∙ w)
move-IsClosing (flushed n now true) s b h = h
move-IsClosing (flushed n now false) s b h = h
move-IsClosing ticked s b (c, w) =
    let (works, kept) = ticked-keeps s.writer s refl w in (kept ∙ c, works)
move-IsClosing seen_close s b h = cc
move-IsClosing (written now fine) s b (c, w) =
    let (waits, kept) = written-waits s.writer now fine s refl w in (kept ∙ c, ap is_at_work waits)
move-IsClosing closing s b (c, w) = (refl, w)

pub moves-IsClosing :
    (ms : List StoreMove) (s : Store)
    → all is_before_close ms ≡ true
    → IsClosing s
    → IsClosing (moves ms s)
unfolding moves
moves-IsClosing [] s b h = h
moves-IsClosing (m ∷ ms) s b h =
    moves-IsClosing ms (move m s) (ground (arith, b)) (move-IsClosing m s (ground (arith, b)) h)

-- Closed, with the writer at its select.
abbrev pub IsIdle : Store → Type 0
IsIdle s = (s.closed ≡ true) × (s.writer ≡ waiting)

move-IsIdle : (m : StoreMove) (s : Store) → is_quiet m ≡ true → IsIdle s → IsIdle (move m s)
unfolding move flush
move-IsIdle (recorded e) s b (c, w) =
    let (same, kept, _) = record_event-keeps e s in (kept ∙ c, same ∙ w)
move-IsIdle (flushed n now true) s b h = h
move-IsIdle (flushed n now false) s b h = h
move-IsIdle ticked s b h = cc
move-IsIdle seen_close s b h = cc
move-IsIdle (written now fine) s b (c, w) =
    let (waits, kept) = written-waits s.writer now fine s refl (ap is_at_work w) in
    (kept ∙ c, waits)
move-IsIdle closing s b (c, w) = (refl, w)

pub moves-IsIdle :
    (ms : List StoreMove) (s : Store) → all is_quiet ms ≡ true → IsIdle s → IsIdle (moves ms s)
unfolding moves
moves-IsIdle [] s b h = h
moves-IsIdle (m ∷ ms) s b h =
    moves-IsIdle ms (move m s) (ground (arith, b)) (move-IsIdle m s (ground (arith, b)) h)

record_event-buf :
    (p : OpEvent → Bool) (e : OpEvent) (s : Store)
    → tally p (record_event e s).buf ≤ (if p e then 1 else 0) + tally p s.buf
unfolding record_event
record_event-buf p e s = elim (Bool-cases (leb batch_max (length (s.buf ++ (e ∷ []))))) [
  | inl full ↦ rw full (omega arith)
  | inr room ↦ rw room (omega (arith, tally-append p s.buf (e ∷ [])))
]

abbrev pub HasLeft : Store → Type 0
HasLeft s = leaves s.writer s.session_ops ≡ true

-- Nothing but a call of Record puts an event into the buffer behind the close.
abbrev Grows : (OpEvent → Bool) → List StoreMove → Store → Store → Type 0
Grows p ms s s' = HasLeft s' × (tally p s'.buf ≤ tally_moves p ms + tally p s.buf)

leaves-waiting : (s : Store) (w : Writer) → s.writer ≡ w → HasLeft s → leaves w s.session_ops ≡ true
leaves-waiting s w e h = ap (λ t. leaves t s.session_ops) (sym e) ∙ h

ticked-left : (w : Writer) (s : Store) → s.writer ≡ w → HasLeft s → writer_ticked w s ≡ s
unfolding writer_ticked
ticked-left waiting s e h = cc (leaves-waiting s waiting e h)
ticked-left ended s e h = refl
ticked-left (writing es) s e h = refl
ticked-left (ending es) s e h = refl

closed-left :
    (w : Writer) (b : Bool) (s : Store) → s.writer ≡ w → HasLeft s → writer_closed w b s ≡ s
unfolding writer_closed
closed-left waiting b s e h = cc (leaves-waiting s waiting e h)
closed-left ended b s e h = refl
closed-left (writing es) b s e h = refl
closed-left (ending es) b s e h = refl

-- The last flush ends, well or not, and the session with it.
pub written-left :
    (w : Writer) (now : ℕ) (fine : Bool) (s : Store)
    → s.writer ≡ w
    → HasLeft s
    → HasLeft (writer_written w now fine s)
      × ((writer_written w now fine s).writer ≡ ended)
      × ((writer_written w now fine s).buf ≡ s.buf)
unfolding writer_written flush end_session
written-left waiting now fine s e h = cc (leaves-waiting s waiting e h)
written-left ended now fine s e h = (h, e, refl)
written-left (writing es) now fine s e h = cc (leaves-waiting s (writing es) e h)
written-left (ending es) now true s e h = (refl, refl, refl)
written-left (ending es) now false s e h = (refl, refl, refl)

move-Grows :
    (p : OpEvent → Bool) (m : StoreMove) (s : Store) → HasLeft s → Grows p (m ∷ []) s (move m s)
unfolding move flush
move-Grows p (recorded e) s h =
    let (same, _, ops) = record_event-keeps e s in
    (rw (same, ops) h, omega (arith, record_event-buf p e s))
move-Grows p (flushed n now true) s h = (h, omega arith)
move-Grows p (flushed n now false) s h = (h, omega arith)
move-Grows p ticked s h = rw (ticked-left s.writer s refl h) (h, omega arith)
move-Grows p seen_close s h = rw (closed-left s.writer s.closed s refl h) (h, omega arith)
move-Grows p (written now fine) s h =
    let (left, _, same) = written-left s.writer now fine s refl h in
    (left, omega (arith, ap (tally p) same))
move-Grows p closing s h = (h, omega arith)

pub moves-Grows :
    (p : OpEvent → Bool) (ms : List StoreMove) (s : Store) → HasLeft s → Grows p ms s (moves ms s)
unfolding moves
moves-Grows p [] s h = (h, omega arith)
moves-Grows p (m ∷ ms) s h =
    let (left, one) = move-Grows p m s h in
    let (at_end, rest) = moves-Grows p ms (move m s) left in
    (at_end, omega (arith, one, rest, tally_moves-cons p m ms))

move-ended : (m : StoreMove) (s : Store) → s.writer ≡ ended → (move m s).writer ≡ ended
unfolding move flush writer_ticked writer_closed writer_written
move-ended (recorded e) s w = let (same, _, _) = record_event-keeps e s in same ∙ w
move-ended (flushed n now true) s w = w
move-ended (flushed n now false) s w = w
move-ended ticked s w = subst (λ t. (writer_ticked t s).writer ≡ ended) (sym w) w
move-ended seen_close s w = subst (λ t. (writer_closed t s.closed s).writer ≡ ended) (sym w) w
move-ended (written now fine) s w =
    subst (λ t. (writer_written t now fine s).writer ≡ ended) (sym w) w
move-ended closing s w = w

pub moves-ended : (ms : List StoreMove) (s : Store) → s.writer ≡ ended → (moves ms s).writer ≡ ended
unfolding moves
moves-ended [] s w = w
moves-ended (m ∷ ms) s w = moves-ended ms (move m s) (move-ended m s w)

pub moves-append : (xs ys : List StoreMove) (s : Store) → moves (xs ++ ys) s ≡ moves ys (moves xs s)
unfolding moves
moves-append [] ys s = refl
moves-append (m ∷ xs) ys s = moves-append xs ys (move m s)
